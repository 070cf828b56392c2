-- ===== src/View/Indexing.antt =====
-- The secondary index of a view: `InMemoryIndex` of architecturekit/in_memory_view.go.
use architecturekit_golang.Base.{
  ◌≡◌, refl, Bool, true, false, ◌&&◌, ◌||◌, none, some, [], ◌∷◌, arith, ◌==◌, if◌then◌else◌, Eq,
  nat_eq, length, text_has_eq, Dict, lookup, assign, remove, lookup-assign, lookup-remove,
}

pub record Index {ℓ} (K I V : Type ℓ) : Type ℓ where
  pub value_of : I → V
  pub keys : Dict V (Dict K (Unit {0}))

lookup-empty {ℓ κ} :
    {K : Type ℓ} {V : Type κ} ⦃e : Eq K⦄ (keys : Dict K V) (j : K)
    → length keys ≡ 0
    → lookup j keys ≡ none
unfolding lookup
lookup-empty [] j h = refl
lookup-empty (x ∷ keys) j h = absurd (omega arith)

module _ {ℓ} {K I V : Type ℓ} ⦃e : Eq K⦄ ⦃ev : Eq V⦄ where
  -- The keys under a value, none of them if there is no such value.
  unfoldable pub index_keys : V → Index K I V → Dict K (Unit {0})
  unfolding lookup
  index_keys value i = elim (lookup value i.keys) [ none ↦ [] | some keys ↦ keys ]

  -- `add`
  unfoldable pub index_add : K → I → Index K I V → Index K I V
  unfolding index_keys assign
  index_add key item i =
      let value = i.value_of item in
      record i { keys = assign value (assign key tt (index_keys value i)) i.keys }

  -- `remove`
  unfoldable pub index_remove : K → I → Index K I V → Index K I V
  unfolding index_keys assign remove
  index_remove key item i =
      let value = i.value_of item in
      let keys = remove key (index_keys value i) in
      record i { keys = if length keys == 0 then remove value i.keys else assign value keys i.keys }

  -- The index finds the key under the value.
  unfoldable pub holds : Index K I V → V → K → Bool
  unfolding index_keys
  holds i value key = elim (lookup key (index_keys value i)) [ none ↦ false | some u ↦ true ]

  -- After an item is added, the index finds its key under the value of the item, and every other key
  -- exactly under the values under which it did before.
  pub holds-index_add :
      (i : Index K I V) (key : K) (item : I) (value : V) (j : K)
      → holds (index_add key item i) value j
        ≡ ((ev.beq (i.value_of item) value && e.beq key j) || holds i value j)
  unfolding holds index_add
  holds-index_add i key item value j = ground (
    arith,
    lookup-assign (i.value_of item) value (assign key tt (index_keys (i.value_of item) i)) i.keys,
    lookup-assign key j tt (index_keys (i.value_of item) i),
    ev.beq_iff (i.value_of item) value,
  )

  -- After an item is removed, the index does not find its key under the value of the item any more,
  -- and everything else as it did before.
  pub holds-index_remove :
      (i : Index K I V) (key : K) (item : I) (value : V) (j : K)
      → holds (index_remove key item i) value j
        ≡ (if ev.beq (i.value_of item) value && e.beq key j then false else holds i value j)
  unfolding holds index_remove
  holds-index_remove i key item value j = ground (
    arith,
    lookup-assign (i.value_of item) value (remove key (index_keys (i.value_of item) i)) i.keys,
    lookup-remove (i.value_of item) value i.keys,
    lookup-remove key j (index_keys (i.value_of item) i),
    lookup-empty (remove key (index_keys (i.value_of item) i)) j,
    ev.beq_iff (i.value_of item) value,
  )

  -- After an item is added, the index finds its key under the value of the item, after it is removed
  -- it does not any more, and in both cases it finds everything else as it did before.
  pub holds_changed :
      (i : Index K I V) (key : K) (item : I) (value : V) (j : K)
      → (holds (index_add key item i) value j
          ≡ ((ev.beq (i.value_of item) value && e.beq key j) || holds i value j))
        × (holds (index_remove key item i) value j
            ≡ (if ev.beq (i.value_of item) value && e.beq key j then false else holds i value j))
  holds_changed i key item value j =
      (holds-index_add i key item value j, holds-index_remove i key item value j)

-- ===== src/View/Indexes.antt =====
-- The creation of an index: `Index` of architecturekit/in_memory_view.go.
use architecturekit_golang.Base.{
  ℕ, zero, suc, ◌≡◌, refl, inl, inr, Bool, true, false, ◌&&◌, ◌||◌, Option, none, some, List, [],
  ◌∷◌, ◌++◌, arith, Option-cases, Eq, nat_eq, All, get_elem?, text_has_eq, Dict, lookup,
}
use architecturekit_golang.View.{View}
use architecturekit_golang.View.Items.{Entry}
use architecturekit_golang.View.Indexing.{Index, index_add, holds, holds-index_add}
use architecturekit_golang.View.Compaction.{stamp_option}
use architecturekit_golang.View.Contents.{IsValid}
use architecturekit_golang.View.Indexed.{IsIndex, IsIndexed, has_value}

abbrev is_among {ℓ} : {K : Type ℓ} ⦃e : Eq K⦄ → K → List K → Bool
is_among key [] = false
is_among ⦃e⦄ key (j ∷ order) = e.beq j key || is_among key order

get_elem?-is_among {ℓ} :
    {K : Type ℓ} ⦃e : Eq K⦄ (order : List K) (i : ℕ) (key : K)
    → get_elem? order i ≡ some key
    → is_among key order ≡ true
get_elem?-is_among [] i key h = absurd (ground arith)
get_elem?-is_among ⦃e⦄ (j ∷ order) zero key h = ground (arith, e.beq_iff j key)
get_elem?-is_among (j ∷ order) (suc i) key h = ground (arith, get_elem?-is_among order i key h)

last-All {ℓ κ} :
    {A : Type ℓ} (P : A → Type κ) (xs : List A) (a : A) → All P xs → P a → All P (xs ++ a ∷ [])
last-All P [] a all h = (h, tt)
last-All P (x ∷ xs) a all h = (all.0, last-All P xs a all.1 h)

module _ {ℓ} {K I V : Type ℓ} ⦃e : Eq K⦄ ⦃ev : Eq V⦄ where
  -- The loop of `Index` over the keys in order.
  unfoldable pub index_from : List K → Dict K (Entry I) → Index K I V → Index K I V
  unfolding lookup index_add
  index_from [] entries index = index
  index_from (key ∷ order) entries index =
      let next : Index K I V = elim (lookup key entries) [
        | none ↦ index
        | some entry ↦ index_add key entry.item index
      ] in
      index_from order entries next

  abbrev pub new_index : (I → V) → View K I V → Index K I V
  new_index value_of v = index_from v.order v.entries (record { value_of = value_of; keys = [] })

  -- `Index`: a nil function panics, which is `none`.
  unfoldable pub index_by : Option (I → V) → View K I V → Option (View K I V)
  unfolding index_from
  index_by none v = none
  index_by (some value_of) v = some (record v { indexes = v.indexes ++ new_index value_of v ∷ [] })

  index_from-value_of :
      (order : List K) (entries : Dict K (Entry I)) (index : Index K I V)
      → (index_from order entries index).value_of ≡ index.value_of
  unfolding index_from index_add
  index_from-value_of [] entries index = refl
  index_from-value_of (key ∷ order) entries index = elim (Option-cases (lookup key entries)) [
    | inl absent ↦ rw (index_from, absent) (index_from-value_of order entries index)
    | inr (entry, found) ↦
        rw (index_from, found) (index_from-value_of order entries (index_add key entry.item index))
  ]

  holds-index_from :
      (order : List K) (entries : Dict K (Entry I)) (index : Index K I V) (value : V) (key : K)
      → holds (index_from order entries index) value key ≡ (
          holds index value key
          || (is_among key order
              && has_value index.value_of value (stamp_option (lookup key entries))))
  unfolding index_from index_add
  holds-index_from [] entries index value key = ground arith
  holds-index_from (j ∷ order) entries index value key = elim (Option-cases (lookup j entries)) [
    | inl absent ↦ ground (arith, holds-index_from order entries index value key, e.beq_iff j key)
    | inr (entry, found) ↦ ground (
      arith,
      holds-index_from order entries (index_add j entry.item index) value key,
      holds-index_add index j entry.item value key,
      e.beq_iff j key,
    )
  ]

  -- Index adds an index that finds under every value exactly the keys of the items with that value.
  pub index_by-IsIndexed :
      (value_of : I → V) (v v' : View K I V)
      → IsValid v
      → IsIndexed v
      → index_by (some value_of) v ≡ some v'
      → IsIndexed v'
  unfolding index_by holds
  index_by-IsIndexed value_of v v' valid h creates =
      let start : Index K I V = record { value_of = value_of; keys = [] } in
      let index = new_index value_of v in
      let is_index : IsIndex v.entries index = λ value key.
        elim (Option-cases (lookup key v.entries)) [
          | inl absent ↦ ground (arith, holds-index_from v.order v.entries start value key)
          | inr (entry, found) ↦ ground (
            arith,
            holds-index_from v.order v.entries start value key,
            index_from-value_of v.order v.entries start,
            get_elem?-is_among v.order entry.position key (valid.placed key entry found),
          )
        ] in
      let v_is : record v { indexes = v.indexes ++ index ∷ [] } ≡ v' = ground arith in
      rw (← v_is) (last-All (IsIndex v.entries) v.indexes index h is_index)

-- ===== src/View/Indexed.antt =====
-- The indexes of a view beside its items: architecturekit/in_memory_view.go.
use architecturekit_golang.Base.{
  ◌≡◌, Bool, false, Option, none, some, List, [], ◌∷◌, arith, Eq, nat_eq, All, text_has_eq, Dict,
  lookup, assign, remove, lookup-assign, lookup-remove,
}
use architecturekit_golang.View.{View, add_to_indexes, remove_from_indexes}
use architecturekit_golang.View.Items.{Entry}
use architecturekit_golang.View.Indexing.{
  Index, index_add, index_remove, holds, holds-index_add, holds-index_remove,
}
use architecturekit_golang.View.Compaction.{Stamped, stamp_option}

-- Whether an item has the value.
abbrev pub has_value {ℓ} : {I V : Type ℓ} ⦃ev : Eq V⦄ → (I → V) → V → Option (Stamped I) → Bool
has_value value_of value none = false
has_value ⦃ev⦄ value_of value (some found) = ev.beq (value_of found.item) value

module _ {ℓ} {K I V : Type ℓ} ⦃e : Eq K⦄ ⦃ev : Eq V⦄ where
  -- The index finds under every value exactly the keys of the items that have it.
  abbrev pub IsIndex : Dict K (Entry I) → Index K I V → Type ℓ
  IsIndex entries index =
      (value : V) (key : K)
      → holds index value key ≡ has_value index.value_of value (stamp_option (lookup key entries))

  abbrev pub IsIndexed : View K I V → Type ℓ
  IsIndexed v = All (IsIndex v.entries) v.indexes

  add-IsIndex :
      (key : K) (entry : Entry I) (entries : Dict K (Entry I)) (index : Index K I V)
      → lookup key entries ≡ none
      → IsIndex entries index
      → IsIndex (assign key entry entries) (index_add key entry.item index)
  unfolding index_add
  add-IsIndex key entry entries index absent h value j = ground (
    arith,
    holds-index_add index key entry.item value j,
    lookup-assign key j entry entries,
    h value j,
    e.beq_iff key j,
  )

  remove-IsIndex :
      (key : K) (entry : Entry I) (entries : Dict K (Entry I)) (index : Index K I V)
      → lookup key entries ≡ some entry
      → IsIndex entries index
      → IsIndex (remove key entries) (index_remove key entry.item index)
  unfolding index_remove
  remove-IsIndex key entry entries index found h value j = ground (
    arith,
    holds-index_remove index key entry.item value j,
    lookup-remove key j entries,
    h value j,
    e.beq_iff key j,
  )

  replace-IsIndex :
      (key : K) (before after : Entry I) (entries : Dict K (Entry I)) (index : Index K I V)
      → lookup key entries ≡ some before
      → IsIndex entries index
      → IsIndex
          (assign key after entries)
          (index_add key after.item (index_remove key before.item index))
  unfolding index_add index_remove
  replace-IsIndex key before after entries index found h value j =
      let removed = index_remove key before.item index in
      ground (
        arith,
        holds-index_add removed key after.item value j,
        remove-IsIndex key before entries index found h value j,
        lookup-remove key j entries,
        lookup-assign key j after entries,
        e.beq_iff key j,
      )

  pub add_to-IsIndexed :
      (key : K) (entry : Entry I) (entries : Dict K (Entry I)) (indexes : List (Index K I V))
      → lookup key entries ≡ none
      → All (IsIndex entries) indexes
      → All (IsIndex (assign key entry entries)) (add_to_indexes key entry.item indexes)
  unfolding add_to_indexes
  add_to-IsIndexed key entry entries [] absent all = tt
  add_to-IsIndexed key entry entries (index ∷ indexes) absent all = (
    add-IsIndex key entry entries index absent all.0,
    add_to-IsIndexed key entry entries indexes absent all.1,
  )

  pub remove_from-IsIndexed :
      (key : K) (entry : Entry I) (entries : Dict K (Entry I)) (indexes : List (Index K I V))
      → lookup key entries ≡ some entry
      → All (IsIndex entries) indexes
      → All (IsIndex (remove key entries)) (remove_from_indexes key entry.item indexes)
  unfolding remove_from_indexes
  remove_from-IsIndexed key entry entries [] found all = tt
  remove_from-IsIndexed key entry entries (index ∷ indexes) found all = (
    remove-IsIndex key entry entries index found all.0,
    remove_from-IsIndexed key entry entries indexes found all.1,
  )

  pub replace_in-IsIndexed :
      (key : K) (before after : Entry I) (entries : Dict K (Entry I)) (indexes : List (Index K I V))
      → lookup key entries ≡ some before
      → All (IsIndex entries) indexes
      → All
          (IsIndex (assign key after entries))
          (add_to_indexes key after.item (remove_from_indexes key before.item indexes))
  unfolding add_to_indexes remove_from_indexes
  replace_in-IsIndexed key before after entries [] found all = tt
  replace_in-IsIndexed key before after entries (index ∷ indexes) found all = (
    replace-IsIndex key before after entries index found all.0,
    replace_in-IsIndexed key before after entries indexes found all.1,
  )

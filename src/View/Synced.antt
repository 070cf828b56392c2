-- ===== src/View/Synced.antt =====
-- The indexes of a view after its operations: architecturekit/in_memory_view.go.
use architecturekit_golang.Base.{
  ℕ, ◌+◌, ◌*◌, ◌≡◌, sym, ap, ◌∙◌, inl, inr, none, List, [], ◌∷◌, Bool-cases, Option-cases, Eq,
  nat_eq, ltb, length, All-map_implies, Text, text_has_eq, lookup, remove,
}
use architecturekit_golang.Failure.{Result-cases}
use architecturekit_golang.View.{
  View, add, replace_entry, compact, delete_item, change_item, change_all, delete_all, insert,
  upsert, remove_from_indexes,
}
use architecturekit_golang.View.Items.{
  Config, AppliedEvent, applied_event_of, stamped, cloned, changed_entry, is_newer_than,
}
use architecturekit_golang.View.Compacted.{compact_from-IsCompaction}
use architecturekit_golang.View.Indexed.{
  IsIndex, IsIndexed, has_value, add_to-IsIndexed, remove_from-IsIndexed, replace_in-IsIndexed,
}

module _ {ℓ} {K I V : Type ℓ} ⦃e : Eq K⦄ ⦃ev : Eq V⦄ where
  compact-IsIndexed : (v : View K I V) → IsIndexed v → IsIndexed (compact v)
  unfolding compact
  compact-IsIndexed v h = elim (Bool-cases (ltb (length v.order) (2 * length v.entries + 16))) [
    | inl short ↦ rw (compact, short) h
    | inr long ↦
        let compaction = compact_from-IsCompaction v.order v.entries in
        rw (compact, long)
          (All-map_implies (IsIndex v.entries) _ v.indexes
            (λ index is_index value key.
              is_index value key
              ∙ ap (has_value index.value_of value) (sym (compaction.lookups key)))
            h)
  ]

  change_item-IsIndexed :
      (c : Config K I) (key : K) (event : AppliedEvent) (change : I → I) (v : View K I V)
      → IsIndexed v
      → IsIndexed (change_item c key event change v).0
  unfolding change_item replace_entry
  change_item-IsIndexed c key event change v h = elim (Option-cases (lookup key v.entries)) [
    | inl missing ↦ rw (change_item, missing) h
    | inr (entry, found) ↦ elim (Bool-cases (is_newer_than event entry)) [
      | inr older ↦ rw (change_item, found, older) h
      | inl newer ↦ elim (Bool-cases (e.beq (c.key_of (change (cloned c entry.item))) key)) [
        | inr moved ↦ rw (change_item, found, newer, moved) h
        | inl same ↦
            rw (change_item, found, newer, same)
              (replace_in-IsIndexed key entry (changed_entry c event change entry) v.entries
                v.indexes found h)
      ]
    ]
  ]

  delete_item-IsIndexed :
      (key : K) (event : AppliedEvent) (v : View K I V)
      → IsIndexed v
      → IsIndexed (delete_item key event v).0
  unfolding delete_item
  delete_item-IsIndexed key event v h = elim (Option-cases (lookup key v.entries)) [
    | inl missing ↦ rw (delete_item, missing) h
    | inr (entry, found) ↦ elim (Bool-cases (is_newer_than event entry)) [
      | inr older ↦ rw (delete_item, found, older) h
      | inl newer ↦
          rw (delete_item, found, newer)
            (compact-IsIndexed
              (record v {
                entries = remove key v.entries;
                indexes = remove_from_indexes key entry.item v.indexes;
              })
              (remove_from-IsIndexed key entry v.entries v.indexes found h))
    ]
  ]

  add-IsIndexed :
      (c : Config K I) (key : K) (item : I) (event : AppliedEvent) (v : View K I V)
      → lookup key v.entries ≡ none
      → IsIndexed v
      → IsIndexed (add c key item event v)
  unfolding add
  add-IsIndexed c key item event v absent h =
      add_to-IsIndexed key
        (record {
          item = stamped c event item;
          revision = event.number;
          part = event.part;
          position = length v.order;
        })
        v.entries v.indexes absent h

  change_all-IsIndexed :
      (c : Config K I) (keys : List K) (event : AppliedEvent) (change : I → I) (changed : ℕ)
      (v : View K I V)
      → IsIndexed v
      → IsIndexed (change_all c keys event change changed v).0
  unfolding change_all
  change_all-IsIndexed c [] event change changed v h = h
  change_all-IsIndexed c (key ∷ keys) event change changed v h =
      let kept = change_item-IsIndexed c key event change v h in
      elim (Result-cases (change_item c key event change v).1) [
        | inr (err, fails) ↦ rw (change_all, fails) kept
        | inl (outcome, succeeds) ↦
            rw (change_all, succeeds)
              (change_all-IsIndexed c keys event change _ (change_item c key event change v).0 kept)
      ]

  delete_all-IsIndexed :
      (keys : List K) (event : AppliedEvent) (removed : ℕ) (v : View K I V)
      → IsIndexed v
      → IsIndexed (delete_all keys event removed v).0
  unfolding delete_all
  delete_all-IsIndexed [] event removed v h = h
  delete_all-IsIndexed (key ∷ keys) event removed v h =
      delete_all-IsIndexed keys event _ (delete_item key event v).0
        (delete_item-IsIndexed key event v h)

  insert-IsIndexed :
      (c : Config K I) (part : ℕ) (event_id : Text) (item : I) (v : View K I V)
      → IsIndexed v
      → IsIndexed (insert c part event_id item v).0
  unfolding insert
  insert-IsIndexed c part event_id item v h = elim (Result-cases (applied_event_of part event_id)) [
    | inr (err, fails) ↦ rw (insert, fails) h
    | inl (event, is_event) ↦ elim (Option-cases (lookup (c.key_of item) v.entries)) [
      | inl absent ↦
          rw (insert, is_event, absent) (add-IsIndexed c (c.key_of item) item event v absent h)
      | inr (entry, found) ↦ elim (Bool-cases (is_newer_than event entry)) [
        | inr older ↦ rw (insert, is_event, found, older) h
        | inl newer ↦ rw (insert, is_event, found, newer) h
      ]
    ]
  ]

  upsert-IsIndexed :
      (c : Config K I) (part : ℕ) (key : K) (event_id : Text) (change : I → I) (v : View K I V)
      → IsIndexed v
      → IsIndexed (upsert c part key event_id change v).0
  unfolding upsert
  upsert-IsIndexed c part key event_id change v h =
      elim (Result-cases (applied_event_of part event_id)) [
        | inr (err, fails) ↦ rw (upsert, fails) h
        | inl (event, is_event) ↦ elim (Option-cases (lookup key v.entries)) [
          | inr (entry, found) ↦
              rw (upsert, is_event, found) (change_item-IsIndexed c key event change v h)
          | inl absent ↦ elim (Bool-cases (e.beq (c.key_of (change c.zero_item)) key)) [
            | inr moved ↦ rw (upsert, is_event, absent, moved) h
            | inl same ↦
                rw (upsert, is_event, absent, same)
                  (add-IsIndexed c key (change c.zero_item) event v absent h)
          ]
        ]
      ]

  -- An index that finds under every value exactly the keys of the items with that value still does so
  -- after Insert and Upsert, and after items are changed or removed, also when the order is compacted.
  pub changed-IsIndexed :
      (c : Config K I) (v : View K I V)
      → IsIndexed v
      → ((part : ℕ) (event_id : Text) (item : I) → IsIndexed (insert c part event_id item v).0)
        × ((part : ℕ) (key : K) (event_id : Text) (change : I → I)
            → IsIndexed (upsert c part key event_id change v).0)
        × ((keys : List K) (event : AppliedEvent) (change : I → I)
            → IsIndexed (change_all c keys event change 0 v).0)
        × ((keys : List K) (event : AppliedEvent) → IsIndexed (delete_all keys event 0 v).0)
  changed-IsIndexed c v h = (
    λ part event_id item. insert-IsIndexed c part event_id item v h,
    λ part key event_id change. upsert-IsIndexed c part key event_id change v h,
    λ keys event change. change_all-IsIndexed c keys event change 0 v h,
    λ keys event. delete_all-IsIndexed keys event 0 v h,
  )

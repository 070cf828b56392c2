-- ===== src/View.antt =====
-- The view in memory: architecturekit/in_memory_view.go. A method returns the view that it leaves
-- behind beside its result; the lock makes each of them one step.
pub mod Items
pub mod Order
pub mod Indexing
pub mod Live
pub mod Compaction
pub mod Compacted
pub mod Model
pub mod Contents
pub mod Validity
pub mod Waiting
pub mod Indexed
pub mod Synced
pub mod Indexes
pub mod Reachable
pub mod Repeated
use architecturekit_golang.Base.{
  ℕ, ◌+◌, ◌*◌, Bool, not, Option, none, some, List, [], ◌∷◌, ◌++◌, map, arith, ltb, if◌then◌else◌,
  Eq, nat_eq, length, Text, text_has_eq, Dict, lookup, assign, remove,
}
use architecturekit_golang.Failure.{permanent, Result, ok, fail, ◌>>=◌, wrapping}
use architecturekit_golang.Revision.{is_newer}
use architecturekit_golang.View.Items.{
  Entry, Config, AppliedEvent, Outcome, applied, missing, already_applied, added, applied_event_of,
  is_newer_than, stamped, cloned, changed_entry,
}
use architecturekit_golang.View.Order.{live, keys_matching, compact_from}
use architecturekit_golang.View.Indexing.{Index, index_add, index_remove}

-- `changed` counts how often the channel of that name was closed and replaced.
pub record View {ℓ} (K I V : Type ℓ) : Type ℓ where
  pub entries : Dict K (Entry I)
  pub order : List K
  pub indexes : List (Index K I V)
  pub revision : Text
  pub changed : ℕ

-- `NewInMemoryView`
abbrev pub new_view {ℓ} : {K I V : Type ℓ} → View K I V
new_view = record { entries = []; order = []; indexes = []; revision = []; changed = 0 }

abbrev count_applied : Result Outcome → ℕ → ℕ
count_applied (ok applied) n = n + 1
count_applied _ n = n

module _ {ℓ} {K I V : Type ℓ} ⦃e : Eq K⦄ ⦃ev : Eq V⦄ where
  -- `Seen`
  unfoldable pub seen : Text → View K I V → View K I V
  unfolding is_newer
  seen event_id v =
      if is_newer event_id v.revision
      then record v { revision = event_id; changed = v.changed + 1 }
      else v

  -- `Get`
  unfoldable pub get : K → View K I V → Option I
  unfolding lookup
  get key v = elim (lookup key v.entries) [ none ↦ none | some entry ↦ some entry.item ]

  -- `All`
  unfoldable pub all : View K I V → List I
  unfolding live
  all v = map (λ x. x.1.item) (live 0 v.order v.entries)

  -- `keysWhere`
  unfoldable pub keys_where : (I → Bool) → View K I V → List K
  unfolding keys_matching live
  keys_where match v = keys_matching match (live 0 v.order v.entries)

  unfoldable pub add_to_indexes : K → I → List (Index K I V) → List (Index K I V)
  unfolding index_add
  add_to_indexes key item [] = []
  add_to_indexes key item (index ∷ indexes) =
      index_add key item index ∷ add_to_indexes key item indexes

  unfoldable pub remove_from_indexes : K → I → List (Index K I V) → List (Index K I V)
  unfolding index_remove
  remove_from_indexes key item [] = []
  remove_from_indexes key item (index ∷ indexes) =
      index_remove key item index ∷ remove_from_indexes key item indexes

  -- `add`
  unfoldable pub add : Config K I → K → I → AppliedEvent → View K I V → View K I V
  unfolding stamped assign add_to_indexes
  add c key item event v =
      let item' = stamped c event item in
      let entry : Entry I = record {
        item = item';
        revision = event.number;
        part = event.part;
        position = length v.order;
      } in
      record v {
        entries = assign key entry v.entries;
        order = v.order ++ key ∷ [];
        indexes = add_to_indexes key item' v.indexes;
      }

  unfoldable pub replace_entry : K → Entry I → Entry I → View K I V → View K I V
  unfolding assign add_to_indexes remove_from_indexes
  replace_entry key before after v = record v {
    entries = assign key after v.entries;
    indexes = add_to_indexes key after.item (remove_from_indexes key before.item v.indexes);
  }

  -- `change`
  unfoldable pub change_item :
      Config K I → K → AppliedEvent → (I → I) → View K I V → View K I V × Result Outcome
  unfolding lookup is_newer_than changed_entry replace_entry cloned
  change_item c key event change v = elim (lookup key v.entries) [
    | none ↦ (v, ok missing)
    | some entry ↦
        if not (is_newer_than event entry)
        then (v, ok already_applied)
        else if not (e.beq (c.key_of (change (cloned c entry.item))) key)
        then (v, fail (wrapping permanent))
        else (replace_entry key entry (changed_entry c event change entry) v, ok applied)
  ]

  unfoldable pub compact : View K I V → View K I V
  unfolding compact_from
  compact v =
      if ltb (length v.order) (2 * length v.entries + 16)
      then v
      else (let (entries, order) = compact_from 0 v.order (v.entries, []) in
          record v { entries = entries; order = order })

  -- `delete`
  unfoldable pub delete_item : K → AppliedEvent → View K I V → View K I V × Outcome
  unfolding lookup is_newer_than remove remove_from_indexes compact
  delete_item key event v = elim (lookup key v.entries) [
    | none ↦ (v, missing)
    | some entry ↦ if not (is_newer_than event entry) then (v, already_applied) else (
      compact (record v {
        entries = remove key v.entries;
        indexes = remove_from_indexes key entry.item v.indexes;
      }),
      applied,
    )
  ]

  -- The loops of `changeAll`, which stops at the first error, and of `deleteAll`.
  unfoldable pub change_all :
      Config K I → List K → AppliedEvent → (I → I) → ℕ → View K I V → View K I V × Result ℕ
  unfolding change_item
  change_all c [] event change changed v = (v, ok changed)
  change_all c (key ∷ keys) event change changed v =
      let (v', outcome) = change_item c key event change v in
      let rest = change_all c keys event change (count_applied outcome changed) v' in
      elim outcome [ ok o ↦ rest | fail err ↦ (v', fail err) ]

  unfoldable pub delete_all : List K → AppliedEvent → ℕ → View K I V → View K I V × ℕ
  unfolding delete_item
  delete_all [] event removed v = (v, removed)
  delete_all (key ∷ keys) event removed v =
      let (v', outcome) = delete_item key event v in
      delete_all keys event (count_applied (ok outcome) removed) v'

  -- `Insert`
  unfoldable pub insert : Config K I → ℕ → Text → I → View K I V → View K I V × Result Outcome
  unfolding applied_event_of lookup is_newer_than add
  insert c part event_id item v = elim (applied_event_of part event_id) [
    | fail err ↦ (v, fail err)
    | ok event ↦ elim (lookup (c.key_of item) v.entries) [
      | some entry ↦
          if not (is_newer_than event entry)
          then (v, ok already_applied)
          else (v, fail (wrapping permanent))
      | none ↦ (add c (c.key_of item) item event v, ok added)
    ]
  ]

  -- `Upsert`
  unfoldable pub upsert :
      Config K I → ℕ → K → Text → (I → I) → View K I V → View K I V × Result Outcome
  unfolding applied_event_of lookup change_item add
  upsert c part key event_id change v = elim (applied_event_of part event_id) [
    | fail err ↦ (v, fail err)
    | ok event ↦ elim (lookup key v.entries) [
      | some entry ↦ change_item c key event change v
      | none ↦
          let item = change c.zero_item in
          if not (e.beq (c.key_of item) key)
          then (v, fail (wrapping permanent))
          else (add c key item event v, ok added)
    ]
  ]

  -- `Update`
  unfoldable pub update :
      Config K I → ℕ → K → Text → (I → I) → View K I V → View K I V × Result Outcome
  unfolding applied_event_of change_item
  update c part key event_id change v = elim (applied_event_of part event_id) [
    | fail err ↦ (v, fail err)
    | ok event ↦ change_item c key event change v
  ]

  abbrev pub succeed {κ} : {A : Type κ} → View K I V × A → View K I V × Result A
  succeed (v, a) = (v, ok a)

  -- `Delete`
  unfoldable pub delete : ℕ → K → Text → View K I V → View K I V × Result Outcome
  unfolding applied_event_of delete_item
  delete part key event_id v = elim (applied_event_of part event_id) [
    | fail err ↦ (v, fail err)
    | ok event ↦ succeed (delete_item key event v)
  ]

  -- `UpdateWhere`
  unfoldable pub update_where :
      Config K I → ℕ → (I → Bool) → Text → (I → I) → View K I V → View K I V × Result ℕ
  unfolding applied_event_of change_all keys_where
  update_where c part match event_id change v = elim (applied_event_of part event_id) [
    | fail err ↦ (v, fail err)
    | ok event ↦ change_all c (keys_where match v) event change 0 v
  ]

  -- `DeleteWhere`
  unfoldable pub delete_where : ℕ → (I → Bool) → Text → View K I V → View K I V × Result ℕ
  unfolding applied_event_of delete_all keys_where
  delete_where part match event_id v = elim (applied_event_of part event_id) [
    | fail err ↦ (v, fail err)
    | ok event ↦ succeed (delete_all (keys_where match v) event 0 v)
  ]

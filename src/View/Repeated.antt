-- ===== src/View/Repeated.antt =====
-- Events that a view in memory is told about again: architecturekit/in_memory_view.go.
use architecturekit_golang.Base.{
  ℕ, ◌≡◌, ◌≢◌, inl, inr, Bool, true, false, not, none, some, arith, Option-cases, Eq, nat_eq,
  beq_refl, length, Text, text_has_eq, lookup, lookup-assign,
}
use architecturekit_golang.Failure.{Failure, Result-cases, ok, fail}
use architecturekit_golang.View.{View, upsert, change_item, add, replace_entry}
use architecturekit_golang.View.Items.{
  Entry, Config, AppliedEvent, Outcome, missing, already_applied, applied_event_of, is_newer_than,
  stamped, changed_entry,
}

module _ {ℓ} {K I V : Type ℓ} ⦃e : Eq K⦄ ⦃ev : Eq V⦄ where
  -- The view knows that the event has changed the item.
  abbrev knows : K → AppliedEvent → View K I V → Bool
  knows key event v = elim (lookup key v.entries) [
    | none ↦ false
    | some entry ↦ not (is_newer_than event entry)
  ]

  changed_knows :
      (c : Config K I) (key : K) (event : AppliedEvent) (change : I → I) (v : View K I V)
      (entry : Entry I)
      → knows key event (replace_entry key entry (changed_entry c event change entry) v) ≡ true
  unfolding replace_entry changed_entry is_newer_than
  changed_knows c key event change v entry =
      ground
        (arith, lookup-assign key key (changed_entry c event change entry) v.entries, beq_refl key)

  added_knows :
      (c : Config K I) (key : K) (item : I) (event : AppliedEvent) (v : View K I V)
      → knows key event (add c key item event v) ≡ true
  unfolding add is_newer_than
  added_knows c key item event v = ground (
    arith,
    lookup-assign {V = Entry I} key key
        (record {
          item = stamped c event item;
          revision = event.number;
          part = event.part;
          position = length v.order;
        })
        v.entries,
    beq_refl key,
  )

  change_item_again :
      (c : Config K I) (key : K) (event : AppliedEvent) (change : I → I) (v : View K I V)
      → knows key event v ≡ true
      → change_item c key event change v ≡ (v, ok already_applied)
  unfolding change_item
  change_item_again c key event change v h = ground arith

  change_item-knows :
      (c : Config K I) (key : K) (event : AppliedEvent) (change : I → I) (v : View K I V)
      (o : Outcome)
      → (change_item c key event change v).1 ≡ ok o
      → o ≢ missing
      → knows key event (change_item c key event change v).0 ≡ true
  unfolding change_item
  change_item-knows c key event change v o done there = elim (Option-cases (lookup key v.entries)) [
    | inl gone ↦ ground arith
    | inr (entry, found) ↦ ground (arith, changed_knows c key event change v entry)
  ]

  upsert_again :
      (c : Config K I) (part : ℕ) (key : K) (event_id : Text) (event : AppliedEvent)
      (change : I → I) (v : View K I V)
      → applied_event_of part event_id ≡ ok event
      → knows key event v ≡ true
      → upsert c part key event_id change v ≡ (v, ok already_applied)
  unfolding upsert
  upsert_again c part key event_id event change v valid h =
      ground (arith, change_item_again c key event change v h)

  upsert-knows :
      (c : Config K I) (part : ℕ) (key : K) (event_id : Text) (event : AppliedEvent)
      (change : I → I) (v : View K I V) (o : Outcome)
      → applied_event_of part event_id ≡ ok event
      → (upsert c part key event_id change v).1 ≡ ok o
      → knows key event (upsert c part key event_id change v).0 ≡ true
  unfolding upsert change_item
  upsert-knows c part key event_id event change v o valid done =
      elim (Option-cases (lookup key v.entries)) [
        | inl gone ↦ ground (arith, added_knows c key (change c.zero_item) event v)
        | inr (entry, found) ↦ ground (arith, changed_knows c key event change v entry)
      ]

  upsert_fails :
      (c : Config K I) (part : ℕ) (key : K) (event_id : Text) (change : I → I) (v : View K I V)
      (o : Outcome) (err : Failure)
      → applied_event_of part event_id ≡ fail err
      → ¬ ((upsert c part key event_id change v).1 ≡ ok o)
  unfolding upsert
  upsert_fails c part key event_id change v o err p done = ground arith

  -- An event that Upsert has handled without an error is told about again, as after a restart of a
  -- projection: nothing changes, whatever the change is, and the outcome says that it was already
  -- applied.
  pub upsert-upsert :
      (c : Config K I) (part : ℕ) (key : K) (event_id : Text) (change change_again : I → I)
      (v : View K I V) (o : Outcome)
      → (upsert c part key event_id change v).1 ≡ ok o
      → upsert c part key event_id change_again (upsert c part key event_id change v).0
        ≡ ((upsert c part key event_id change v).0, ok already_applied)
  upsert-upsert c part key event_id change change_again v o done =
      elim (Result-cases (applied_event_of part event_id)) [
        | inr (err, p) ↦ absurd (upsert_fails c part key event_id change v o err p done)
        | inl (event, p) ↦
            upsert_again c part key event_id event change_again _ p
              (upsert-knows c part key event_id event change v o p done)
      ]

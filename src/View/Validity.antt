-- ===== src/View/Validity.antt =====
-- The operations of architecturekit/in_memory_view.go on one item, beside their model.
use architecturekit_golang.Base.{
  ℕ, ◌≡◌, refl, inl, inr, none, some, arith, Bool-cases, Option-cases, Eq, nat_eq, Text,
  text_has_eq, Dict, lookup, remove,
}
use architecturekit_golang.Failure.{permanent, Result, ok, fail, wrapping}
use architecturekit_golang.View.{
  View, add, replace_entry, compact, delete_item, change_item, insert, upsert,
}
use architecturekit_golang.View.Items.{
  Entry, Config, AppliedEvent, Outcome, applied, missing, already_applied, added, applied_event_of,
  is_newer_than, stamped, cloned, changed_entry,
}
use architecturekit_golang.View.Live.{replace}
use architecturekit_golang.View.Compaction.{Stamped}
use architecturekit_golang.View.Model.{
  stamp_with, model_add, model_change, model_delete, model_insert, model_upsert,
}
use architecturekit_golang.View.Contents.{
  contents, IsValid, lookup-contents, contents-add, add-IsValid, contents-replace_entry,
  replace_entry-IsValid, without, without-contents, without-IsValid,
}

module _ {ℓ} {K I V : Type ℓ} ⦃e : Eq K⦄ ⦃ev : Eq V⦄ where
  -- A view and a result agree with the contents and the result of the model.
  pub record Refines {κ} {A : Type κ} (after : View K I V × A) (model : Dict K (Stamped I) × A)
      : Type (ℓ ⊔ κ) where
    pub valid : IsValid after.0
    pub same_contents : contents after.0 ≡ model.0
    pub same_result : after.1 ≡ model.1

  unchanged {κ} : {A : Type κ} (v : View K I V) (a : A) → IsValid v → Refines (v, a) (contents v, a)
  unchanged v a h = record { valid = h; same_contents = refl; same_result = refl }

  changed_Refines :
      (c : Config K I) (key : K) (event : AppliedEvent) (change : I → I) (v : View K I V)
      (entry : Entry I)
      → lookup key v.entries ≡ some entry
      → IsValid v
      → Refines {A = Result Outcome}
          (replace_entry key entry (changed_entry c event change entry) v, ok applied)
          (
            replace key
                (stamp_with event (stamped c event (change (cloned c entry.item))))
                (contents v),
            ok applied,
          )
  unfolding changed_entry
  changed_Refines c key event change v entry found h = record {
    valid = replace_entry-IsValid key entry (changed_entry c event change entry) v found refl h;
    same_contents =
        contents-replace_entry key entry (changed_entry c event change entry) v found refl;
    same_result = refl;
  }

  by_equations {κ} :
      {A : Type κ} (a : View K I V × A) (b : Dict K (Stamped I) × A) {x : View K I V × A}
      {y : Dict K (Stamped I) × A}
      → a ≡ x
      → b ≡ y
      → Refines x y
      → Refines a b
  by_equations a b p q r = rw (p, q) r

  -- A change of an item leaves the view in order, with the contents and the outcome of the model:
  -- the item is replaced in place, or nothing changes.
  pub change_item-Refines :
      (c : Config K I) (key : K) (event : AppliedEvent) (change : I → I) (v : View K I V)
      → IsValid v
      → Refines (change_item c key event change v) (model_change c key event change (contents v))
  unfolding change_item is_newer_than
  change_item-Refines c key event change v h =
      let known = lookup-contents v key h in
      let code = change_item c key event change v in
      let model = model_change c key event change (contents v) in
      elim (Option-cases (lookup key v.entries)) [
        | inl gone ↦
            by_equations code model (ground arith) (ground arith) (unchanged v (ok missing) h)
        | inr (entry, found) ↦ elim (Bool-cases (is_newer_than event entry)) [
          | inr old ↦
              by_equations code model (ground arith) (ground arith)
                (unchanged v (ok already_applied) h)
          | inl new ↦ elim (Bool-cases (e.beq (c.key_of (change (cloned c entry.item))) key)) [
            | inr other ↦
                by_equations code model (ground arith) (ground arith)
                  (unchanged v (fail (wrapping permanent)) h)
            | inl same ↦
                by_equations code model (ground arith) (ground arith)
                  (changed_Refines c key event change v entry found h)
          ]
        ]
      ]

  deleted_Refines :
      (key : K) (entry : Entry I) (v : View K I V)
      → IsValid v
      → Refines {A = Outcome}
          (compact (without key entry.item v), applied)
          (remove key (contents v), applied)
  deleted_Refines key entry v h = record {
    valid = without-IsValid key entry.item v h;
    same_contents = without-contents key entry.item v;
    same_result = refl;
  }

  -- A deletion leaves the view in order, with the contents and the outcome of the model, whether or
  -- not it compacts the order.
  pub delete_item-Refines :
      (key : K) (event : AppliedEvent) (v : View K I V)
      → IsValid v
      → Refines (delete_item key event v) (model_delete key event (contents v))
  unfolding delete_item is_newer_than
  delete_item-Refines key event v h =
      let known = lookup-contents v key h in
      let code = delete_item key event v in
      let model = model_delete key event (contents v) in
      elim (Option-cases (lookup key v.entries)) [
        | inl gone ↦ by_equations code model (ground arith) (ground arith) (unchanged v missing h)
        | inr (entry, found) ↦ elim (Bool-cases (is_newer_than event entry)) [
          | inr old ↦
              by_equations code model (ground arith) (ground arith) (unchanged v already_applied h)
          | inl new ↦
              by_equations code model (ground arith) (ground arith) (deleted_Refines key entry v h)
        ]
      ]

  added_Refines :
      (c : Config K I) (key : K) (item : I) (event : AppliedEvent) (v : View K I V)
      → lookup key v.entries ≡ none
      → IsValid v
      → Refines {A = Result Outcome}
          (add c key item event v, ok added)
          (model_add c key item event (contents v), ok added)
  added_Refines c key item event v absent h = record {
    valid = add-IsValid c key item event v absent h;
    same_contents = contents-add c key item event v absent;
    same_result = refl;
  }

  -- Insert of an event with a valid ID leaves the view in order, with the contents and the outcome
  -- of the model: a new item comes last, and nothing changes otherwise.
  pub insert-Refines :
      (c : Config K I) (part : ℕ) (event_id : Text) (event : AppliedEvent) (item : I)
      (v : View K I V)
      → applied_event_of part event_id ≡ ok event
      → IsValid v
      → Refines (insert c part event_id item v) (model_insert c event item (contents v))
  unfolding insert is_newer_than
  insert-Refines c part event_id event item v valid h =
      let key = c.key_of item in
      let known = lookup-contents v key h in
      let code = insert c part event_id item v in
      let model = model_insert c event item (contents v) in
      elim (Option-cases (lookup key v.entries)) [
        | inl gone ↦
            by_equations code model (ground arith) (ground arith)
              (added_Refines c key item event v gone h)
        | inr (entry, found) ↦ elim (Bool-cases (is_newer_than event entry)) [
          | inr old ↦
              by_equations code model (ground arith) (ground arith)
                (unchanged v (ok already_applied) h)
          | inl new ↦
              by_equations code model (ground arith) (ground arith)
                (unchanged v (fail (wrapping permanent)) h)
        ]
      ]

  -- Upsert of an event with a valid ID leaves the view in order, with the contents and the outcome
  -- of the model.
  pub upsert-Refines :
      (c : Config K I) (part : ℕ) (key : K) (event_id : Text) (event : AppliedEvent)
      (change : I → I) (v : View K I V)
      → applied_event_of part event_id ≡ ok event
      → IsValid v
      → Refines (upsert c part key event_id change v) (model_upsert c key event change (contents v))
  unfolding upsert
  upsert-Refines c part key event_id event change v valid h =
      let known = lookup-contents v key h in
      let code = upsert c part key event_id change v in
      let model = model_upsert c key event change (contents v) in
      elim (Option-cases (lookup key v.entries)) [
        | inr (entry, found) ↦
            by_equations code model (ground arith) (ground arith)
              (change_item-Refines c key event change v h)
        | inl gone ↦ elim (Bool-cases (e.beq (c.key_of (change c.zero_item)) key)) [
          | inr other ↦
              by_equations code model (ground arith) (ground arith)
                (unchanged v (fail (wrapping permanent)) h)
          | inl same ↦
              by_equations code model (ground arith) (ground arith)
                (added_Refines c key (change c.zero_item) event v gone h)
        ]
      ]

-- ===== src/View/Reachable.antt =====
-- The views that the operations of architecturekit/in_memory_view.go lead to, from a new one on.
use architecturekit_golang.Base.{
  ℕ, ◌≡◌, refl, sym, subst, inl, inr, Bool, List, [], ◌∷◌, arith, Bool-cases, Eq, nat_eq, Text,
  text_has_eq, lookup,
}
use architecturekit_golang.Failure.{Failure, Result-cases, fail}
use architecturekit_golang.View.{
  View, change_all, delete_all, insert, upsert, update, delete, update_where, delete_where,
  keys_where, new_view, seen, change_item,
}
use architecturekit_golang.View.Items.{Config, AppliedEvent, applied_event_of}
use architecturekit_golang.Revision.{is_newer}
use architecturekit_golang.View.Contents.{IsValid}
use architecturekit_golang.View.Validity.{
  change_item-Refines, delete_item-Refines, insert-Refines, upsert-Refines,
}

-- The steps that a view takes, whatever their results are.
pub data Reachable {ℓ} {K I V : Type ℓ} ⦃e : Eq K⦄ ⦃ev : Eq V⦄ (c : Config K I)
    : View K I V → Type ℓ where
  start : Reachable c new_view
  after_seen : (event_id : Text) (v : View K I V) → Reachable c v → Reachable c (seen event_id v)
  after_insert :
      (part : ℕ) (event_id : Text) (item : I) (v : View K I V)
      → Reachable c v
      → Reachable c (insert c part event_id item v).0
  after_upsert :
      (part : ℕ) (key : K) (event_id : Text) (change : I → I) (v : View K I V)
      → Reachable c v
      → Reachable c (upsert c part key event_id change v).0
  after_update :
      (part : ℕ) (key : K) (event_id : Text) (change : I → I) (v : View K I V)
      → Reachable c v
      → Reachable c (update c part key event_id change v).0
  after_delete :
      (part : ℕ) (key : K) (event_id : Text) (v : View K I V)
      → Reachable c v
      → Reachable c (delete part key event_id v).0
  after_update_where :
      (part : ℕ) (match : I → Bool) (event_id : Text) (change : I → I) (v : View K I V)
      → Reachable c v
      → Reachable c (update_where c part match event_id change v).0
  after_delete_where :
      (part : ℕ) (match : I → Bool) (event_id : Text) (v : View K I V)
      → Reachable c v
      → Reachable c (delete_where part match event_id v).0

module _ {ℓ} {K I V : Type ℓ} ⦃e : Eq K⦄ ⦃ev : Eq V⦄ where
  seen-IsValid : (event_id : Text) (v : View K I V) → IsValid v → IsValid (seen event_id v)
  unfolding seen
  seen-IsValid event_id v h = elim (Bool-cases (is_newer event_id v.revision)) [
    | inl newer ↦
        rw newer (record { distinct = h.distinct; placed = h.placed; bounded = h.bounded })
    | inr older ↦ rw older h
  ]

  change_all-IsValid :
      (c : Config K I) (keys : List K) (event : AppliedEvent) (change : I → I) (changed : ℕ)
      (v : View K I V)
      → IsValid v
      → IsValid (change_all c keys event change changed v).0
  unfolding change_all
  change_all-IsValid c [] event change changed v h = h
  change_all-IsValid c (key ∷ keys) event change changed v h =
      let step = change_item-Refines c key event change v h in
      elim (Result-cases (change_item c key event change v).1) [
        | inl (o, p) ↦ rw (change_all, p) (change_all-IsValid c keys event change _ _ step.valid)
        | inr (err, p) ↦ rw (change_all, p) step.valid
      ]

  delete_all-IsValid :
      (keys : List K) (event : AppliedEvent) (removed : ℕ) (v : View K I V)
      → IsValid v
      → IsValid (delete_all keys event removed v).0
  unfolding delete_all
  delete_all-IsValid [] event removed v h = h
  delete_all-IsValid (key ∷ keys) event removed v h =
      delete_all-IsValid keys event _ _ (delete_item-Refines key event v h).valid

  update-IsValid :
      (c : Config K I) (part : ℕ) (key : K) (event_id : Text) (change : I → I) (v : View K I V)
      → IsValid v
      → IsValid (update c part key event_id change v).0
  unfolding update
  update-IsValid c part key event_id change v h =
      elim (Result-cases (applied_event_of part event_id)) [
        | inl (event, p) ↦ rw (update, p) (change_item-Refines c key event change v h).valid
        | inr (err, p) ↦ rw (update, p) h
      ]

  delete-IsValid :
      (part : ℕ) (key : K) (event_id : Text) (v : View K I V)
      → IsValid v
      → IsValid (delete part key event_id v).0
  unfolding delete
  delete-IsValid part key event_id v h = elim (Result-cases (applied_event_of part event_id)) [
    | inl (event, p) ↦ rw (delete, p) (delete_item-Refines key event v h).valid
    | inr (err, p) ↦ rw (delete, p) h
  ]

  insert_refused :
      (c : Config K I) (part : ℕ) (event_id : Text) (item : I) (v : View K I V) (err : Failure)
      → applied_event_of part event_id ≡ fail err
      → insert c part event_id item v ≡ (v, fail err)
  unfolding insert
  insert_refused c part event_id item v err p = rw (insert, p) refl

  upsert_refused :
      (c : Config K I) (part : ℕ) (key : K) (event_id : Text) (change : I → I) (v : View K I V)
      (err : Failure)
      → applied_event_of part event_id ≡ fail err
      → upsert c part key event_id change v ≡ (v, fail err)
  unfolding upsert
  upsert_refused c part key event_id change v err p = rw (upsert, p) refl

  insert-IsValid :
      (c : Config K I) (part : ℕ) (event_id : Text) (item : I) (v : View K I V)
      → IsValid v
      → IsValid (insert c part event_id item v).0
  insert-IsValid c part event_id item v h = elim (Result-cases (applied_event_of part event_id)) [
    | inl (event, p) ↦ (insert-Refines c part event_id event item v p h).valid
    | inr (err, p) ↦ subst (λ x. IsValid x.0) (sym (insert_refused c part event_id item v err p)) h
  ]

  upsert-IsValid :
      (c : Config K I) (part : ℕ) (key : K) (event_id : Text) (change : I → I) (v : View K I V)
      → IsValid v
      → IsValid (upsert c part key event_id change v).0
  upsert-IsValid c part key event_id change v h =
      elim (Result-cases (applied_event_of part event_id)) [
        | inl (event, p) ↦ (upsert-Refines c part key event_id event change v p h).valid
        | inr (err, p) ↦
            subst (λ x. IsValid x.0) (sym (upsert_refused c part key event_id change v err p)) h
      ]

  update_where-IsValid :
      (c : Config K I) (part : ℕ) (match : I → Bool) (event_id : Text) (change : I → I)
      (v : View K I V)
      → IsValid v
      → IsValid (update_where c part match event_id change v).0
  unfolding update_where
  update_where-IsValid c part match event_id change v h =
      elim (Result-cases (applied_event_of part event_id)) [
        | inl (event, p) ↦
            rw (update_where, p) (change_all-IsValid c (keys_where match v) event change 0 v h)
        | inr (err, p) ↦ rw (update_where, p) h
      ]

  delete_where-IsValid :
      (part : ℕ) (match : I → Bool) (event_id : Text) (v : View K I V)
      → IsValid v
      → IsValid (delete_where part match event_id v).0
  unfolding delete_where
  delete_where-IsValid part match event_id v h =
      elim (Result-cases (applied_event_of part event_id)) [
        | inl (event, p) ↦
            rw (delete_where, p) (delete_all-IsValid (keys_where match v) event 0 v h)
        | inr (err, p) ↦ rw (delete_where, p) h
      ]

  new_view-IsValid : IsValid {K = K} {I = I} {V = V} new_view
  unfolding lookup
  new_view-IsValid = record {
    distinct = tt;
    placed = λ q x found. absurd (ground arith);
    bounded = omega arith;
  }

  -- Whatever operations a new view goes through, whether they succeed or fail, it stays in order.
  pub Reachable-IsValid : (c : Config K I) (v : View K I V) → Reachable c v → IsValid v
  Reachable-IsValid c v start = new_view-IsValid
  Reachable-IsValid c w (after_seen event_id v h) =
      seen-IsValid event_id v (Reachable-IsValid c v h)
  Reachable-IsValid c w (after_insert part event_id item v h) =
      insert-IsValid c part event_id item v (Reachable-IsValid c v h)
  Reachable-IsValid c w (after_upsert part key event_id change v h) =
      upsert-IsValid c part key event_id change v (Reachable-IsValid c v h)
  Reachable-IsValid c w (after_update part key event_id change v h) =
      update-IsValid c part key event_id change v (Reachable-IsValid c v h)
  Reachable-IsValid c w (after_delete part key event_id v h) =
      delete-IsValid part key event_id v (Reachable-IsValid c v h)
  Reachable-IsValid c w (after_update_where part match event_id change v h) =
      update_where-IsValid c part match event_id change v (Reachable-IsValid c v h)
  Reachable-IsValid c w (after_delete_where part match event_id v h) =
      delete_where-IsValid part match event_id v (Reachable-IsValid c v h)

-- ===== src/Store/Log.antt =====
-- Reads of the events of a subject, and folding them: architecturekit/store.go.
use architecturekit_golang.Base.{
  ◌≡◌, refl, inl, inr, false, Option, none, some, List, [], ◌∷◌, ◌++◌, arith, Option-cases, nat_eq,
  Text, text_has_eq, is_empty,
}
use architecturekit_golang.Failure.{Failure, Result, Result-cases, ok, ◌>>=◌}
use architecturekit_golang.Stored.{StoredEvent, Element, arrives}
use architecturekit_golang.ReadOptions.{exclusive}
use architecturekit_golang.State.{State, evolve_by_stored}
use architecturekit_golang.Store.{Read, fold_from}

abbrev pub arrive : List StoredEvent → List Element
arrive [] = []
arrive (event ∷ events) = arrives event ∷ arrive events

abbrev pub last_id : Text → List StoredEvent → Text
last_id last [] = last
last_id last (event ∷ events) = last_id event.id events

module _ {ℓ} {S : Type ℓ} (check : StoredEvent → Option Failure) (s : State S) where
  -- The state and the last event ID that a read starts from, after some more events.
  abbrev pub folded : List StoredEvent → S × Text → Result (S × Text)
  folded events (current, last) = fold_from check s (arrive events) current last

  pub fold_from-append :
      (xs ys : List StoredEvent) (current : S) (last : Text)
      → fold_from check s (arrive (xs ++ ys)) current last
        ≡ (fold_from check s (arrive xs) current last >>= folded ys)
  unfolding fold_from
  fold_from-append [] ys current last = refl
  fold_from-append (x ∷ xs) ys current last = elim (Option-cases (check x)) [
    | inr (err, refused) ↦ rw (fold_from, refused) refl
    | inl passes ↦ elim (Result-cases (evolve_by_stored s current x)) [
      | inr (err, fails) ↦ rw (fold_from, passes, fails) refl
      | inl (next, evolves) ↦ rw (fold_from, passes, evolves) (fold_from-append xs ys next x.id)
    ]
  ]

  pub fold_from-last_id :
      (xs : List StoredEvent) (current next : S) (last id : Text)
      → fold_from check s (arrive xs) current last ≡ ok (next, id)
      → id ≡ last_id last xs
  unfolding fold_from
  fold_from-last_id [] current next last id h = ground arith
  fold_from-last_id (x ∷ xs) current next last id h = elim (Option-cases (check x)) [
    | inr (err, refused) ↦ absurd (ground arith)
    | inl passes ↦ elim (Result-cases (evolve_by_stored s current x)) [
      | inr (err, fails) ↦ absurd (ground arith)
      | inl (between, evolves) ↦ fold_from-last_id xs between next x.id id (ground arith)
    ]
  ]

-- What the documentation of the database says of a read of a subject that holds the events: without
-- a bound, it returns them all in order, and after the ID of one of them, those that follow it.
pub record ReadsAll (read : Read) (events : List StoredEvent) : Type 0 where
  pub without_bound : read none none ≡ arrive events
  pub after_bound :
      (before after : List StoredEvent) (id : Text)
      → events ≡ before ++ after
      → last_id [] before ≡ id
      → is_empty id ≡ false
      → read (some (record { id = id; bound_type = exclusive })) none ≡ arrive after

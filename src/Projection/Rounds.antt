-- ===== src/Projection/Rounds.antt =====
-- The round of one event in `drive`, with a `transactionalWriter`: architecturekit/projection.go.
use architecturekit_golang.Base.{
  ℕ, ◌+◌, ◌≡◌, refl, ap, ◌∙◌, inl, inr, Bool, true, false, Option, none, some, List, [], ◌∷◌, ◌++◌,
  arith, Option-cases, nat_eq, Text, text_has_eq,
}
use architecturekit_golang.Failure.{Failure, Result-cases, ok, fail}
use architecturekit_golang.Stored.{StoredEvent}
use architecturekit_golang.Projection.Drive.{
  Driven, rolled_back, ends_with, opened, batch_event, drive_event,
}
use architecturekit_golang.Projection.Transactions.{
  TransactionalTarget, TransactionalWriter, tx_begin, transactional_writer, IsAtomic, writes,
}
use architecturekit_golang.Projection.Folding.{folded, IsInStep, none_applied}
use architecturekit_golang.Projection.Batches.{
  durable-rolled_back, by_code, IsBatch, batch_event-IsInStep,
}

module _ {ℓ} {S T D : Type ℓ} (target : TransactionalTarget S T) (durable : S → D × Text)
    (content : T → D) (step : D → StoredEvent → D)
    (atomic : IsAtomic target durable content step) where
  opened_ok :
      (w : TransactionalWriter S T) (t : T)
      → (target.begin w.durable).1 ≡ ok t
      → opened (transactional_writer target) false w
        ≡ (writes (target.begin w.durable).0 (some t), none)
  unfolding opened transactional_writer tx_begin
  opened_ok w t begins = ground arith

  opened_fails :
      (w : TransactionalWriter S T) (err : Failure)
      → (target.begin w.durable).1 ≡ fail err
      → opened (transactional_writer target) false w
        ≡ (writes (target.begin w.durable).0 w.tx, some err)
  unfolding opened transactional_writer tx_begin
  opened_fails w err refused = ground arith

  -- What holds between two rounds of the loop.
  abbrev pub IsHeld : Bool → D × Text → List StoredEvent → Text → TransactionalWriter S T → Type ℓ
  IsHeld true from pending last w =
      IsBatch target durable content step atomic from pending w
      × (last ≡ (folded step from pending).1)
  IsHeld false from pending last w = (pending ≡ []) × (durable w.durable ≡ from)

  pub IsHeld-behind :
      (is_open : Bool) (from : D × Text) (pending : List StoredEvent) (last : Text)
      (w : TransactionalWriter S T)
      → IsHeld is_open from pending last w
      → durable w.durable ≡ from
  IsHeld-behind true from pending last w (b, p) = b.behind
  IsHeld-behind false from pending last w (p, same) = same

  opened_batch :
      (is_open : Bool) (from : D × Text) (pending : List StoredEvent) (last : Text)
      (w : TransactionalWriter S T)
      → IsHeld is_open from pending last w
      → let (w', err) = opened (transactional_writer target) is_open w in
        (durable w'.durable ≡ from)
        × (err ≡ none → IsBatch target durable content step atomic from pending w')
  unfolding opened
  opened_batch true from pending last w (b, p) = (b.behind, λ _. b)
  opened_batch false from pending last w (empty, same) =
      elim (Result-cases (target.begin w.durable).1) [
        | inr (err, refused) ↦
            rw (opened_fails w err refused)
              (atomic.begin_keeps w.durable ∙ same, λ none_failed. ground arith)
        | inl (t, begins) ↦ rw (opened_ok w t begins) (
          atomic.begin_keeps w.durable ∙ same,
          λ none_failed. record {
            tx = t;
            is_tx = refl;
            ahead = rw empty (atomic.begins_from w.durable t begins ∙ ap (λ x. x.0) same);
            behind = atomic.begin_keeps w.durable ∙ same;
          },
        )
      ]

  pub drive_event-IsInStep :
      (verify : StoredEvent → Option Failure) (batch_size : ℕ)
      (rest : Option Text
        → Text
        → ℕ
        → Bool
        → TransactionalWriter S T
        → Driven (TransactionalWriter S T))
      (from : D × Text) (pending events : List StoredEvent) (event : StoredEvent)
      (reported : Option Text) (last : Text) (in_batch : ℕ) (is_open : Bool)
      (w : TransactionalWriter S T)
      → IsHeld is_open from pending last w
      → ((w' : TransactionalWriter S T)
          → IsBatch target durable content step atomic from (pending ++ event ∷ []) w'
          → IsInStep durable step from
              ((pending ++ event ∷ []) ++ events)
              (rest reported event.id (in_batch + 1) true w'))
      → ((w' : TransactionalWriter S T)
          → IsInStep durable step
              (durable w'.durable)
              events
              (rest (some event.id) event.id 0 false w'))
      → IsInStep durable step from ((pending ++ event ∷ []) ++ events) (
          drive_event
            (transactional_writer target)
            verify
            batch_size
            rest
            event
            reported
            last
            in_batch
            is_open
            w)
  unfolding drive_event
  drive_event-IsInStep verify batch_size rest from pending events event reported last in_batch
        is_open w held goes_on closes =
      let writer = transactional_writer target in
      let all = (pending ++ event ∷ []) ++ events in
      let (behind, batch) = opened_batch is_open from pending last w held in
      elim (Option-cases (verify event)) [
        | inr (err, unverified_event) ↦
            by_code target durable content step atomic
              (ends_with reported last (rolled_back writer is_open w err)) (ground arith)
              (none_applied durable step from all _ _
                (durable-rolled_back target durable content step atomic is_open w err
                  ∙ IsHeld-behind is_open from pending last w held)
                refl)
        | inl verified ↦ elim (Option-cases (opened writer is_open w).1) [
          | inr (err, refused) ↦
              by_code target durable content step atomic
                (ends_with reported last ((opened writer is_open w).0, err)) (ground arith)
                (none_applied durable step from all _ err behind refl)
          | inl begins ↦
              by_code target durable content step atomic
                (batch_event writer batch_size rest event reported last in_batch
                  (opened writer is_open w).0)
                (ground arith)
                (batch_event-IsInStep target durable content step atomic batch_size rest from
                  pending events event reported last in_batch (opened writer is_open w).0
                  (batch begins) goes_on closes)
        ]
      ]

-- ===== src/Projection/InStep.antt =====
-- Data and checkpoint of a transactional projection: `drive` with a `transactionalWriter` of
-- architecturekit/projection.go.
use architecturekit_golang.Base.{
  ℕ, ◌+◌, refl, sym, ap, ◌∙◌, subst, inl, inr, Bool, true, false, Option, none, some, List, [], ◌∷◌,
  ◌++◌, arith, Option-cases, nat_eq, append_assoc, append_nil, Text, text_has_eq,
}
use architecturekit_golang.Failure.{Failure}
use architecturekit_golang.Stored.{StoredEvent, Element, arrives, breaks}
use architecturekit_golang.Projection.Drive.{ends_with, finish_drive, drive_from, drive, after_all}
use architecturekit_golang.Projection.Transactions.{
  TransactionalTarget, TransactionalWriter, tx_commit, transactional_writer, IsAtomic, writes,
}
use architecturekit_golang.Failure.Database.{read_failure}
use architecturekit_golang.Projection.Folding.{events_of, folded-append, IsInStep, none_applied}
use architecturekit_golang.Projection.Batches.{durable-rolled_back, by_code}
use architecturekit_golang.Projection.Rounds.{IsHeld, IsHeld-behind, drive_event-IsInStep}

module _ {ℓ} {S T D : Type ℓ} (target : TransactionalTarget S T) (durable : S → D × Text)
    (content : T → D) (step : D → StoredEvent → D)
    (atomic : IsAtomic target durable content step) where
  finish_drive-IsInStep :
      (ctx_err : Option Failure) (reported : Option Text) (last : Text) (is_open : Bool)
      (from : D × Text) (pending : List StoredEvent) (w : TransactionalWriter S T)
      → IsHeld target durable content step atomic is_open from pending last w
      → IsInStep durable step from pending
          (finish_drive (transactional_writer target) ctx_err reported last is_open w)
  unfolding finish_drive transactional_writer tx_commit
  finish_drive-IsInStep ctx_err reported last false from pending w (empty, same) = record {
    applied = [];
    left = [];
    in_order = sym empty;
    in_step = same;
    complete = λ _. refl;
  }
  finish_drive-IsInStep ctx_err reported last true from pending w (b, last_is) =
      let has_tx = b.is_tx in
      let result = target.commit w.durable b.tx last in
      elim (Option-cases result.1) [
        | inr (err, refused) ↦
            by_code target durable content step atomic
              (ends_with reported last (writes result.0 none, err)) (ground arith)
              (none_applied durable step from pending _ err
                (atomic.commit_refused w.durable b.tx last err refused ∙ b.behind) refl)
        | inl commits ↦
            by_code target durable content step atomic
              (record {
                target = writes result.0 none;
                reported = some last;
                last_event_id = last;
                failure = after_all ctx_err;
              })
              (ground arith)
              (record {
                applied = pending;
                left = [];
                in_order = append_nil pending;
                in_step = atomic.commits w.durable b.tx last commits ∙ ground (arith, b.ahead);
                complete = λ _. refl;
              })
      ]

  drive_from-IsInStep :
      (verify : StoredEvent → Option Failure) (batch_size : ℕ) (ctx_err : Option Failure)
      (elements : List Element) (reported : Option Text) (last : Text) (in_batch : ℕ)
      (is_open : Bool) (from : D × Text) (pending : List StoredEvent) (w : TransactionalWriter S T)
      → IsHeld target durable content step atomic is_open from pending last w
      → IsInStep durable step from (pending ++ events_of elements) (
          drive_from
            (transactional_writer target)
            verify
            batch_size
            ctx_err
            elements
            reported
            last
            in_batch
            is_open
            w)
  unfolding drive_from
  drive_from-IsInStep verify batch_size ctx_err [] reported last in_batch is_open from pending w
        held =
      rw (append_nil pending)
        (finish_drive-IsInStep ctx_err reported last is_open from pending w held)
  drive_from-IsInStep verify batch_size ctx_err (breaks err ctx_then ∷ elements) reported last
        in_batch is_open from pending w held =
      none_applied durable step from (pending ++ []) _ _
        (durable-rolled_back target durable content step atomic is_open w
            (read_failure ctx_then err)
          ∙ IsHeld-behind target durable content step atomic is_open from pending last w held)
        refl
  drive_from-IsInStep verify batch_size ctx_err (arrives event ∷ elements) reported last in_batch
        is_open from pending w held =
      let events = events_of elements in
      subst
        (λ x. IsInStep durable step from x (
          drive_from (transactional_writer target) verify batch_size ctx_err
            (arrives event ∷ elements) reported last in_batch is_open w))
        (append_assoc pending (event ∷ []) events)
        (drive_event-IsInStep target durable content step atomic verify batch_size
          (drive_from (transactional_writer target) verify batch_size ctx_err elements) from pending
          events event reported last in_batch is_open w held
          (λ w' b.
            drive_from-IsInStep verify batch_size ctx_err elements reported event.id (in_batch + 1)
              true from (pending ++ event ∷ []) w'
              (b, sym (ap (λ x. x.1) (folded-append step from pending (event ∷ [])))))
          (λ w'.
            drive_from-IsInStep verify batch_size ctx_err elements (some event.id) event.id 0 false
              (durable w'.durable) [] w' (refl, refl)))

  -- Driving a transactional projection over any stream, with any batch size, leaves data and
  -- checkpoint that are those after the first events of the stream, each applied once and in order,
  -- whatever fails or panics on the way, and those after all of them if there is no error. The
  -- application keeps what the documentation of Tx asks for.
  pub drive-IsInStep :
      (verify : StoredEvent → Option Failure) (batch_size : ℕ) (ctx_err : Option Failure)
      (elements : List Element) (w : TransactionalWriter S T)
      → IsInStep durable step
          (durable w.durable)
          (events_of elements)
          (drive (transactional_writer target) verify batch_size ctx_err elements w)
  unfolding drive
  drive-IsInStep verify batch_size ctx_err elements w =
      drive_from-IsInStep verify batch_size ctx_err elements none [] 0 false (durable w.durable) []
        w (refl, refl)

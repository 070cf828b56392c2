-- ===== src/Projection/Transactions.antt =====
-- The writer of a transactional projection: `transactionalWriter` of architecturekit/projection.go.
use architecturekit_golang.Base.{◌≡◌, Option, none, some, nat_eq, Text, text_has_eq}
use architecturekit_golang.Failure.{Failure, panic_error, Result, ok, fail}
use architecturekit_golang.Stored.{StoredEvent}
use architecturekit_golang.Projection.Drive.{
  ProjectionWriter, Ended, succeeded, failed, panicked, CheckpointRead, checkpoint_at,
}

-- The interfaces `Transactional` and `Tx` of the application, over what is durable and over a
-- transaction.
pub record TransactionalTarget {ℓ} (S T : Type ℓ) : Type ℓ where
  pub checkpoint : S → S × CheckpointRead
  pub begin : S → S × Result T
  pub apply : T → StoredEvent → T × Ended
  pub commit : S → T → Text → S × Option Failure
  pub rollback : S → T → S × Ended

-- `transactionalWriter`
pub record TransactionalWriter {ℓ} (S T : Type ℓ) : Type ℓ where
  pub durable : S
  pub tx : Option T

-- What `recoverInto` makes of an end.
abbrev pub recovered : Ended → Option Failure
recovered succeeded = none
recovered (failed err) = some err
recovered (panicked value) = some (panic_error value)

module _ {ℓ} {S T : Type ℓ} where
  abbrev pub writes : S → Option T → TransactionalWriter S T
  writes s tx = record { durable = s; tx = tx }

  abbrev pub begun : S × Result T → Option T → TransactionalWriter S T × Option Failure
  begun (s, ok t) tx = (writes s (some t), none)
  begun (s, fail err) tx = (writes s tx, some err)

  unfoldable pub tx_checkpoint :
      TransactionalTarget S T → TransactionalWriter S T → TransactionalWriter S T × CheckpointRead
  tx_checkpoint target w = let (s, found) = target.checkpoint w.durable in (writes s w.tx, found)

  unfoldable pub tx_begin :
      TransactionalTarget S T → TransactionalWriter S T → TransactionalWriter S T × Option Failure
  tx_begin target w = begun (target.begin w.durable) w.tx

  -- Without a transaction, the call is one on a nil interface, which panics.
  unfoldable pub tx_apply :
      TransactionalTarget S T
      → TransactionalWriter S T
      → StoredEvent
      → TransactionalWriter S T × Ended
  tx_apply target w event = elim w.tx [
    | none ↦ (w, panicked 0)
    | some t ↦ let (t', ended) = target.apply t event in (writes w.durable (some t'), ended)
  ]

  -- A panic outside of Apply ends the run with the same error.
  unfoldable pub tx_commit :
      TransactionalTarget S T
      → TransactionalWriter S T
      → Text
      → TransactionalWriter S T × Option Failure
  tx_commit target w last_event_id = elim w.tx [
    | none ↦ (w, some (panic_error 0))
    | some t ↦ let (s', err) = target.commit w.durable t last_event_id in (writes s' none, err)
  ]

  abbrev pub after_rollback : T → S × Ended → TransactionalWriter S T × Option Failure
  after_rollback t (s, panicked value) = (writes s (some t), some (panic_error value))
  after_rollback t (s, ended) = (writes s none, recovered ended)

  unfoldable pub tx_rollback :
      TransactionalTarget S T → TransactionalWriter S T → TransactionalWriter S T × Option Failure
  tx_rollback target w = elim w.tx [
    | none ↦ (w, none)
    | some t ↦ after_rollback t (target.rollback w.durable t)
  ]

  unfoldable pub transactional_writer :
      TransactionalTarget S T → ProjectionWriter (TransactionalWriter S T)
  unfolding tx_checkpoint tx_begin tx_apply tx_commit tx_rollback
  transactional_writer target = record {
    checkpoint = tx_checkpoint target;
    begin = tx_begin target;
    apply = tx_apply target;
    commit = tx_commit target;
    rollback = tx_rollback target;
  }

-- What the documentation of `Tx` asks of an application, for what can be observed of the durable
-- state, which is its data and its checkpoint, and of a transaction, which is its data: a
-- transaction starts from the durable data and applies events to its own; a commit makes both
-- durable together, or neither, and nothing else makes anything durable.
pub record IsAtomic {ℓ} {S T D : Type ℓ} (target : TransactionalTarget S T) (durable : S → D × Text)
    (content : T → D) (step : D → StoredEvent → D) : Type ℓ where
  pub checkpoint_keeps : (s : S) → durable (target.checkpoint s).0 ≡ durable s
  pub checkpoint_finds :
      (s : S) (id : Text) → (target.checkpoint s).1 ≡ checkpoint_at id → id ≡ (durable s).1
  pub begin_keeps : (s : S) → durable (target.begin s).0 ≡ durable s
  pub begins_from : (s : S) (t : T) → (target.begin s).1 ≡ ok t → content t ≡ (durable s).0
  pub applies :
      (t : T) (event : StoredEvent)
      → (target.apply t event).1 ≡ succeeded
      → content (target.apply t event).0 ≡ step (content t) event
  pub commits :
      (s : S) (t : T) (id : Text)
      → (target.commit s t id).1 ≡ none
      → durable (target.commit s t id).0 ≡ (content t, id)
  pub commit_refused :
      (s : S) (t : T) (id : Text) (err : Failure)
      → (target.commit s t id).1 ≡ some err
      → durable (target.commit s t id).0 ≡ durable s
  pub rollback_keeps : (s : S) (t : T) → durable (target.rollback s t).0 ≡ durable s

-- ===== src/Projection/Drive.antt =====
-- How a projection is driven: `drive` and `applyTo` of architecturekit/projection.go, over any
-- projection writer.
use architecturekit_golang.Base.{
  ℕ, ◌+◌, Bool, true, false, Option, none, some, List, [], ◌∷◌, ltb, if◌then◌else◌, nat_eq, Text,
  text_has_eq,
}
use architecturekit_golang.Failure.{Failure, apply_failure, panic_error, join}
use architecturekit_golang.Stored.{StoredEvent, Element, arrives, breaks}
use architecturekit_golang.Failure.Database.{read_failure, context_ended}

-- How code of the application ends.
pub data Ended : Type 0 where
  succeeded : Ended
  failed : Failure → Ended
  panicked : ℕ → Ended

-- What reading a checkpoint hands out; the text that comes with an error counts for nothing but a
-- comparison.
pub data CheckpointRead : Type 0 where
  checkpoint_at : Text → CheckpointRead
  checkpoint_fails : Text → Failure → CheckpointRead
  checkpoint_panics : ℕ → CheckpointRead

-- `projectionWriter`, over a state of the writer and its target.
pub record ProjectionWriter {ℓ} (W : Type ℓ) : Type ℓ where
  pub checkpoint : W → W × CheckpointRead
  pub begin : W → W × Option Failure
  pub apply : W → StoredEvent → W × Ended
  pub commit : W → Text → W × Option Failure
  pub rollback : W → W × Option Failure

-- What `drive` leaves behind: the target, the last event ID it reported to the run, the last one it
-- applied, and its error.
pub record Driven {ℓ} (W : Type ℓ) : Type ℓ where
  pub target : W
  pub reported : Option Text
  pub last_event_id : Text
  pub failure : Option Failure

-- `applyTo`: the failure of Apply, or its panic, names the event.
abbrev pub named_failure : Text → Ended → Option Failure
named_failure event_id succeeded = none
named_failure event_id (failed err) = some (apply_failure event_id err)
named_failure event_id (panicked value) = some (apply_failure event_id (panic_error value))

abbrev pub after_all : Option Failure → Option Failure
after_all none = none
after_all (some ctx_err) = some (context_ended ctx_err)

module _ {ℓ} {W : Type ℓ} where
  unfoldable pub apply_to : ProjectionWriter W → W → StoredEvent → W × Option Failure
  apply_to writer w event =
      let (w', ended) = writer.apply w event in (w', named_failure event.id ended)

  -- An error, with that of the rollback of an open batch.
  unfoldable pub rolled_back : ProjectionWriter W → Bool → W → Failure → W × Failure
  rolled_back writer is_open w failure =
      if is_open
      then (let (w', err) = writer.rollback w in (w', join failure err))
      else (w, failure)

  abbrev pub ends_with : Option Text → Text → W × Failure → Driven W
  ends_with reported last (w, failure) = record {
    target = w;
    reported = reported;
    last_event_id = last;
    failure = some failure;
  }

  -- `writer.begin`, if no batch is open.
  unfoldable pub opened : ProjectionWriter W → Bool → W → W × Option Failure
  opened writer is_open w = if is_open then (w, none) else writer.begin w

  -- What follows the loop.
  unfoldable pub finish_drive :
      ProjectionWriter W → Option Failure → Option Text → Text → Bool → W → Driven W
  unfolding context_ended
  finish_drive writer ctx_err reported last is_open w =
      let (w', err) = if is_open then writer.commit w last else (w, none) in
      elim err [
        | some failure ↦ ends_with reported last (w', failure)
        | none ↦ record {
          target = w';
          reported = if is_open then some last else reported;
          last_event_id = last;
          failure = after_all ctx_err;
        }
      ]

  -- One round of the loop of `drive` from `applyTo` on, with what the loop goes on with.
  unfoldable pub batch_event :
      ProjectionWriter W
      → ℕ
      → (Option Text → Text → ℕ → Bool → W → Driven W)
      → StoredEvent
      → Option Text
      → Text
      → ℕ
      → W
      → Driven W
  unfolding apply_to rolled_back
  batch_event writer batch_size rest event reported last in_batch w =
      let (w', not_applied) = apply_to writer w event in
      let (w'', not_committed) = writer.commit w' event.id in
      elim not_applied [
        | some err ↦ ends_with reported last (rolled_back writer true w' err)
        | none ↦
            if ltb (in_batch + 1) batch_size
            then rest reported event.id (in_batch + 1) true w'
            else elim not_committed [
              | some err ↦ ends_with reported event.id (w'', err)
              | none ↦ rest (some event.id) event.id 0 false w''
            ]
      ]

  -- The round of an event.
  unfoldable pub drive_event :
      ProjectionWriter W
      → (StoredEvent → Option Failure)
      → ℕ
      → (Option Text → Text → ℕ → Bool → W → Driven W)
      → StoredEvent
      → Option Text
      → Text
      → ℕ
      → Bool
      → W
      → Driven W
  unfolding rolled_back opened batch_event
  drive_event writer verify batch_size rest event reported last in_batch is_open w =
      elim (verify event) [
        | some err ↦ ends_with reported last (rolled_back writer is_open w err)
        | none ↦
            let (w', not_begun) = opened writer is_open w in
            elim not_begun [
              | some err ↦ ends_with reported last (w', err)
              | none ↦ batch_event writer batch_size rest event reported last in_batch w'
            ]
      ]

  -- The loop of `drive`, with the error of the context after it.
  unfoldable pub drive_from :
      ProjectionWriter W
      → (StoredEvent → Option Failure)
      → ℕ
      → Option Failure
      → List Element
      → Option Text
      → Text
      → ℕ
      → Bool
      → W
      → Driven W
  unfolding read_failure rolled_back drive_event finish_drive
  drive_from writer verify batch_size ctx_err [] reported last in_batch is_open w =
      finish_drive writer ctx_err reported last is_open w
  drive_from writer verify batch_size ctx_err (breaks err ctx_then ∷ events) reported last in_batch
        is_open w =
      ends_with reported last (rolled_back writer is_open w (read_failure ctx_then err))
  drive_from writer verify batch_size ctx_err (arrives event ∷ events) reported last in_batch
        is_open w =
      drive_event writer verify batch_size (drive_from writer verify batch_size ctx_err events)
        event reported last in_batch is_open w

  -- `drive`
  unfoldable pub drive :
      ProjectionWriter W
      → (StoredEvent → Option Failure)
      → ℕ
      → Option Failure
      → List Element
      → W
      → Driven W
  unfolding drive_from
  drive writer verify batch_size ctx_err events w =
      drive_from writer verify batch_size ctx_err events none [] 0 false w

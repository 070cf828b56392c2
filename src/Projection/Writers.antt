-- ===== src/Projection/Writers.antt =====
-- The writers of projections without transactions: `writerFor`, `rebuildWriter`, and
-- `resumableWriter` of architecturekit/projection.go.
use architecturekit_golang.Base.{
  ℕ, max, not, Option, none, some, if◌then◌else◌, nat_eq, Text, text_has_eq, is_empty,
}
use architecturekit_golang.Failure.{Failure}
use architecturekit_golang.Stored.{StoredEvent}
use architecturekit_golang.Projection.Drive.{
  ProjectionWriter, Ended, succeeded, CheckpointRead, checkpoint_at,
}

-- The interface `Resumable` of the application, over its state.
pub record ResumableCheckpoints {ℓ} (S : Type ℓ) : Type ℓ where
  pub checkpoint : S → S × CheckpointRead
  pub save : S → Text → S × Option Failure

-- The interfaces `Projection`, `Batched`, and `Resumable`, the last two as far as the projection
-- has them. A negative batch size counts as zero.
pub record Application {ℓ} (S : Type ℓ) : Type ℓ where
  pub apply : S → StoredEvent → S × Ended
  pub batched : Option ℕ
  pub resumable : Option (ResumableCheckpoints S)

pub data Mode : Type 0 where
  mode_rebuild mode_resumable : Mode

-- `rebuildWriter` and `resumableWriter`
pub record MemoryWriter {ℓ} (S : Type ℓ) : Type ℓ where
  pub projection : S
  pub last_applied : Text

-- `batchSizeOf`
unfoldable pub batch_size_of : Option ℕ → ℕ
batch_size_of none = 1
batch_size_of (some size) = max size 1

module _ {ℓ} {S : Type ℓ} where
  -- `ModeOf`
  unfoldable pub mode_of : Application S → Mode
  mode_of app = elim app.resumable [ none ↦ mode_rebuild | some r ↦ mode_resumable ]

  abbrev pub applied_to : MemoryWriter S → StoredEvent → S × Ended → MemoryWriter S × Ended
  applied_to w event (s, succeeded) =
      (record { projection = s; last_applied = event.id }, succeeded)
  applied_to w event (s, ended) = (record w { projection = s }, ended)

  -- `apply` of both writers.
  unfoldable pub memory_apply :
      Application S → MemoryWriter S → StoredEvent → MemoryWriter S × Ended
  memory_apply app w event = applied_to w event (app.apply w.projection event)

  unfoldable pub rebuild_writer : Application S → ProjectionWriter (MemoryWriter S)
  rebuild_writer app = record {
    checkpoint = λ w. (w, checkpoint_at w.last_applied);
    begin = λ w. (w, none);
    apply = memory_apply app;
    commit = λ w last_event_id. (w, none);
    rollback = λ w. (w, none);
  }

  unfoldable pub resumable_checkpoint :
      ResumableCheckpoints S → MemoryWriter S → MemoryWriter S × CheckpointRead
  resumable_checkpoint r w =
      let (s, found) = r.checkpoint w.projection in
      if not (is_empty w.last_applied)
      then (w, checkpoint_at w.last_applied)
      else (record w { projection = s }, found)

  unfoldable pub resumable_commit :
      ResumableCheckpoints S → MemoryWriter S → Text → MemoryWriter S × Option Failure
  resumable_commit r w last_event_id =
      let (s, err) = r.save w.projection last_event_id in (record w { projection = s }, err)

  unfoldable pub resumable_writer :
      Application S → ResumableCheckpoints S → ProjectionWriter (MemoryWriter S)
  resumable_writer app r = record {
    checkpoint = resumable_checkpoint r;
    begin = λ w. (w, none);
    apply = memory_apply app;
    commit = resumable_commit r;
    rollback = λ w. (w, none);
  }

  -- `writerFor`
  unfoldable pub writer_for : Application S → ProjectionWriter (MemoryWriter S)
  writer_for app = elim app.resumable [
    | none ↦ rebuild_writer app
    | some r ↦ resumable_writer app r
  ]

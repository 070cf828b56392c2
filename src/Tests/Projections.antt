-- ===== src/Tests/Projections.antt =====
-- A transactional projection that counts events, and the status of runs.
use architecturekit_golang.Base.{
  ℕ, ◌+◌, ◌≡◌, refl, false, none, some, List, [], ◌∷◌, arith, ◌==◌, if◌then◌else◌, nat_eq, Text,
  codes, text_has_eq,
}
use architecturekit_golang.Failure.{transient, permanent, canceled, sentinel, ok, wrapping}
use architecturekit_golang.Stored.{StoredEvent, Element, arrives}
use architecturekit_golang.Projection.Drive.{succeeded, failed, drive, checkpoint_at}
use architecturekit_golang.Projection.Transactions.{
  TransactionalTarget, TransactionalWriter, transactional_writer, IsAtomic,
}
use architecturekit_golang.Projection.Folding.{IsInStep, events_of}
use architecturekit_golang.Projection.InStep.{drive-IsInStep}
use architecturekit_golang.Projection.Status.{
  ProjectionStatus, ProjectionRun, start, record_caught_up, close_caught_up, disrupted, record_stop,
  stopped,
}
use architecturekit_golang.Projection.Consistency.{
  IsConsistent, run-IsConsistent, Stands, starts, catches_up, tells_caught_up, breaks_off, stops,
  closing_done,
}
use architecturekit_golang.Projection.Verdict.{
  caught_up_verdict, answer_by_precedence, caught_up_verdict-by_precedence,
}

abbrev event_of : Text → StoredEvent
event_of id = record { id = id; source = []; subject = codes "/a"; type = codes "t"; payload = [] }

abbrev count_event : ℕ → StoredEvent → ℕ
count_event n event = n + 1

-- Apply refuses the third event, and Commit makes the number and the checkpoint durable.
abbrev counter : TransactionalTarget (ℕ × Text) ℕ
counter = record {
  checkpoint = λ s. (s, checkpoint_at s.1);
  begin = λ s. (s, ok s.0);
  apply = λ t event. if t == 2 then (t, failed (wrapping permanent)) else (t + 1, succeeded);
  commit = λ s t id. ((t, id), none);
  rollback = λ s t. (s, succeeded);
}

counter_applies :
    (t : ℕ) (event : StoredEvent)
    → (counter.apply t event).1 ≡ succeeded
    → (counter.apply t event).0 ≡ count_event t event
counter_applies t event h = ground arith

counter-IsAtomic : IsAtomic counter (λ s. s) (λ t. t) count_event
counter-IsAtomic = record {
  checkpoint_keeps = λ s. refl;
  checkpoint_finds = λ s id h. ground arith;
  begin_keeps = λ s. refl;
  begins_from = λ s t h. ground arith;
  applies = counter_applies;
  commits = λ s t id h. refl;
  commit_refused = λ s t id err h. ground arith;
  rollback_keeps = λ s t. refl;
}

abbrev stream : List Element
stream =
    arrives (event_of (codes "0"))
    ∷ arrives (event_of (codes "1"))
    ∷ arrives (event_of (codes "2"))
    ∷ []

abbrev fresh_writer : TransactionalWriter (ℕ × Text) ℕ
fresh_writer = record { durable = (0, []); tx = none }

-- The first two events are durable, and the third one is not.
counted :
    (drive (transactional_writer counter) (λ event. none) 1 none stream fresh_writer).target.durable
    ≡ (2, codes "1")
unfolding drive transactional_writer
counted = refl

drive-IsInStep_example :
    IsInStep
      (λ s. s)
      count_event
      (0, [])
      (events_of stream)
      (drive (transactional_writer counter) (λ event. none) 2 none stream fresh_writer)
drive-IsInStep_example =
    drive-IsInStep counter (λ s. s) (λ t. t) count_event counter-IsAtomic (λ event. none) 2 none
      stream fresh_writer

-- A run that catches up, is disrupted, and stops with an error before the channel is closed.
abbrev started_run : ProjectionRun
started_run = start (codes "catalog") (codes "/books") 0

abbrev live_run : ProjectionRun
live_run = close_caught_up (record_caught_up 5 started_run)

abbrev disrupted_run : ProjectionRun
disrupted_run = disrupted 8 none (disrupted 7 (some (wrapping transient)) live_run)

abbrev stopped_run : ProjectionRun
stopped_run = record_stop 9 (some (wrapping permanent)) disrupted_run

stopped_run-Stands : Stands (codes "catalog") (codes "/books") 0 closing_done stopped_run
stopped_run-Stands = stops 9 (some (wrapping permanent)) disrupted_run (
    breaks_off 8 none _ (
      breaks_off 7 (some (wrapping transient)) live_run
        (tells_caught_up _ (catches_up 5 started_run starts))))

run-IsConsistent_example : IsConsistent closing_done stopped_run
run-IsConsistent_example =
    run-IsConsistent (codes "catalog") (codes "/books") 0 closing_done stopped_run
      stopped_run-Stands

-- The error is there while the channel is still open.
errs_before_done : (stopped_run.done ≡ false) × (stopped_run.err ≡ some (wrapping permanent))
unfolding record_stop disrupted close_caught_up record_caught_up
errs_before_done = (refl, refl)

abbrev ended : ProjectionStatus
ended = record {
  phase = stopped;
  since = 3;
  err = some (wrapping permanent);
  attempts = 0;
  revision = [];
  has_caught_up = false;
}

caught_up_verdict-by_precedence_example :
    caught_up_verdict (some (sentinel canceled)) (ended ∷ [])
    ≡ answer_by_precedence (some (sentinel canceled)) (ended ∷ [])
caught_up_verdict-by_precedence_example =
    caught_up_verdict-by_precedence (some (sentinel canceled)) (ended ∷ [])

-- ===== src/Projection/Consistency.antt =====
-- The status of a projection run from its start to its end: architecturekit/projection_run.go, and
-- its health: architecturekit/httpapi/health.go.
use architecturekit_golang.Base.{
  ℕ, ◌<◌, ◌≡◌, refl, ◌⊎◌, inl, inr, Bool, true, false, not, ◌&&◌, Option, none, arith, Bool-cases,
  nat_eq, Text, text_has_eq,
}
use architecturekit_golang.Failure.{Failure}
use architecturekit_golang.Projection.Status.{
  catching_up, live, ProjectionRun, start, record_caught_up, close_caught_up, is_reconnecting,
  is_stopped, disrupted, committed, record_stop, close_done, is_ready, is_alive,
}

-- Where the goroutine of a run is, as far as others can tell: it goes on, or has released the lock
-- but not closed the channel yet, or has ended.
pub data Point : Type 0 where
  going closing_caught_up closing_done ended : Point

abbrev pub is_closing_caught_up : Point → Bool
is_closing_caught_up closing_caught_up = true
is_closing_caught_up _ = false

-- The run has stopped, whether the channel is closed already or not.
abbrev pub has_stopped : Point → Bool
has_stopped closing_done = true
has_stopped ended = true
has_stopped _ = false

abbrev pub has_ended : Point → Bool
has_ended ended = true
has_ended _ = false

-- The states of a run that others can see, from its start on, step by step.
pub data Stands (name subject : Text) (started : ℕ) : Point → ProjectionRun → Type 0 where
  starts : Stands name subject started going (start name subject started)
  catches_up :
      (now : ℕ) (r : ProjectionRun)
      → Stands name subject started going r
      → Stands name subject started closing_caught_up (record_caught_up now r)
  tells_caught_up :
      (r : ProjectionRun)
      → Stands name subject started closing_caught_up r
      → Stands name subject started going (close_caught_up r)
  breaks_off :
      (now : ℕ) (err : Option Failure) (r : ProjectionRun)
      → Stands name subject started going r
      → Stands name subject started going (disrupted now err r)
  commits :
      (event_id : Text) (r : ProjectionRun)
      → Stands name subject started going r
      → Stands name subject started going (committed event_id r)
  stops :
      (now : ℕ) (err : Option Failure) (r : ProjectionRun)
      → Stands name subject started going r
      → Stands name subject started closing_done (record_stop now err r)
  tells_done :
      (r : ProjectionRun)
      → Stands name subject started closing_done r
      → Stands name subject started ended (close_done r)

-- The fields agree with each other and with the point: no error and no attempt outside of a
-- disruption, a channel closed only once the status says so, an end that says why, and the health
-- that follows.
pub record IsConsistent (p : Point) (r : ProjectionRun) : Type 0 where
  pub closed_caught_up : r.caught_up ≡ true → r.status.has_caught_up ≡ true
  pub closes_caught_up : is_closing_caught_up p ≡ false → r.caught_up ≡ r.status.has_caught_up
  pub stopped_then : is_stopped r.status.phase ≡ has_stopped p
  pub closed_done : r.done ≡ has_ended p
  pub never_panics : r.is_panicked ≡ false
  pub same_reason : has_stopped p ≡ true → r.err ≡ r.status.err
  pub without_reason : has_stopped p ≡ false → r.err ≡ none
  pub no_attempts : is_reconnecting r.status.phase ≡ false → r.status.attempts ≡ 0
  pub some_attempt : is_reconnecting r.status.phase ≡ true → 0 < r.status.attempts
  pub no_error : (r.status.phase ≡ live) ⊎ (r.status.phase ≡ catching_up) → r.status.err ≡ none
  pub live_has_caught_up : r.status.phase ≡ live → r.status.has_caught_up ≡ true
  pub alive : is_alive r.status ≡ not (has_stopped p)
  pub ready : is_ready r.status ≡ (r.status.has_caught_up && not (has_stopped p))

start-IsConsistent : (name subject : Text) (now : ℕ) → IsConsistent going (start name subject now)
unfolding is_alive is_ready
start-IsConsistent name subject now = record {
  closed_caught_up = λ p. ground arith;
  closes_caught_up = λ p. refl;
  stopped_then = refl;
  closed_done = refl;
  never_panics = refl;
  same_reason = λ p. ground arith;
  without_reason = λ p. refl;
  no_attempts = λ p. refl;
  some_attempt = λ p. ground arith;
  no_error = λ p. refl;
  live_has_caught_up = λ p. ground arith;
  alive = refl;
  ready = refl;
}

catches_up-IsConsistent :
    (now : ℕ) (r : ProjectionRun)
    → IsConsistent going r
    → IsConsistent closing_caught_up (record_caught_up now r)
unfolding record_caught_up is_alive is_ready
catches_up-IsConsistent now r h = record {
  closed_caught_up = λ p. refl;
  closes_caught_up = λ p. ground arith;
  stopped_then = refl;
  closed_done = h.closed_done;
  never_panics = h.never_panics;
  same_reason = λ p. ground arith;
  without_reason = h.without_reason;
  no_attempts = λ p. refl;
  some_attempt = λ p. ground arith;
  no_error = λ p. refl;
  live_has_caught_up = λ p. refl;
  alive = refl;
  ready = refl;
}

tells_caught_up-IsConsistent :
    (r : ProjectionRun)
    → r.status.has_caught_up ≡ true
    → IsConsistent closing_caught_up r
    → IsConsistent going (close_caught_up r)
unfolding close_caught_up
tells_caught_up-IsConsistent r caught h = record {
  closed_caught_up = λ p. caught;
  closes_caught_up = λ p. ground arith;
  stopped_then = h.stopped_then;
  closed_done = h.closed_done;
  never_panics = h.never_panics;
  same_reason = λ p. ground arith;
  without_reason = h.without_reason;
  no_attempts = h.no_attempts;
  some_attempt = h.some_attempt;
  no_error = h.no_error;
  live_has_caught_up = h.live_has_caught_up;
  alive = h.alive;
  ready = h.ready;
}

breaks_off-IsConsistent :
    (now : ℕ) (err : Option Failure) (r : ProjectionRun)
    → IsConsistent going r
    → IsConsistent going (disrupted now err r)
unfolding disrupted is_alive is_ready
breaks_off-IsConsistent now err r h = elim (Bool-cases (is_reconnecting r.status.phase)) [
  | inl again ↦
      rw (disrupted, again)
        (record {
          closed_caught_up = h.closed_caught_up;
          closes_caught_up = h.closes_caught_up;
          stopped_then = h.stopped_then;
          closed_done = h.closed_done;
          never_panics = h.never_panics;
          same_reason = λ p. ground arith;
          without_reason = h.without_reason;
          no_attempts = λ p. ground arith;
          some_attempt = λ p. omega arith;
          no_error = λ p. ground arith;
          live_has_caught_up = h.live_has_caught_up;
          alive = h.alive;
          ready = h.ready;
        })
  | inr first ↦
      rw (disrupted, first)
        (record {
          closed_caught_up = h.closed_caught_up;
          closes_caught_up = h.closes_caught_up;
          stopped_then = refl;
          closed_done = h.closed_done;
          never_panics = h.never_panics;
          same_reason = λ p. ground arith;
          without_reason = h.without_reason;
          no_attempts = λ p. ground arith;
          some_attempt = λ p. omega arith;
          no_error = λ p. ground arith;
          live_has_caught_up = λ p. ground arith;
          alive = refl;
          ready = refl;
        })
]

commits-IsConsistent :
    (event_id : Text) (r : ProjectionRun)
    → IsConsistent going r
    → IsConsistent going (committed event_id r)
unfolding committed is_alive is_ready
commits-IsConsistent event_id r h = record {
  closed_caught_up = h.closed_caught_up;
  closes_caught_up = h.closes_caught_up;
  stopped_then = h.stopped_then;
  closed_done = h.closed_done;
  never_panics = h.never_panics;
  same_reason = h.same_reason;
  without_reason = h.without_reason;
  no_attempts = h.no_attempts;
  some_attempt = h.some_attempt;
  no_error = h.no_error;
  live_has_caught_up = h.live_has_caught_up;
  alive = h.alive;
  ready = h.ready;
}

stops-IsConsistent :
    (now : ℕ) (err : Option Failure) (r : ProjectionRun)
    → IsConsistent going r
    → IsConsistent closing_done (record_stop now err r)
unfolding record_stop is_alive is_ready
stops-IsConsistent now err r h = record {
  closed_caught_up = h.closed_caught_up;
  closes_caught_up = λ p. h.closes_caught_up refl;
  stopped_then = refl;
  closed_done = h.closed_done;
  never_panics = h.never_panics;
  same_reason = λ p. refl;
  without_reason = λ p. ground arith;
  no_attempts = λ p. refl;
  some_attempt = λ p. ground arith;
  no_error = λ p. ground arith;
  live_has_caught_up = λ p. ground arith;
  alive = refl;
  ready = refl;
}

tells_done-IsConsistent :
    (r : ProjectionRun) → IsConsistent closing_done r → IsConsistent ended (close_done r)
unfolding close_done
tells_done-IsConsistent r h = record {
  closed_caught_up = h.closed_caught_up;
  closes_caught_up = λ p. h.closes_caught_up refl;
  stopped_then = h.stopped_then;
  closed_done = refl;
  never_panics = ground (arith, h.never_panics, h.closed_done);
  same_reason = λ p. h.same_reason refl;
  without_reason = λ p. ground arith;
  no_attempts = h.no_attempts;
  some_attempt = h.some_attempt;
  no_error = h.no_error;
  live_has_caught_up = h.live_has_caught_up;
  alive = h.alive;
  ready = h.ready;
}

-- A run that is about to close the channel has caught up.
closing-has_caught_up :
    (name subject : Text) (started : ℕ) (p : Point) (r : ProjectionRun)
    → Stands name subject started p r
    → is_closing_caught_up p ≡ true
    → r.status.has_caught_up ≡ true
unfolding record_caught_up
closing-has_caught_up name subject started _ _ starts h = absurd (ground arith)
closing-has_caught_up name subject started _ _ (catches_up now r at) h = refl
closing-has_caught_up name subject started _ _ (tells_caught_up r at) h = absurd (ground arith)
closing-has_caught_up name subject started _ _ (breaks_off now err r at) h = absurd (ground arith)
closing-has_caught_up name subject started _ _ (commits event_id r at) h = absurd (ground arith)
closing-has_caught_up name subject started _ _ (stops now err r at) h = absurd (ground arith)
closing-has_caught_up name subject started _ _ (tells_done r at) h = absurd (ground arith)

-- Whatever a run reports, and however it ends, whoever looks at it between two of its steps sees a
-- consistent status: an error and a count of attempts only within a disruption, live only once it has
-- caught up, a channel closed only after the status says so, and never twice, the error of the run that
-- of its status once it has stopped, and none before. It is alive until it has stopped, and ready from
-- when it has caught up until then.
pub run-IsConsistent :
    (name subject : Text) (started : ℕ) (p : Point) (r : ProjectionRun)
    → Stands name subject started p r
    → IsConsistent p r
run-IsConsistent name subject started _ _ starts = start-IsConsistent name subject started
run-IsConsistent name subject started _ _ (catches_up now r at) =
    catches_up-IsConsistent now r (run-IsConsistent name subject started going r at)
run-IsConsistent name subject started _ _ (tells_caught_up r at) =
    tells_caught_up-IsConsistent r
      (closing-has_caught_up name subject started closing_caught_up r at refl)
      (run-IsConsistent name subject started closing_caught_up r at)
run-IsConsistent name subject started _ _ (breaks_off now err r at) =
    breaks_off-IsConsistent now err r (run-IsConsistent name subject started going r at)
run-IsConsistent name subject started _ _ (commits event_id r at) =
    commits-IsConsistent event_id r (run-IsConsistent name subject started going r at)
run-IsConsistent name subject started _ _ (stops now err r at) =
    stops-IsConsistent now err r (run-IsConsistent name subject started going r at)
run-IsConsistent name subject started _ _ (tells_done r at) =
    tells_done-IsConsistent r (run-IsConsistent name subject started closing_done r at)

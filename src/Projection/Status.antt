-- ===== src/Projection/Status.antt =====
-- Where a projection run stands: architecturekit/projection_run.go, and whether it is healthy:
-- architecturekit/httpapi/health.go. What holds the lock is one step, and closing a channel after that
-- is another one; the clock is an argument.
use architecturekit_golang.Base.{
  ℕ, ◌+◌, Bool, true, false, not, ◌&&◌, ◌||◌, Option, none, [], if◌then◌else◌, nat_eq, Text,
  text_has_eq,
}
use architecturekit_golang.Failure.{Failure}

pub data Phase : Type 0 where
  catching_up live reconnecting stopped : Phase

pub record ProjectionStatus : Type 0 where
  pub phase : Phase
  pub since : ℕ
  pub err : Option Failure
  pub attempts : ℕ
  pub revision : Text
  pub has_caught_up : Bool

-- The channels are whether they are closed, and `is_panicked` is whether one was closed twice.
pub record ProjectionRun : Type 0 where
  pub name : Text
  pub subject : Text
  pub status : ProjectionStatus
  pub caught_up : Bool
  pub done : Bool
  pub is_panicked : Bool
  pub err : Option Failure

-- `start`, before its goroutine runs.
abbrev pub start : Text → Text → ℕ → ProjectionRun
start name subject now = record {
  name = name;
  subject = subject;
  status = record {
    phase = catching_up;
    since = now;
    err = none;
    attempts = 0;
    revision = [];
    has_caught_up = false;
  };
  caught_up = false;
  done = false;
  is_panicked = false;
  err = none;
}

-- What `caughtUpNow` does under the lock, and the channel that it closes afterwards, only once.
unfoldable pub record_caught_up : ℕ → ProjectionRun → ProjectionRun
record_caught_up now r = record r {
  status = record r.status {
    phase = live;
    since = now;
    err = none;
    attempts = 0;
    has_caught_up = true;
  };
}

unfoldable pub close_caught_up : ProjectionRun → ProjectionRun
close_caught_up r = record r { caught_up = true }

-- `caughtUpNow`
unfoldable pub caught_up_now : ℕ → ProjectionRun → ProjectionRun
unfolding record_caught_up close_caught_up
caught_up_now now r = close_caught_up (record_caught_up now r)

abbrev pub is_reconnecting : Phase → Bool
is_reconnecting reconnecting = true
is_reconnecting _ = false

abbrev pub is_stopped : Phase → Bool
is_stopped stopped = true
is_stopped _ = false

-- `disrupted`
unfoldable pub disrupted : ℕ → Option Failure → ProjectionRun → ProjectionRun
disrupted now err r =
    let s =
      if is_reconnecting r.status.phase
      then r.status
      else record r.status { phase = reconnecting; since = now; attempts = 0 } in
    record r { status = record s { err = err; attempts = s.attempts + 1 } }

-- `committed`
unfoldable pub committed : Text → ProjectionRun → ProjectionRun
committed event_id r = record r { status = record r.status { revision = event_id } }

-- What `stop` does under the lock, and the channel that it closes afterwards.
unfoldable pub record_stop : ℕ → Option Failure → ProjectionRun → ProjectionRun
record_stop now err r = record r {
  status = record r.status { phase = stopped; since = now; err = err; attempts = 0 };
  err = err;
}

unfoldable pub close_done : ProjectionRun → ProjectionRun
close_done r = record r { done = true; is_panicked = r.is_panicked || r.done }

-- `stop`
unfoldable pub stop : ℕ → Option Failure → ProjectionRun → ProjectionRun
unfolding record_stop close_done
stop now err r = close_done (record_stop now err r)

-- `isReady` and `isAlive`
unfoldable pub is_ready : ProjectionStatus → Bool
is_ready status = status.has_caught_up && not (is_stopped status.phase)

unfoldable pub is_alive : ProjectionStatus → Bool
is_alive status = not (is_stopped status.phase)

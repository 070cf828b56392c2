-- ===== src/Projection/Running.antt =====
-- How a projection runs: `catchUp`, `follow`, and `run` of architecturekit/projection.go, over the
-- answers of the database, which are arguments, one session after the other. A panic outside of
-- Apply is a bare panic_error, which drive never returns otherwise.
use architecturekit_golang.Base.{
  ℕ, ◌+◌, ◌*◌, ◌%◌, ◌^◌, Bool, false, not, ◌||◌, Option, none, some, List, [], ◌∷◌, ltb,
  if◌then◌else◌, nat_eq, Text, text_eq, text_has_eq, is_empty,
}
use architecturekit_golang.Failure.{transient, Failure, panic_error, is}
use architecturekit_golang.Failure.{has_panic}
use architecturekit_golang.Stored.{StoredEvent, Element}
use architecturekit_golang.ReadOptions.{Bound}
use architecturekit_golang.Store.{bound_after}
use architecturekit_golang.Projection.Status.{ProjectionRun, caught_up_now, disrupted, committed}
use architecturekit_golang.Projection.Drive.{
  ProjectionWriter, CheckpointRead, checkpoint_at, checkpoint_fails, checkpoint_panics, Driven,
  drive,
}

-- A stream that the client hands out, and the error of the context once it has ended.
pub record Stream : Type 0 where
  pub elements : List Element
  pub ctx_err : Option Failure

-- What one round of `run` meets: the answers to ReadEvents and ObserveEvents by their lower bound,
-- the clock, how long the stream was followed live, and whether the context has ended after the
-- stream, or while the run waits.
pub record Session : Type 0 where
  pub read : Option Bound → Stream
  pub observe : Option Bound → Stream
  pub now : ℕ
  pub live_for : ℕ
  pub is_over : Bool
  pub is_over_waiting : Bool

-- The settings of the store for reconnecting. A delay is a Duration: the nanoseconds of a signed
-- integer of 64 bits, here as the natural number with the same bits.
pub record ReconnectSettings : Type 0 where
  pub initial_delay : ℕ
  pub max_delay : ℕ

-- `Reconnect`, without the names that are the same for the whole run.
pub record Reconnect : Type 0 where
  pub err : Option Failure
  pub delay : ℕ
  pub attempt : ℕ

-- A reconnect with what `run` has read around the session before it: the checkpoints, and how long
-- the stream was followed live.
pub record Disruption : Type 0 where
  pub told : Reconnect
  pub before : Text
  pub after : Text
  pub live_for : ℕ

-- The comparison of two signed integers by their bits.
abbrev pub signed_lt : ℕ → ℕ → Bool
signed_lt x y = ltb ((x + 2 ^ 63) % 2 ^ 64) ((y + 2 ^ 63) % 2 ^ 64)

-- `min(2*delay, store.settings.reconnectMaxDelay)`
unfoldable pub next_delay : ReconnectSettings → ℕ → ℕ
next_delay settings delay =
    let doubled = (2 * delay) % 2 ^ 64 in
    if signed_lt settings.max_delay doubled then settings.max_delay else doubled

-- What `follow` leaves behind.
pub record Followed {ℓ} (W : Type ℓ) : Type ℓ where
  pub target : W
  pub progress : ProjectionRun
  pub live_for : ℕ
  pub failure : Option Failure

-- How `run` ends, if the sessions suffice for it.
pub data RunEnd : Type 0 where
  still_runs returns_nil : RunEnd
  returns_error : Failure → RunEnd

pub record Ran {ℓ} (W : Type ℓ) : Type ℓ where
  pub target : W
  pub progress : ProjectionRun
  pub reconnects : List Disruption
  pub ending : RunEnd

abbrev pub report_committed : Option Text → ProjectionRun → ProjectionRun
report_committed none r = r
report_committed (some event_id) r = committed event_id r

-- The text that `checkpointBefore, _` takes.
abbrev pub checkpoint_text : CheckpointRead → Text
checkpoint_text (checkpoint_at id) = id
checkpoint_text (checkpoint_fails id err) = id
checkpoint_text (checkpoint_panics value) = []

abbrev pub checkpoint_panic : CheckpointRead → Option Failure
checkpoint_panic (checkpoint_panics value) = some (panic_error value)
checkpoint_panic _ = none

-- A failure that is a panic outside of Apply, which ends the run right away.
abbrev pub escaped_panic : Option Failure → Option Failure
escaped_panic (some (panic_error value)) = some (panic_error value)
escaped_panic _ = none

-- A failure that trying again does not fix.
unfoldable pub ends_run : Option Failure → Bool
ends_run none = false
ends_run (some err) = has_panic err || not (is transient err)

abbrev pub error_or_nil : Option Failure → RunEnd
error_or_nil none = returns_nil
error_or_nil (some err) = returns_error err

-- What the loop of `run` goes on with, from writer, progress, delay, and attempt.
abbrev pub Rest {ℓ} : Type ℓ → Type ℓ
Rest W = W → ProjectionRun → ℕ → ℕ → Ran W

-- The ID that `catchUp` returns.
abbrev pub goes_on_after : Option Failure → Text → Text → Text
goes_on_after (some err) checkpoint last_event_id = last_event_id
goes_on_after none checkpoint last_event_id =
    if is_empty last_event_id then checkpoint else last_event_id

module _ {ℓ} {W : Type ℓ} where
  abbrev pub failed_before : W → Text → Failure → Driven W
  failed_before w last err = record {
    target = w;
    reported = none;
    last_event_id = last;
    failure = some err;
  }

  abbrev pub or_checkpoint : Text → Driven W → Driven W
  or_checkpoint checkpoint driven = record driven {
    last_event_id = goes_on_after driven.failure checkpoint driven.last_event_id;
  }

  -- `catchUp`, once the checkpoint is read.
  abbrev pub catch_up_from :
      ProjectionWriter W
      → (StoredEvent → Option Failure)
      → ℕ
      → (Option Bound → Stream)
      → W
      → CheckpointRead
      → Driven W
  catch_up_from writer verify size read w (checkpoint_fails id err) = failed_before w [] err
  catch_up_from writer verify size read w (checkpoint_panics value) =
      failed_before w [] (panic_error value)
  catch_up_from writer verify size read w (checkpoint_at checkpoint) =
      let stream = read (bound_after checkpoint) in
      or_checkpoint checkpoint (drive writer verify size stream.ctx_err stream.elements w)

  -- `catchUp`
  unfoldable pub catch_up :
      ProjectionWriter W
      → (StoredEvent → Option Failure)
      → ℕ
      → (Option Bound → Stream)
      → W
      → Driven W
  catch_up writer verify size read w =
      let (w', found) = writer.checkpoint w in catch_up_from writer verify size read w' found

  -- `follow`
  unfoldable pub follow :
      ProjectionWriter W
      → (StoredEvent → Option Failure)
      → ℕ
      → Session
      → W
      → ProjectionRun
      → Followed W
  follow writer verify size session w progress =
      let caught_up = catch_up writer verify size session.read w in
      let progress' = report_committed caught_up.reported progress in
      elim caught_up.failure [
        | some err ↦ record {
          target = caught_up.target;
          progress = progress';
          live_for = 0;
          failure = some err;
        }
        | none ↦
            let stream = session.observe (bound_after caught_up.last_event_id) in
            let live = drive writer verify 1 stream.ctx_err stream.elements caught_up.target in
            record {
              target = live.target;
              progress = report_committed live.reported (caught_up_now session.now progress');
              live_for = session.live_for;
              failure = live.failure;
            }
      ]

  abbrev pub ran : W → ProjectionRun → RunEnd → Ran W
  ran w progress ending = record {
    target = w;
    progress = progress;
    reconnects = [];
    ending = ending;
  }

  -- Reporting the reconnect, waiting for the delay, and the next round.
  unfoldable pub reconnect :
      ReconnectSettings → Session → Rest W → Disruption → W → ProjectionRun → Ran W
  unfolding next_delay
  reconnect settings session rest met w progress =
      let next = rest w progress (next_delay settings met.told.delay) met.told.attempt in
      if session.is_over_waiting
      then record { target = w; progress = progress; reconnects = met ∷ []; ending = returns_nil }
      else record next { reconnects = met ∷ next.reconnects }

  -- What follows a session that ended with a failure that may pass, or with none.
  unfoldable pub after_disruption :
      ProjectionWriter W
      → ReconnectSettings
      → Session
      → Rest W
      → Text
      → ℕ
      → Option Failure
      → W
      → ProjectionRun
      → ℕ
      → ℕ
      → Ran W
  unfolding reconnect
  after_disruption writer settings session rest before live_for err w progress delay attempt =
      let (w', after) = writer.checkpoint w in
      let got_somewhere =
        not (text_eq (checkpoint_text after) before) || ltb settings.initial_delay live_for in
      elim (checkpoint_panic after) [
        | some failure ↦ ran w' progress (returns_error failure)
        | none ↦
            reconnect settings session rest
              (record {
                told = record {
                  err = err;
                  delay = if got_somewhere then settings.initial_delay else delay;
                  attempt = (if got_somewhere then 0 else attempt) + 1;
                };
                before = before;
                after = checkpoint_text after;
                live_for = live_for;
              })
              w' progress
      ]

  -- What follows a session.
  unfoldable pub after_session :
      ProjectionWriter W → ReconnectSettings → Session → Rest W → Text → Followed W → ℕ → ℕ → Ran W
  unfolding ends_run after_disruption
  after_session writer settings session rest before followed delay attempt =
      let w = followed.target in
      let progress = followed.progress in
      elim (escaped_panic followed.failure) [
        | some failure ↦ ran w progress (returns_error failure)
        | none ↦
            if session.is_over
            then ran w progress returns_nil
            else if ends_run followed.failure
            then ran w progress (error_or_nil followed.failure)
            else after_disruption writer settings session rest before followed.live_for
                followed.failure w (disrupted session.now followed.failure progress) delay attempt
      ]

  -- One round of the loop of `run`.
  unfoldable pub run_session :
      ProjectionWriter W
      → (StoredEvent → Option Failure)
      → ℕ
      → ReconnectSettings
      → Session
      → Rest W
      → Rest W
  unfolding after_session follow
  run_session writer verify size settings session rest w progress delay attempt =
      let (w', before) = writer.checkpoint w in
      elim (checkpoint_panic before) [
        | some failure ↦ ran w' progress (returns_error failure)
        | none ↦
            after_session writer settings session rest (checkpoint_text before)
              (follow writer verify size session w' progress) delay attempt
      ]

  -- The loop of `run`
  unfoldable pub run_from :
      ProjectionWriter W
      → (StoredEvent → Option Failure)
      → ℕ
      → ReconnectSettings
      → List Session
      → Rest W
  unfolding run_session
  run_from writer verify size settings [] w progress delay attempt = ran w progress still_runs
  run_from writer verify size settings (session ∷ sessions) w progress delay attempt =
      run_session writer verify size settings session
        (run_from writer verify size settings sessions) w progress delay attempt

  -- `run`
  unfoldable pub run :
      ProjectionWriter W
      → (StoredEvent → Option Failure)
      → ℕ
      → ReconnectSettings
      → List Session
      → W
      → ProjectionRun
      → Ran W
  run writer verify size settings sessions w progress =
      run_from writer verify size settings sessions w progress settings.initial_delay 0

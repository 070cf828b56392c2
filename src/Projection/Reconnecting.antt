-- ===== src/Projection/Reconnecting.antt =====
-- The delays and the ends of `run`, architecturekit/projection.go.
use architecturekit_golang.Base.{
  ℕ, zero, suc, ◌+◌, ◌*◌, ◌^◌, ◌<◌, ◌≢◌, ◌≤◌, min, max, ◌≡◌, ◌⊎◌, true, false, Option, none, some,
  List, [], ◌∷◌, arith, nat_eq, Text, text_has_eq,
}
use architecturekit_golang.Failure.{transient, Failure, is}
use architecturekit_golang.Failure.{has_panic}
use architecturekit_golang.Projection.Status.{ProjectionRun}
use architecturekit_golang.Projection.Running.{
  ReconnectSettings, Ran, RunEnd, still_runs, returns_nil, returns_error, Rest, Disruption,
}

-- The delay before the attempt after so many others.
abbrev pub backoff : ReconnectSettings → ℕ → ℕ
backoff settings zero = settings.initial_delay
backoff settings (suc n) = min (2 * backoff settings n) settings.max_delay

pub backoff-le :
    (settings : ReconnectSettings) (n : ℕ)
    → backoff settings n ≤ max settings.initial_delay settings.max_delay
backoff-le settings zero = omega arith
backoff-le settings (suc n) = omega arith

-- A session got somewhere if the checkpoint has moved, or the stream was followed for longer than
-- the initial delay. The attempts are counted from one again then, and on otherwise.
abbrev pub Counts : ReconnectSettings → ℕ → ℕ → Disruption → Type 0
Counts settings before n met =
    (((met.after ≢ met.before) ⊎ (settings.initial_delay < met.live_for)) × (n ≡ 0))
    ⊎ ((met.after ≡ met.before) × (met.live_for ≤ settings.initial_delay) × (n ≡ before))

-- A failure that may pass.
abbrev pub MayPass : Option Failure → Type 0
MayPass none = Unit
MayPass (some err) = (is transient err ≡ true) × (has_panic err ≡ false)

-- Each reconnect, after so many others in a row, is counted, waits as long as its number says, and
-- is due to a failure that may pass.
abbrev pub IsPaced : ReconnectSettings → ℕ → List Disruption → Type 0
IsPaced settings before [] = Unit
IsPaced settings before (met ∷ rest) =
    (n : ℕ) × Counts settings before n met
    × (met.told.attempt ≡ n + 1)
    × (met.told.delay ≡ backoff settings n)
    × MayPass met.told.err
    × IsPaced settings (n + 1) rest

abbrev disruption : ReconnectSettings → Option Failure → ℕ → Text → Text → ℕ → Disruption
disruption settings err n before after live_for = record {
  told = record { err = err; delay = backoff settings n; attempt = n + 1 };
  before = before;
  after = after;
  live_for = live_for;
}

abbrev pub IsBounded : ReconnectSettings → Disruption → Type 0
IsBounded settings met = met.told.delay ≤ max settings.initial_delay settings.max_delay

-- An error that a run ends with is a panic, or one that trying again does not fix.
abbrev pub EndsFor : RunEnd → Type 0
EndsFor still_runs = Unit
EndsFor returns_nil = Unit
EndsFor (returns_error err) = (has_panic err ≡ true) ⊎ (is transient err ≡ false)

module _ {ℓ} {W : Type ℓ} where
  pub record IsOrderly (settings : ReconnectSettings) (before : ℕ) (r : Ran W) : Type 0 where
    pub paced : IsPaced settings before r.reconnects
    pub ends_for : EndsFor r.ending

module _ {ℓ} {W : Type ℓ} (settings : ReconnectSettings) (short : settings.initial_delay < 2 ^ 62)
    (longest : settings.max_delay < 2 ^ 62) where
  abbrev IsOrderlyRest : Rest W → Type ℓ
  IsOrderlyRest rest =
      (w : W) (progress : ProjectionRun) (n : ℕ)
      → IsOrderly settings n (rest w progress (backoff settings n) n)

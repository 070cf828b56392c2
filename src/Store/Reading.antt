-- ===== src/Store/Reading.antt =====
-- `Read` and `Load` of architecturekit/store.go, and the subjects that they read, of
-- architecturekit/projection_options.go. The stream of the client is an argument.
use architecturekit_golang.Base.{
  Bool, true, false, Option, none, some, List, [], ◌∷◌, if◌then◌else◌, nat_eq, Eq, Text,
  text_has_eq, is_empty,
}
use architecturekit_golang.Failure.{Failure, Result, ok, fail, ◌>>=◌}
use architecturekit_golang.Failure.Database.{read_failure}
use architecturekit_golang.Stored.{StoredEvent, Element, arrives, breaks}
use architecturekit_golang.ReadOptions.{
  Bound, LatestEvent, ReadOption, ReadSettings, bind, read_settings_of, check_bounds,
}
use architecturekit_golang.State.{State}
use architecturekit_golang.StateCache.{StateShape, StateCache}
use architecturekit_golang.Subject.{starts_with, slash}
use architecturekit_golang.Store.{Read, fold, fold_uncached}

-- `Subjects`
pub record Subjects : Type 0 where
  pub subject : Text
  pub recursive : Bool

-- `subjectsOf`, which panics without a leading slash, as `requireLeadingSlash` does.
unfoldable pub subjects_of : Text → Bool → Option Subjects
subjects_of subject recursive =
    if starts_with slash subject
    then some (record { subject = subject; recursive = recursive })
    else none

unfoldable pub subject_tree : Text → Option Subjects
unfolding subjects_of
subject_tree subject = subjects_of subject true

unfoldable pub exact_subject : Text → Option Subjects
unfolding subjects_of
exact_subject subject = subjects_of subject false

-- `requireSubjects`, where none is the panic.
unfoldable pub require_subjects : Subjects → Option Subjects
require_subjects subjects = if is_empty subjects.subject then none else some subjects

-- What the client is asked for: the options of `ReadEvents` that the kit sets.
pub record DatabaseOptions : Type 0 where
  pub recursive : Bool
  pub lower : Option Bound
  pub upper : Option Bound
  pub antichronological : Bool
  pub from_latest : Option LatestEvent

abbrev pub ReadEvents : Type 0
ReadEvents = Text → DatabaseOptions → List Element

abbrev pub database_options : Subjects → ReadSettings → DatabaseOptions
database_options subjects s = record {
  recursive = subjects.recursive;
  lower = s.lower;
  upper = s.upper;
  antichronological = s.antichronological;
  from_latest = s.from_latest;
}

-- The loop of `Read`, up to the first error.
unfoldable pub read_from : (StoredEvent → Option Failure) → List Element → List (Result StoredEvent)
unfolding read_failure
read_from check [] = []
read_from check (breaks err ctx_err ∷ elements) = fail (read_failure ctx_err err) ∷ []
read_from check (arrives event ∷ elements) = elim (check event) [
  | some err ↦ fail err ∷ []
  | none ↦ ok event ∷ read_from check elements
]

-- The sequence that `Read` returns.
unfoldable pub read_checked :
    (StoredEvent → Option Failure)
    → ReadEvents
    → Subjects
    → ReadSettings
    → List (Result StoredEvent)
unfolding check_bounds read_from
read_checked check read_events subjects s = elim (check_bounds s) [
  | fail err ↦ fail err ∷ []
  | ok u ↦ read_from check (read_events subjects.subject (database_options subjects s))
]

-- `Read`, where none is a panic.
unfoldable pub read :
    (StoredEvent → Option Failure)
    → ReadEvents
    → Subjects
    → List (Option ReadOption)
    → Option (List (Result StoredEvent))
unfolding require_subjects read_settings_of read_checked
read check read_events subjects options = bind (require_subjects subjects) λ required.
    bind (read_settings_of options) λ s. some (read_checked check read_events required s)

-- What `fold` asks the client for.
abbrev pub read_subject : ReadEvents → Text → Read
read_subject read_events subject bound latest = read_events subject (record {
  recursive = false;
  lower = bound;
  upper = none;
  antichronological = false;
  from_latest = latest;
})

abbrev pub state_of {ℓ} : {S : Type ℓ} → Result (S × Text) → Result S
state_of result = result >>= λ found. ok found.0

-- `Load` with a store that has no state cache.
unfoldable pub load_uncached {ℓ} :
    {S : Type ℓ} → (StoredEvent → Option Failure) → ReadEvents → State S → Text → Result S
unfolding fold_uncached
load_uncached check read_events s subject =
    state_of (fold_uncached check (read_subject read_events subject) subject s)

-- `Load` with a store that has a state cache.
unfoldable pub load {ℓ} :
    {K S : Type ℓ} ⦃e : Eq K⦄
    → (StoredEvent → Option Failure)
    → ReadEvents
    → (S → S → Bool)
    → K
    → StateShape S
    → StateCache K S S
    → State S
    → Text
    → StateCache K S S × Result S
unfolding fold
load check read_events is_same key shape cache s subject =
    let (cache', result) =
      fold check (read_subject read_events subject) is_same key subject shape s cache in
    (cache', state_of result)

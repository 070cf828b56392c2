-- ===== src/Failure.antt =====
-- Errors: architecturekit/error.go, the error types of projection.go and projection_panic.go, and
-- what `errors.Is` and `errors.As` find in an error. The texts of errors are left out, and an
-- error is the tree of what it wraps.
pub mod Database
pub mod Category
use architecturekit_golang.Base.{
  ℕ, Text, Bool, true, false, not, ◌&&◌, ◌||◌, Option, none, some, ◌==◌, ◌≡◌, refl, ◌⊎◌, inl, inr,
}

-- The errors that are compared by identity: those of the kit, of the standard library's contexts,
-- and the three of the client that the kit asks for.
pub data Sentinel : Type 0 where
  domain transient permanent conflict unverified outcome_unknown : Sentinel
  not_a_revision empty_range not_caught_up no_items too_many_items : Sentinel
  unauthorized forbidden too_large unsupported_media_type malformed not_found : Sentinel
  canceled deadline_exceeded : Sentinel
  incompatible_server invalid_server_header client_outcome_unknown : Sentinel

abbrev tag : Sentinel → ℕ
tag domain = 0
tag transient = 1
tag permanent = 2
tag conflict = 3
tag unverified = 4
tag outcome_unknown = 5
tag not_a_revision = 6
tag empty_range = 7
tag not_caught_up = 8
tag no_items = 9
tag too_many_items = 10
tag unauthorized = 11
tag forbidden = 12
tag too_large = 13
tag unsupported_media_type = 14
tag malformed = 15
tag not_found = 16
tag canceled = 17
tag deadline_exceeded = 18
tag incompatible_server = 19
tag invalid_server_header = 20
tag client_outcome_unknown = 21

-- A sentinel is itself, and `ErrConflict` and `ErrUnverified` wrap the category they belong to.
abbrev pub matches : Sentinel → Sentinel → Bool
matches target conflict = tag target == 3 || tag target == 1
matches target unverified = tag target == 4 || tag target == 2
matches target s = tag target == tag s

-- The codes of the client that the kit names; `no_code` is the empty code of the v1 API.
pub data Code : Type 0 where
  no_code precondition_violated : Code
  server_shutting_down store_read_only indexes_rebuilding restore_in_progress : Code
  disk_full store_failed license_invalid capacity_exceeded : Code
  event_schema_already_registered event_schema_violated : Code
  other_code : Text → Code

-- The fields of a DBAPIError of the client that the kit reads.
pub record Answer : Type 0 where
  pub status : ℕ
  pub code : Code
  pub description : Text
  pub details : Text

mutual
  -- `wrap` is fmt.Errorf with %w and errors.Join, and `foreign` an error of code outside the kit,
  -- with what it wraps.
  pub data Failure : Type 0 where
    sentinel : Sentinel → Failure
    wrap : Failures → Failure
    foreign : ℕ → Failures → Failure
    answered : Answer → Failure
    domain_error : Text → Failure
    apply_failure : Text → Failure → Failure
    panic_error : ℕ → Failure
    without_context_end : Failure → Failure
    -- `notRun` and `panicError` of httpapi.
    not_run : Failure → Failure
    http_panic : ℕ → Failure

  pub data Failures : Type 0 where
    end : Failures
    also : Failure → Failures → Failures

abbrev pub is_context_end : Sentinel → Bool
is_context_end canceled = true
is_context_end deadline_exceeded = true
is_context_end _ = false

-- `errors.Is(failure, target)`.
unfoldable mutual
  pub is : Sentinel → Failure → Bool
  is target (sentinel s) = matches target s
  is target (wrap fs) = is_any target fs
  is target (foreign n fs) = is_any target fs
  is target (answered a) = false
  is target (domain_error message) = matches target domain
  is target (apply_failure event_id f) = is target f
  is target (panic_error value) = matches target permanent
  is target (not_run f) = is target f
  is target (http_panic value) = false
  is target (without_context_end f) = not (is_context_end target) && is target f

  pub is_any : Sentinel → Failures → Bool
  is_any target end = false
  is_any target (also f fs) = is target f || is_any target fs

-- `errors.AsType[*panicError]`, as `run` asks for it.
unfoldable mutual
  pub has_panic : Failure → Bool
  has_panic (sentinel s) = false
  has_panic (wrap fs) = has_panic_any fs
  has_panic (foreign n fs) = has_panic_any fs
  has_panic (answered a) = false
  has_panic (domain_error message) = false
  has_panic (apply_failure event_id f) = has_panic f
  has_panic (panic_error value) = true
  has_panic (without_context_end f) = has_panic f
  has_panic (not_run f) = has_panic f
  has_panic (http_panic value) = false

  pub has_panic_any : Failures → Bool
  has_panic_any end = false
  has_panic_any (also f fs) = has_panic f || has_panic_any fs

-- `isBeforeRunning` of httpapi.
unfoldable mutual
  pub is_before_running : Failure → Bool
  is_before_running (sentinel s) = false
  is_before_running (wrap fs) = is_any_before_running fs
  is_before_running (foreign n fs) = is_any_before_running fs
  is_before_running (answered a) = false
  is_before_running (domain_error message) = false
  is_before_running (apply_failure event_id f) = is_before_running f
  is_before_running (panic_error value) = false
  is_before_running (without_context_end f) = is_before_running f
  is_before_running (not_run f) = true
  is_before_running (http_panic value) = false

  pub is_any_before_running : Failures → Bool
  is_any_before_running end = false
  is_any_before_running (also f fs) = is_before_running f || is_any_before_running fs

abbrev or_else : Option Answer → Option Answer → Option Answer
or_else none b = b
or_else (some a) b = some a

-- `errors.As` for a DBAPIError, as `answerOf` asks for it.
unfoldable mutual
  pub answer_of : Failure → Option Answer
  answer_of (sentinel s) = none
  answer_of (wrap fs) = answer_of_any fs
  answer_of (foreign n fs) = answer_of_any fs
  answer_of (answered a) = some a
  answer_of (domain_error message) = none
  answer_of (apply_failure event_id f) = answer_of f
  answer_of (panic_error value) = none
  answer_of (without_context_end f) = answer_of f
  answer_of (not_run f) = answer_of f
  answer_of (http_panic value) = none

  pub answer_of_any : Failures → Option Answer
  answer_of_any end = none
  answer_of_any (also f fs) = or_else (answer_of f) (answer_of_any fs)

-- What a function that returns a value and an error hands out.
pub data Result {ℓ} (A : Type ℓ) : Type ℓ where
  ok : A → Result A
  fail : Failure → Result A

-- To split on a computed result and keep the equation.
pub Result-cases {ℓ} :
    {A : Type ℓ} (r : Result A) → ((a : A) × (r ≡ ok a)) ⊎ ((e : Failure) × (r ≡ fail e))
Result-cases (ok a) = inl (a, refl)
Result-cases (fail e) = inr (e, refl)

infixl 5 ◌>>=◌
abbrev pub ◌>>=◌ {ℓ κ} : {A : Type ℓ} {B : Type κ} → Result A → (A → Result B) → Result B
ok a >>= f = f a
fail e >>= f = fail e

-- fmt.Errorf with one wrapped error, and with a category and its cause.
abbrev pub wrapping : Sentinel → Failure
wrapping s = wrap (also (sentinel s) end)

abbrev pub wrapping_cause : Sentinel → Failure → Failure
wrapping_cause s cause = wrap (also (sentinel s) (also cause end))

-- `errors.Join` of an error and one that may be nil.
abbrev pub join : Failure → Option Failure → Failure
join f none = wrap (also f end)
join f (some g) = wrap (also f (also g end))

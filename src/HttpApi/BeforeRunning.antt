-- ===== src/HttpApi/BeforeRunning.antt =====
-- Failures before a command runs: `UserOf`, `BodyOf`, `build`, and `beforeRunning` of
-- architecturekit/httpapi/httpapi.go.
use architecturekit_golang.Base.{
  ◌+◌, ◌≡◌, refl, ◌≢◌, inl, inr, true, ◌||◌, Option, none, some, [], ◌∷◌, arith, ltb, if◌then◌else◌,
  Bool-cases, Option-cases, nat_eq, length, Text, codes, text_eq, text_has_eq, is_empty,
}
use architecturekit_golang.Failure.{
  Sentinel, unauthorized, forbidden, too_large, unsupported_media_type, malformed,
  is_before_running, Failure, is, wrapping, wrapping_cause,
}
use architecturekit_golang.HttpApi.{
  Called, returns, errs, panics, aborts, ◌then◌, Request, Body, BodyEnd, at_eof, over_limit,
  unreadable, outcome_unknown_text, not_visible_text,
}
use architecturekit_golang.HttpApi.Statuses.{
  status_for_error, message_for, has_category, before_running, categorise,
}
use architecturekit_golang.HttpApi.Bodies.{
  Decoding, takes_no_body, takes_json, EmptyObject, read_body, read_limited, require_json,
  require_no_body, body_of, max_request_body, within_limit, only_empty, only_object, decoded,
  unless_null, an_object, null_value, no_object,
}
use architecturekit_golang.HttpApi.Commands.{user_of, as_unauthorized, categorised, build}

-- The message does not say that the request has succeeded, or may have.
abbrev pub IsQuiet : Failure → Type 0
IsQuiet err =
    (message_for (status_for_error err) err ≢ outcome_unknown_text)
    × (message_for (status_for_error err) err ≢ not_visible_text)

other_status-IsQuiet : (err : Failure) → status_for_error err ≢ 500 → IsQuiet err
unfolding message_for
other_status-IsQuiet err h = (λ p. ground arith, λ p. ground arith)

before_running-IsQuiet : (err : Failure) → IsQuiet (before_running err)
unfolding message_for before_running is_before_running
before_running-IsQuiet err = (λ p. ground arith, λ p. ground arith)

-- An error with one of these categories gets a status of its own.
first_category-status :
    (err : Failure)
    → (is unauthorized err
        || is forbidden err
        || is too_large err
        || is unsupported_media_type err
        || is malformed err)
      ≡ true
    → status_for_error err ≢ 500
unfolding status_for_error
first_category-status err h = λ p. ground arith

categorised_as-IsQuiet :
    (err : Failure)
    → (is unauthorized err
        || is forbidden err
        || is too_large err
        || is unsupported_media_type err
        || is malformed err)
      ≡ true
    → IsQuiet err
categorised_as-IsQuiet err h = other_status-IsQuiet err (first_category-status err h)

malformed-IsQuiet : (err : Failure) → IsQuiet (wrapping_cause malformed err)
unfolding is
malformed-IsQuiet err = categorised_as-IsQuiet (wrapping_cause malformed err) (ground arith)

unauthorized-IsQuiet : (err : Failure) → IsQuiet (wrapping_cause unauthorized err)
unfolding is
unauthorized-IsQuiet err = categorised_as-IsQuiet (wrapping_cause unauthorized err) refl

-- Whatever error the call hands out is quiet.
abbrev pub FailsQuietly {ℓ} : {A : Type ℓ} → Called A → Type 0
FailsQuietly (errs err) = IsQuiet err
FailsQuietly call = Unit

then-FailsQuietly {ℓ κ} :
    {A : Type ℓ} {B : Type κ} (call : Called A) (f : A → Called B)
    → FailsQuietly call
    → ((a : A) → FailsQuietly (f a))
    → FailsQuietly (call then f)
then-FailsQuietly (returns a) f h hf = hf a
then-FailsQuietly (errs err) f h hf = h
then-FailsQuietly (panics value) f h hf = tt
then-FailsQuietly aborts f h hf = tt

wrapping-IsQuiet :
    (s : Sentinel)
    → (is unauthorized (wrapping s)
        || is forbidden (wrapping s)
        || is too_large (wrapping s)
        || is unsupported_media_type (wrapping s)
        || is malformed (wrapping s))
      ≡ true
    → IsQuiet (wrapping s)
wrapping-IsQuiet s h = categorised_as-IsQuiet (wrapping s) h

within_limit-FailsQuietly : (found : Text × BodyEnd) → FailsQuietly (within_limit found)
unfolding is
within_limit-FailsQuietly (bytes, over_limit) = wrapping-IsQuiet too_large refl
within_limit-FailsQuietly (bytes, unreadable err) = malformed-IsQuiet _
within_limit-FailsQuietly (bytes, at_eof) =
    elim (Bool-cases (ltb max_request_body (length bytes))) [
      | inl too_long ↦ rw (too_long) (wrapping-IsQuiet too_large refl)
      | inr fits ↦ rw (fits) tt
    ]

read_body-FailsQuietly : (body : Option Body) → FailsQuietly (read_body body)
unfolding read_body
read_body-FailsQuietly none = tt
read_body-FailsQuietly (some body) =
    within_limit-FailsQuietly (read_limited (max_request_body + 1) body)

require_json-FailsQuietly : (r : Request) → FailsQuietly (require_json r)
unfolding require_json is
require_json-FailsQuietly r = elim (Bool-cases (is_empty r.content_type)) [
  | inl missing ↦ rw (require_json, missing) (wrapping-IsQuiet unsupported_media_type refl)
  | inr given ↦ elim (Option-cases r.media_type) [
    | inl not_parsed ↦
        rw (require_json, given, not_parsed) (wrapping-IsQuiet unsupported_media_type refl)
    | inr (media_type, parsed) ↦ elim (Bool-cases (text_eq media_type (codes "application/json"))) [
      | inl json ↦ rw (require_json, given, parsed, json) tt
      | inr other ↦
          rw (require_json, given, parsed, other) (wrapping-IsQuiet unsupported_media_type refl)
    ]
  ]
]

only_object-FailsQuietly : (found : EmptyObject) → FailsQuietly (only_object found)
unfolding is
only_object-FailsQuietly an_object = tt
only_object-FailsQuietly null_value = wrapping-IsQuiet malformed refl
only_object-FailsQuietly no_object = wrapping-IsQuiet malformed refl

only_empty-FailsQuietly :
    (decode_empty : Text → EmptyObject) (bytes : Text)
    → FailsQuietly (only_empty decode_empty bytes)
only_empty-FailsQuietly decode_empty [] = tt
only_empty-FailsQuietly decode_empty (c ∷ bytes) =
    only_object-FailsQuietly (decode_empty (c ∷ bytes))

require_no_body-FailsQuietly :
    (decode_empty : Text → EmptyObject) (r : Request)
    → FailsQuietly (require_no_body decode_empty r)
unfolding require_no_body is
require_no_body-FailsQuietly decode_empty r = elim (Bool-cases r.is_cross_origin) [
  | inl elsewhere ↦ rw (require_no_body, elsewhere) (wrapping-IsQuiet forbidden refl)
  | inr here ↦ elim (Option-cases r.body) [
    | inl no_body ↦ rw (require_no_body, here, no_body) tt
    | inr (body, given) ↦
        rw (require_no_body, here, given)
          (then-FailsQuietly (read_body (some body)) (only_empty decode_empty)
            (read_body-FailsQuietly (some body)) (only_empty-FailsQuietly decode_empty))
  ]
]

unless_null-FailsQuietly {ℓ} :
    {A : Type ℓ} (is_null : Option Failure) (call : Called A)
    → FailsQuietly (unless_null is_null call)
unless_null-FailsQuietly (some err) call = malformed-IsQuiet err
unless_null-FailsQuietly none (returns a) = tt
unless_null-FailsQuietly none (errs err) = malformed-IsQuiet err
unless_null-FailsQuietly none (panics value) = tt
unless_null-FailsQuietly none aborts = tt

decoded-FailsQuietly {ℓ} :
    {A : Type ℓ} (refuse_null : Text → Option Failure) (decode : Text → Called A) (bytes : Text)
    → FailsQuietly (decoded refuse_null decode bytes)
decoded-FailsQuietly refuse_null decode bytes =
    unless_null-FailsQuietly (refuse_null bytes) (decode bytes)

body_of-FailsQuietly {ℓ} :
    {A : Type ℓ} (decoding : Decoding A) (r : Request) → FailsQuietly (body_of decoding r)
unfolding body_of
body_of-FailsQuietly (takes_no_body value decode_empty) r =
    then-FailsQuietly (require_no_body decode_empty r) (λ passed. returns value)
      (require_no_body-FailsQuietly decode_empty r) (λ passed. tt)
body_of-FailsQuietly (takes_json refuse_null decode) r =
    then-FailsQuietly (require_json r) (λ passed. read_body r.body then decoded refuse_null decode)
      (require_json-FailsQuietly r)
      (λ passed.
        then-FailsQuietly (read_body r.body) (decoded refuse_null decode)
          (read_body-FailsQuietly r.body) (decoded-FailsQuietly refuse_null decode))

as_unauthorized-FailsQuietly {ℓ} :
    {U : Type ℓ} (call : Called U) → FailsQuietly (as_unauthorized call)
as_unauthorized-FailsQuietly (returns user) = tt
as_unauthorized-FailsQuietly (errs err) = elim (Bool-cases (has_category err)) [
  | inl categorised_already ↦ rw (categorised_already) (before_running-IsQuiet err)
  | inr other ↦ rw (other) (unauthorized-IsQuiet err)
]
as_unauthorized-FailsQuietly (panics value) = tt
as_unauthorized-FailsQuietly aborts = tt

categorised-FailsQuietly {ℓ} : {B : Type ℓ} (call : Called B) → FailsQuietly (categorised call)
unfolding categorise
categorised-FailsQuietly (returns built) = tt
categorised-FailsQuietly (errs err) = elim (Bool-cases (has_category err)) [
  | inl categorised_already ↦ rw (categorise, categorised_already) (before_running-IsQuiet err)
  | inr other ↦ rw (categorise, other) (malformed-IsQuiet err)
]
categorised-FailsQuietly (panics value) = tt
categorised-FailsQuietly aborts = tt

-- An error from before a command or a query runs, whether it comes from determining the user, from
-- the body, or from turning the request into a command or a query, never tells the caller that the
-- request has succeeded, or may have.
pub build-FailsQuietly {ℓ} :
    {U A B : Type ℓ} (user_from : Request → Called U) (decoding : Decoding A)
    (to : Request → A → U → Called B) (r : Request)
    → FailsQuietly (build user_from decoding to r)
unfolding build user_of
build-FailsQuietly user_from decoding to r =
    then-FailsQuietly (user_of user_from r) _ (as_unauthorized-FailsQuietly (user_from r)) (λ user.
      then-FailsQuietly (body_of decoding r) _ (body_of-FailsQuietly decoding r)
        (λ request. categorised-FailsQuietly (to r request user)))

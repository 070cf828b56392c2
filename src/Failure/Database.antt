-- ===== src/Failure/Database.antt =====
-- architecturekit/database_failure.go: how a failure of the client is sorted into a category.
use architecturekit_golang.Base.{
  ℕ, Text, [], ◌∷◌, codes, Bool, true, false, ◌&&◌, ◌||◌, Option, none, some, ◌==◌, leb,
  if◌then◌else◌,
}
use architecturekit_golang.Failure.{
  Sentinel, transient, permanent, conflict, outcome_unknown, canceled, deadline_exceeded,
  incompatible_server, client_outcome_unknown, Failure, without_context_end, is, answer_of, Code,
  no_code, precondition_violated, server_shutting_down, store_read_only, indexes_rebuilding,
  restore_in_progress, disk_full, store_failed, license_invalid, capacity_exceeded,
  event_schema_already_registered, event_schema_violated, wrapping_cause, wrap, also, end,
}

unfoldable pub status_of : Failure → ℕ
unfolding answer_of
status_of err = elim (answer_of err) [ none ↦ 0 | some a ↦ a.status ]

unfoldable pub code_of : Failure → Code
unfolding answer_of
code_of err = elim (answer_of err) [ none ↦ no_code | some a ↦ a.code ]

unfoldable pub description_of : Failure → Text
unfolding answer_of
description_of err = elim (answer_of err) [ none ↦ [] | some a ↦ a.description ]

unfoldable pub cause_of : Failure → Failure
unfolding is
cause_of err = if is canceled err || is deadline_exceeded err then without_context_end err else err

-- `contextEnded`, for the error with which the context ended.
unfoldable pub context_ended : Failure → Failure
context_ended ctx_err = wrap (also ctx_err end)

-- `strings.HasPrefix`.
unfoldable pub has_prefix : Text → Text → Bool
has_prefix s [] = true
has_prefix [] (p ∷ ps) = false
has_prefix (c ∷ s) (p ∷ ps) = c == p && has_prefix s ps

-- The category that a code stands for, and none for the empty code.
unfoldable pub category_of_code : Code → Option Sentinel
category_of_code no_code = none
category_of_code precondition_violated = some conflict
category_of_code server_shutting_down = some transient
category_of_code store_read_only = some transient
category_of_code indexes_rebuilding = some transient
category_of_code restore_in_progress = some transient
category_of_code disk_full = some transient
category_of_code store_failed = some transient
category_of_code license_invalid = some transient
category_of_code capacity_exceeded = some transient
category_of_code _ = some permanent

abbrev schema_conflict : Text
schema_conflict = codes "schema conflict"

-- The category of an answer without a code, from its status and its description.
unfoldable pub category_of_status : ℕ → Text → Sentinel
unfolding has_prefix
category_of_status status description =
    if status == 0
    then transient
    else if status == 200 || status == 408 || status == 429 || leb 500 status
    then transient
    else if status == 409
    then (if has_prefix description schema_conflict then permanent else conflict)
    else permanent

unfoldable pub database_category : Failure → Sentinel
unfolding category_of_code category_of_status code_of status_of description_of is
database_category err =
    if is incompatible_server err then permanent else elim (category_of_code (code_of err)) [
      | none ↦ category_of_status (status_of err) (description_of err)
      | some category ↦ category
    ]

unfoldable pub database_failure : Failure → Failure
unfolding database_category cause_of
database_failure err = wrapping_cause (database_category err) (cause_of err)

abbrev is_no_code : Code → Bool
is_no_code no_code = true
is_no_code _ = false

-- `ctx_err` is `ctx.Err()`.
unfoldable pub read_failure : Option Failure → Failure → Failure
unfolding context_ended database_failure code_of status_of cause_of
read_failure (some ctx_err) err = context_ended ctx_err
read_failure none err =
    if is_no_code (code_of err) && status_of err == 409
    then wrapping_cause permanent (cause_of err)
    else database_failure err

unfoldable pub write_failure : Failure → Failure
unfolding database_failure cause_of is
write_failure err =
    if is client_outcome_unknown err
    then wrapping_cause outcome_unknown (cause_of err)
    else database_failure err

unfoldable pub is_schema_conflict : Failure → Bool
unfolding code_of status_of
is_schema_conflict refusal = elim (code_of refusal) [
  | event_schema_already_registered ↦ true
  | event_schema_violated ↦ true
  | no_code ↦ status_of refusal == 409
  | _ ↦ false
]

unfoldable pub schema_refusal : Failure → Failure
unfolding cause_of
schema_refusal refusal = wrapping_cause permanent (cause_of refusal)

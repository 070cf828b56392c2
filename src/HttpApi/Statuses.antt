-- ===== src/HttpApi/Statuses.antt =====
-- Errors and statuses: `StatusFor`, `explain`, `hasCategory`, `categorise`, and `beforeRunning` of
-- architecturekit/httpapi/httpapi.go.
use architecturekit_golang.Base.{
  ℕ, Bool, not, ◌&&◌, ◌||◌, Option, none, some, List, [], ◌∷◌, leb, ◌==◌, if◌then◌else◌, nat_eq,
  text_has_eq,
}
use architecturekit_golang.Failure.{
  domain, transient, permanent, conflict, outcome_unknown, not_a_revision, empty_range,
  not_caught_up, no_items, unauthorized, forbidden, too_large, unsupported_media_type, malformed,
  not_found, canceled, deadline_exceeded, not_run, is_before_running, Failure, is, wrapping_cause,
}
use architecturekit_golang.HttpApi.{
  Message, outcome_unknown_text, not_visible_text, internal_text, unauthorized_text, conflict_text,
  canceled_text, not_found_text, own_text, Logged, internal_failure, refused,
}

-- `StatusFor` for an error.
unfoldable pub status_for_error : Failure → ℕ
status_for_error err =
    if is unauthorized err
    then 401
    else if is forbidden err
    then 403
    else if is too_large err
    then 413
    else if is unsupported_media_type err
    then 415
    else if is malformed err
    then 400
    else if is not_found err || is no_items err
    then 404
    else if is domain err
    then 422
    else if is outcome_unknown err
    then 500
    else if is not_caught_up err
    then 500
    else if is conflict err
    then 409
    else if is transient err
    then 503
    else if is canceled err
    then 499
    else if is deadline_exceeded err
    then 503
    else if is permanent err
    then 500
    else if is not_a_revision err || is empty_range err
    then 400
    else 500

-- `StatusFor`
unfoldable pub status_for : Option Failure → ℕ
status_for none = 200
status_for (some err) = status_for_error err

-- `explain`: the message for the caller.
unfoldable pub message_for : ℕ → Failure → Message
message_for status err =
    if status == 500 && is outcome_unknown err && not (is_before_running err)
    then outcome_unknown_text
    else if status == 500 && is not_caught_up err && not (is_before_running err)
    then not_visible_text
    else if leb 500 status
    then internal_text
    else if status == 401
    then unauthorized_text
    else if status == 409
    then conflict_text
    else if status == 499
    then canceled_text
    else if status == 404 && not (is not_found err)
    then not_found_text
    else own_text err

-- `explain`: what is logged.
unfoldable pub logged_for : ℕ → Failure → List Logged
logged_for status err =
    if leb 500 status
    then internal_failure status err ∷ []
    else if status == 401
    then refused status err ∷ []
    else if status == 409
    then refused status err ∷ []
    else if status == 499
    then []
    else if status == 404 && not (is not_found err)
    then refused status err ∷ []
    else []

-- `hasCategory`
unfoldable pub has_category : Failure → Bool
has_category err =
    not (status_for_error err == 500)
    || is permanent err
    || is outcome_unknown err
    || is not_caught_up err

-- `beforeRunning`
unfoldable pub before_running : Failure → Failure
before_running err =
    if not (is outcome_unknown err) && not (is not_caught_up err) then err else not_run err

-- `categorise`
unfoldable pub categorise : Failure → Failure
unfolding before_running
categorise err = if has_category err then before_running err else wrapping_cause malformed err

-- ===== src/HttpApi/Precedence.antt =====
-- The statuses of errors: `StatusFor` of architecturekit/httpapi/httpapi.go.
use architecturekit_golang.Base.{◌≤◌, ◌≡◌, ◌≢◌, true, ◌||◌, arith, nat_eq, text_has_eq}
use architecturekit_golang.Failure.{outcome_unknown, not_caught_up, Failure, is}
use architecturekit_golang.HttpApi.Statuses.{status_for_error}

-- An error is answered with a status of a failure, at least 400 and at most 503. One that says that
-- the outcome of a write is unknown, or that a view did not catch up with one, never gets a status
-- that invites to try again, or that is not logged: 409, 499, and 503.
pub status_for_error-fails :
    (err : Failure)
    → (400 ≤ status_for_error err)
      × (status_for_error err ≤ 503)
      × ((is outcome_unknown err || is not_caught_up err) ≡ true
          → (status_for_error err ≢ 409)
            × (status_for_error err ≢ 499)
            × (status_for_error err ≢ 503))
unfolding status_for_error
status_for_error-fails err = ground arith

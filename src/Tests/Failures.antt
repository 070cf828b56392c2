-- ===== src/Tests/Failures.antt =====
-- Failures of the database.
use architecturekit_golang.Base.{◌≡◌, refl, true, false, not, [], nat_eq, codes, text_has_eq}
use architecturekit_golang.Failure.{
  transient, permanent, conflict, outcome_unknown, canceled, deadline_exceeded, Failure, sentinel,
  foreign, answered, end, also, is,
}
use architecturekit_golang.Failure.{other_code}
use architecturekit_golang.Failure.Database.{database_failure, write_failure}
use architecturekit_golang.Failure.Category.{
  IsClientError, database_failure_category, failures_hide_context_end,
}

-- A failure of the client that wraps an answer and the end of a context.
abbrev broken : Failure
broken = foreign 1 (
    also
      (answered
        (record { status = 503; code = other_code (codes "x"); description = []; details = [] }))
      (also (sentinel canceled) end))

broken-IsClientError : IsClientError broken
unfolding is
broken-IsClientError = record {
  not_transient = refl;
  not_permanent = refl;
  not_conflict = refl;
  not_outcome_unknown = refl;
}

database_failure_category_on_sample :
    (is permanent (database_failure broken) ≡ not (is transient (database_failure broken)))
    × (is conflict (database_failure broken) ≡ true → is transient (database_failure broken) ≡ true)
    × (is outcome_unknown (database_failure broken) ≡ false)
database_failure_category_on_sample = database_failure_category broken broken-IsClientError

failures_hide_context_end_on_sample :
    (is canceled (database_failure broken) ≡ false)
    × (is deadline_exceeded (database_failure broken) ≡ false)
    × (is canceled (write_failure broken) ≡ false)
    × (is deadline_exceeded (write_failure broken) ≡ false)
failures_hide_context_end_on_sample = failures_hide_context_end broken

-- ===== src/Projection/Verdict.antt =====
-- What WaitCaughtUp answers: `caughtUpVerdict` of architecturekit/projection_run.go.
use architecturekit_golang.Base.{
  ◌≡◌, refl, inl, inr, Option-cases, Bool, true, false, not, ◌&&◌, ◌||◌, Option, none, some, List,
  [], ◌∷◌, arith, if◌then◌else◌, nat_eq, text_has_eq,
}
use architecturekit_golang.Failure.{canceled, Failure, wrap, end, also, wrapping}
use architecturekit_golang.Projection.Status.{ProjectionStatus, is_stopped}

-- `named`
abbrev pub named : Failure → Failure
named err = wrap (also err end)

-- The `switch` after the loop.
unfoldable pub verdict_of : Option Failure → Bool → Bool → Option (Option Failure)
verdict_of ctx_err every_caught_up some_stopped =
    if every_caught_up then some none else elim ctx_err [
      | some err ↦ some (some err)
      | none ↦ if some_stopped then some (some (wrapping canceled)) else none
    ]

unfoldable pub verdict_from :
    Option Failure → Bool → Bool → List ProjectionStatus → Option (Option Failure)
unfolding verdict_of
verdict_from ctx_err every_caught_up some_stopped [] =
    verdict_of ctx_err every_caught_up some_stopped
verdict_from ctx_err every_caught_up some_stopped (status ∷ runs) =
    let caught_up = verdict_from ctx_err every_caught_up some_stopped runs in
    let goes_on = verdict_from ctx_err false some_stopped runs in
    let has_stopped = verdict_from ctx_err false true runs in
    if status.has_caught_up
    then caught_up
    else if not (is_stopped status.phase)
    then goes_on
    else elim status.err [ some err ↦ some (some (named err)) | none ↦ has_stopped ]

-- Whether WaitCaughtUp has an answer yet, and which.
unfoldable pub caught_up_verdict : Option Failure → List ProjectionStatus → Option (Option Failure)
unfolding verdict_from
caught_up_verdict ctx_err runs = verdict_from ctx_err true false runs

abbrev pub every_caught_up : List ProjectionStatus → Bool
every_caught_up [] = true
every_caught_up (status ∷ runs) = status.has_caught_up && every_caught_up runs

-- The error of the first run that ended with one before it caught up.
abbrev pub first_error : List ProjectionStatus → Option Failure
first_error [] = none
first_error (status ∷ runs) =
    let rest = first_error runs in
    if not status.has_caught_up && is_stopped status.phase
    then elim status.err [ some err ↦ some err | none ↦ rest ]
    else rest

-- Some run ended before it caught up.
abbrev pub some_stopped_early : List ProjectionStatus → Bool
some_stopped_early [] = false
some_stopped_early (status ∷ runs) =
    not status.has_caught_up && is_stopped status.phase || some_stopped_early runs

-- The answer if no run has ended with an error before it caught up, case by case.
abbrev by_state : Option Failure → Bool → Bool → Option (Option Failure)
by_state ctx_err true stopped_early = some none
by_state (some err) false stopped_early = some (some err)
by_state none false true = some (some (wrapping canceled))
by_state none false false = none

verdict_of-by_state :
    (ctx_err : Option Failure) (every stopped_early : Bool)
    → verdict_of ctx_err every stopped_early ≡ by_state ctx_err every stopped_early
unfolding verdict_of
verdict_of-by_state ctx_err true stopped_early = refl
verdict_of-by_state (some err) false stopped_early = refl
verdict_of-by_state none false true = refl
verdict_of-by_state none false false = refl

-- The answer by precedence: the first error of a run that ended early, then success, then the
-- error of the context, then a run that was stopped early, and otherwise no answer yet.
abbrev pub answer_by_precedence : Option Failure → List ProjectionStatus → Option (Option Failure)
answer_by_precedence ctx_err runs = elim (first_error runs) [
  | some err ↦ some (some (named err))
  | none ↦ by_state ctx_err (every_caught_up runs) (some_stopped_early runs)
]

verdict_from-general :
    (ctx_err : Option Failure) (every stopped_early : Bool) (runs : List ProjectionStatus)
    → verdict_from ctx_err every stopped_early runs ≡ (elim (first_error runs) [
      | some err ↦ some (some (named err))
      | none ↦
          verdict_of ctx_err
            (every && every_caught_up runs)
            (stopped_early || some_stopped_early runs)
    ])
unfolding verdict_from verdict_of
verdict_from-general ctx_err every stopped_early [] = ground arith
verdict_from-general ctx_err every stopped_early (status ∷ runs) = ground (
  arith,
  verdict_from-general ctx_err every stopped_early runs,
  verdict_from-general ctx_err false stopped_early runs,
  verdict_from-general ctx_err false true runs,
)

-- WaitCaughtUp answers by precedence, whatever has happened when it looks: the first run that
-- ended with an error before it caught up, then that every run has caught up, then the error of
-- the context, then that a run was stopped early; otherwise it waits on.
pub caught_up_verdict-by_precedence :
    (ctx_err : Option Failure) (runs : List ProjectionStatus)
    → caught_up_verdict ctx_err runs ≡ answer_by_precedence ctx_err runs
unfolding caught_up_verdict
caught_up_verdict-by_precedence ctx_err runs = elim (Option-cases (first_error runs)) [
  | inr (err, fails) ↦ ground (arith, verdict_from-general ctx_err true false runs)
  | inl none_failed ↦ ground (
    arith,
    verdict_from-general ctx_err true false runs,
    verdict_of-by_state ctx_err (every_caught_up runs) (some_stopped_early runs),
  )
]

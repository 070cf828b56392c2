-- ===== src/Tests/Commands.antt =====
-- A command whose first write meets a conflict, over a world that counts the writes.
use architecturekit_golang.Base.{
  ℕ, ◌+◌, ◌≤◌, ◌≡◌, refl, ◌⊎◌, true, false, Option, none, some, List, [], ◌∷◌, ◌==◌, if◌then◌else◌,
  nat_eq, Text, codes, text_eq, text_has_eq,
}
use architecturekit_golang.Failure.{
  Failure, answered, precondition_violated, Answer, answer_of, Result, ok, fail,
}
use architecturekit_golang.State.{State, Rule}
use architecturekit_golang.Precondition.{
  Precondition, Sdk, required, on_state_read, check_preconditions, violated_precondition,
  resolve_preconditions,
}
use architecturekit_golang.Precondition.Resolved.{stands_for, violated_precondition-stands_for}
use architecturekit_golang.Store.Execution.{NewEvent, World, execute_once}
use architecturekit_golang.Store.Written.{Attempted, execute_once-Attempted}
use architecturekit_golang.Store.Retries.{Attempts, execute, execute-Attempts, some_on_state_read}

abbrev count_rule : Rule ℕ
count_rule n payload = ok (n + 1)

abbrev counting : State ℕ
counting = record {
  initial = 0;
  rules = (codes "t", count_rule) ∷ [];
  ignored = [];
  upcasters = none;
  from_latest = [];
  clone = none;
  is_value = true;
  shares_initial = false;
}

abbrev sdk : Sdk ℕ
sdk = record {
  is_subject_pristine = λ subject. 0;
  is_subject_populated = λ subject. 1;
  is_subject_on_event_id = λ subject id. 2;
}

abbrev refusal : Answer
refusal = record { status = 409; code = precondition_violated; description = []; details = [] }

abbrev conflicting : Failure
conflicting = answered refusal

abbrev world : World ℕ ℕ ℕ
world = record {
  read = λ writes. (writes, ok (writes, codes "3"));
  write = λ writes cs ps. (writes + 1, if writes == 0 then fail conflicting else ok []);
  ctx_err = λ writes. none;
}

abbrev decide : ℕ → Result (List (Option NewEvent))
decide n = ok (some (record { type = codes "t"; encoded = some [] }) ∷ [])

abbrev declared : List (Precondition ℕ)
declared = on_state_read ∷ []

abbrev no_index : Text → Option ℕ
no_index details = none

-- The second attempt succeeds.
execute_twice : execute world sdk [] counting decide no_index 3 (codes "/a") declared 0 ≡ (2, ok [])
unfolding execute text_eq
execute_twice = refl

execute_once-Attempted_example :
    Attempted world sdk [] counting decide
      (codes "/a")
      declared
      1
      (execute_once world sdk [] counting decide (codes "/a") declared 1)
execute_once-Attempted_example =
    execute_once-Attempted world sdk [] counting decide (codes "/a") declared 1

execute-Attempts_example :
    ((err : Failure) × (check_preconditions declared ≡ fail err)
      × (execute world sdk [] counting decide no_index 3 (codes "/a") declared 0 ≡ (0, fail err)))
    ⊎ ((found : List (Precondition ℕ)) × (n : ℕ) × (check_preconditions declared ≡ ok found)
        × (n ≤ (if some_on_state_read found then 3 else 0))
        × Attempts world sdk [] counting decide no_index
            (codes "/a")
            found
            n
            0
            (execute world sdk [] counting decide no_index 3 (codes "/a") declared 0))
execute-Attempts_example =
    execute-Attempts world sdk [] counting decide no_index 3 (codes "/a") declared 0

abbrev both : List (Precondition ℕ)
both = required (some 7) ∷ on_state_read ∷ []

abbrev names_second : Text → Option ℕ
names_second details = some 1

violated_precondition-stands_for_example :
    (p : Precondition ℕ) × (violated_precondition names_second conflicting both ≡ some p)
    × (some 2 ≡ stands_for sdk (codes "/a") (codes "3") p)
unfolding resolve_preconditions answer_of
violated_precondition-stands_for_example =
    violated_precondition-stands_for sdk names_second (codes "/a") (codes "3") both conflicting
      refusal 1 (some 2) (tt, (tt, tt)) refl refl refl refl

-- ===== src/Failure/Category.antt =====
-- What a caller finds with `errors.Is` in the failures of architecturekit/database_failure.go.
use architecturekit_golang.Base.{
  ℕ, ◌≡◌, refl, true, false, not, ◌⊎◌, inl, inr, some, Text, text_has_eq, nat_eq, arith, Bool-cases,
  Option-cases,
}
use architecturekit_golang.Failure.{
  Sentinel, transient, permanent, conflict, outcome_unknown, canceled, deadline_exceeded, Failure,
  is, is_context_end, Code, no_code, precondition_violated, server_shutting_down, store_read_only,
  indexes_rebuilding, restore_in_progress, disk_full, store_failed, license_invalid,
  capacity_exceeded, event_schema_already_registered, event_schema_violated, other_code,
  incompatible_server,
}
use architecturekit_golang.Failure.Database.{
  cause_of, database_category, database_failure, write_failure, category_of_code,
  category_of_status, code_of, status_of, description_of,
}

-- An error of the client belongs to no category of the kit by itself.
pub record IsClientError (err : Failure) : Type 0 where
  pub not_transient : is transient err ≡ false
  pub not_permanent : is permanent err ≡ false
  pub not_conflict : is conflict err ≡ false
  pub not_outcome_unknown : is outcome_unknown err ≡ false

cause_of-hides :
    (err : Failure)
    → (is canceled (cause_of err) ≡ false) × (is deadline_exceeded (cause_of err) ≡ false)
unfolding cause_of is
cause_of-hides err = ground arith

-- The cause of a failure shows every other error that the failure of the client wraps.
cause_of-keeps :
    (target : Sentinel) (err : Failure)
    → is_context_end target ≡ false
    → is target (cause_of err) ≡ is target err
unfolding cause_of is
cause_of-keeps target err h = ground arith

-- What the category of a failure can be.
abbrev IsCategory : Sentinel → Type 0
IsCategory s = (s ≡ transient) ⊎ (s ≡ permanent) ⊎ (s ≡ conflict)

category_of_status-IsCategory :
    (status : ℕ) (description : Text) → IsCategory (category_of_status status description)
unfolding category_of_status
category_of_status-IsCategory status description = ground arith

category_of_code-IsCategory :
    (code : Code) (s : Sentinel) → category_of_code code ≡ some s → IsCategory s
unfolding category_of_code
category_of_code-IsCategory no_code s h = ground arith
category_of_code-IsCategory precondition_violated s h = ground arith
category_of_code-IsCategory server_shutting_down s h = ground arith
category_of_code-IsCategory store_read_only s h = ground arith
category_of_code-IsCategory indexes_rebuilding s h = ground arith
category_of_code-IsCategory restore_in_progress s h = ground arith
category_of_code-IsCategory disk_full s h = ground arith
category_of_code-IsCategory store_failed s h = ground arith
category_of_code-IsCategory license_invalid s h = ground arith
category_of_code-IsCategory capacity_exceeded s h = ground arith
category_of_code-IsCategory event_schema_already_registered s h = ground arith
category_of_code-IsCategory event_schema_violated s h = ground arith
category_of_code-IsCategory (other_code text) s h = ground arith

database_category-IsCategory : (err : Failure) → IsCategory (database_category err)
unfolding database_category
database_category-IsCategory err = elim (Bool-cases (is incompatible_server err)) [
  | inl incompatible ↦ rw (database_category, incompatible) (inr (inl refl))
  | inr compatible ↦ elim (Option-cases (category_of_code (code_of err))) [
    | inl unknown ↦
        rw (database_category, compatible, unknown)
          (category_of_status-IsCategory (status_of err) (description_of err))
    | inr (s, known) ↦
        rw (database_category, compatible, known)
          (category_of_code-IsCategory (code_of err) s known)
  ]
]

-- A failure of the database is transient or permanent, and never both, so that a caller always
-- learns whether trying again may help; a conflict is transient.
pub database_failure_category :
    (err : Failure)
    → IsClientError err
    → (is permanent (database_failure err) ≡ not (is transient (database_failure err)))
      × (is conflict (database_failure err) ≡ true → is transient (database_failure err) ≡ true)
      × (is outcome_unknown (database_failure err) ≡ false)
unfolding database_failure is
database_failure_category err h = ground (
  arith,
  database_category-IsCategory err,
  cause_of-keeps transient err,
  cause_of-keeps permanent err,
  cause_of-keeps conflict err,
  cause_of-keeps outcome_unknown err,
)

-- No failure of the database or of a write shows the end of a context that the client met on its
-- own way, so that a caller who asks for context.Canceled or context.DeadlineExceeded only finds
-- the end of its own context.
pub failures_hide_context_end :
    (err : Failure)
    → (is canceled (database_failure err) ≡ false)
      × (is deadline_exceeded (database_failure err) ≡ false)
      × (is canceled (write_failure err) ≡ false)
      × (is deadline_exceeded (write_failure err) ≡ false)
unfolding database_failure write_failure is
failures_hide_context_end err = ground (arith, database_category-IsCategory err, cause_of-hides err)

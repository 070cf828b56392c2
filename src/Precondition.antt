-- ===== src/Precondition.antt =====
-- Preconditions of commands and writes: architecturekit/precondition.go, and `writePreconditions`
-- of architecturekit/write.go.
pub mod Resolved
use architecturekit_golang.Base.{
  ℕ, ◌+◌, Bool, true, false, Option, none, some, List, [], ◌∷◌, ◌++◌, arith, ltb, if◌then◌else◌,
  nat_eq, length, get_elem?, Text, text_has_eq,
}
use architecturekit_golang.Failure.{
  permanent, Failure, answer_of, Code, Result, ok, fail, ◌>>=◌, wrapping,
}
use architecturekit_golang.Failure.{precondition_violated}
use architecturekit_golang.Revision.{parse_revision}

-- The constructors of the client for the preconditions that the database checks, over its type P.
pub record Sdk (P : Type 0) : Type 0 where
  pub is_subject_pristine : Text → P
  pub is_subject_populated : Text → P
  pub is_subject_on_event_id : Text → Text → P

-- A precondition by its kind, with the fields that the kind uses; `zero_precondition` is the zero
-- value, and a requirement of nil is `required none`.
pub data Precondition (P : Type 0) : Type 0 where
  required : Option P → Precondition P
  on_state_read : Precondition P
  unconditionally : Precondition P
  on_event_id : Text → Text → Precondition P
  zero_precondition : Precondition P

module _ {P : Type 0} where
  abbrev pub is_on_state_read : Precondition P → Bool
  is_on_state_read on_state_read = true
  is_on_state_read _ = false

  abbrev pub is_unconditional : Precondition P → Bool
  is_unconditional unconditionally = true
  is_unconditional _ = false

  -- `checkEventIDs`
  unfoldable pub check_event_ids : List (Precondition P) → Result (Unit {0})
  check_event_ids [] = ok tt
  check_event_ids (on_event_id subject event_id ∷ declared) =
      parse_revision event_id >>= λ _. check_event_ids declared
  check_event_ids (p ∷ declared) = check_event_ids declared

  -- The case of the loop of `checkPreconditions` for one of `count` preconditions.
  unfoldable pub check_kind : ℕ → Precondition P → Result (Unit {0})
  check_kind count (required none) = fail (wrapping permanent)
  check_kind count (required (some p)) = ok tt
  check_kind count on_state_read = ok tt
  check_kind count unconditionally = if ltb 1 count then fail (wrapping permanent) else ok tt
  check_kind count (on_event_id subject event_id) = ok tt
  check_kind count zero_precondition = fail (wrapping permanent)

  unfoldable pub check_kinds : ℕ → List (Precondition P) → Result (Unit {0})
  unfolding check_kind
  check_kinds count [] = ok tt
  check_kinds count (p ∷ declared) = check_kind count p >>= λ _. check_kinds count declared

  unfoldable pub check_preconditions : List (Precondition P) → Result (List (Precondition P))
  unfolding check_kinds check_event_ids
  check_preconditions [] = fail (wrapping permanent)
  check_preconditions (p ∷ ps) =
      check_kinds (length (p ∷ ps)) (p ∷ ps) >>= λ _. check_event_ids (p ∷ ps) >>= λ _. ok (p ∷ ps)

module _ {P : Type 0} (sdk : Sdk P) where
  -- `Database`
  unfoldable pub database : Precondition P → Option P × Bool
  database (on_event_id subject event_id) =
      (some (sdk.is_subject_on_event_id subject event_id), true)
  database (required p) = (p, true)
  database _ = (none, false)

  unfoldable pub on_pristine_subject : Text → Precondition P
  on_pristine_subject subject = required (some (sdk.is_subject_pristine subject))

  unfoldable pub on_populated_subject : Text → Precondition P
  on_populated_subject subject = required (some (sdk.is_subject_populated subject))

  -- What one declared precondition adds to the resolved ones.
  unfoldable pub resolve_one : Text → Text → Precondition P → List (Option P)
  unfolding database
  resolve_one subject last_event_id (required p) = (database (required p)).0 ∷ []
  resolve_one subject last_event_id (on_event_id s e) = (database (on_event_id s e)).0 ∷ []
  resolve_one subject [] on_state_read = some (sdk.is_subject_pristine subject) ∷ []
  resolve_one subject (c ∷ id) on_state_read =
      some (sdk.is_subject_on_event_id subject (c ∷ id)) ∷ []
  resolve_one subject last_event_id unconditionally = []
  resolve_one subject last_event_id zero_precondition = []

  unfoldable pub resolve_preconditions : Text → List (Precondition P) → Text → List (Option P)
  unfolding resolve_one
  resolve_preconditions subject [] last_event_id = []
  resolve_preconditions subject (p ∷ declared) last_event_id =
      resolve_one subject last_event_id p ++ resolve_preconditions subject declared last_event_id

  -- The case of the loop of `writePreconditions`: what it adds, or why it refuses.
  unfoldable pub resolve_write : ℕ → Precondition P → Result (List (Option P))
  unfolding database
  resolve_write count (required none) = fail (wrapping permanent)
  resolve_write count (required (some p)) = ok (some p ∷ [])
  resolve_write count on_state_read = fail (wrapping permanent)
  resolve_write count unconditionally = if ltb 1 count then fail (wrapping permanent) else ok []
  resolve_write count (on_event_id s e) = ok ((database (on_event_id s e)).0 ∷ [])
  resolve_write count zero_precondition = fail (wrapping permanent)

  unfoldable pub resolve_writes : ℕ → List (Precondition P) → Result (List (Option P))
  unfolding resolve_write
  resolve_writes count [] = ok []
  resolve_writes count (p ∷ declared) = resolve_write count p >>= λ first.
      resolve_writes count declared >>= λ rest. ok (first ++ rest)

  unfoldable pub write_preconditions : List (Precondition P) → Result (List (Option P))
  unfolding resolve_writes check_event_ids
  write_preconditions [] = fail (wrapping permanent)
  write_preconditions (p ∷ ps) = resolve_writes (length (p ∷ ps)) (p ∷ ps) >>= λ resolved.
      check_event_ids (p ∷ ps) >>= λ _. ok resolved

abbrev is_violation : Code → Bool
is_violation precondition_violated = true
is_violation _ = false

-- `index_of` decodes the details of an answer as JSON, and finds the index they hold, if they hold
-- one that is not negative.
module _ {P : Type 0} (index_of : Text → Option ℕ) where
  unfoldable pub violated_precondition : Failure → List (Precondition P) → Option (Precondition P)
  unfolding answer_of
  violated_precondition err declared = elim (answer_of err) [
    | none ↦ none
    | some answer ↦
        if is_violation answer.code
        then (elim (index_of answer.details) [ none ↦ none | some i ↦ get_elem? declared i ])
        else none
  ]

-- ===== src/State.antt =====
-- States of a subject and the rules they evolve by: architecturekit/state.go. A builder that panics
-- returns nothing.
use architecturekit_golang.Base.{
  Bool, true, false, not, ◌||◌, Option, none, some, List, [], ◌∷◌, if◌then◌else◌, nat_eq, Text,
  text_eq, text_has_eq, is_empty, Dict, lookup, assign,
}
use architecturekit_golang.Failure.{permanent, Failure, Result, ok, fail, ◌>>=◌, wrapping}
use architecturekit_golang.Stored.{StoredEvent}
use architecturekit_golang.Upcast.{Upcasters, apply}

-- A rule of a state, on the data of an event.
abbrev pub Rule {ℓ} : Type ℓ → Type ℓ
Rule S = S → Text → Result S

-- `is_value` and `shares_initial` are what reflection finds.
pub record State {ℓ} (S : Type ℓ) : Type ℓ where
  pub initial : S
  pub rules : Dict Text (Rule S)
  pub ignored : List Text
  pub upcasters : Option Upcasters
  pub from_latest : Text
  pub clone : Option (S → S)
  pub is_value : Bool
  pub shares_initial : Bool

abbrev pub contains : Text → List Text → Bool
contains x [] = false
contains x (y ∷ ys) = text_eq x y || contains x ys

-- The history from the latest event of a type on, if there is one.
unfoldable pub since_latest : Text → List StoredEvent → Option (List StoredEvent)
since_latest event_type [] = none
since_latest event_type (stored ∷ history) = elim (since_latest event_type history) [
  | some latest ↦ some latest
  | none ↦ if text_eq stored.type event_type then some (stored ∷ history) else none
]

module _ {ℓ} {S : Type ℓ} where
  -- The rule of `Evolve`, with the decoding of the data, which fails permanently.
  unfoldable pub rule_of {κ} : {E : Type κ} → (Text → Option E) → (S → E → S) → Rule S
  rule_of decode evolve state payload = elim (decode payload) [
    | none ↦ fail (wrapping permanent)
    | some event ↦ ok (evolve state event)
  ]

  -- `Evolve`
  unfoldable pub evolve {κ} :
      {E : Type κ} → Text → (Text → Option E) → (S → E → S) → State S → Option (State S)
  unfolding lookup assign rule_of
  evolve event_type decode change s = elim (lookup event_type s.rules) [
    | some rule ↦ none
    | none ↦ some (record s { rules = assign event_type (rule_of decode change) s.rules })
  ]

  -- `Ignore`
  unfoldable pub ignore : Text → State S → Option (State S)
  unfolding lookup assign
  ignore event_type s = elim (lookup event_type s.rules) [
    | some rule ↦ none
    | none ↦ some (record s {
      rules = assign event_type (λ state payload. ok state) s.rules;
      ignored = event_type ∷ s.ignored;
    })
  ]

  -- `FromLatest`
  unfoldable pub from_latest : Text → State S → Option (State S)
  unfolding lookup
  from_latest event_type s = elim (lookup event_type s.rules) [
    | none ↦ none
    | some rule ↦
        if contains event_type s.ignored
        then none
        else if not (is_empty s.from_latest)
        then none
        else some (record s { from_latest = event_type })
  ]

  -- `isCopyable` and `copyOf`
  unfoldable pub is_copyable : State S → Bool
  is_copyable s = s.is_value || elim s.clone [ none ↦ false | some clone ↦ true ]

  unfoldable pub copy_of : State S → S → S
  copy_of s state = elim s.clone [ none ↦ state | some clone ↦ clone state ]

  -- `copyOfInitial`
  unfoldable pub copy_of_initial : State S → Result S
  unfolding copy_of
  copy_of_initial s = elim s.clone [
    | none ↦ if s.shares_initial then fail (wrapping permanent) else ok (copy_of s s.initial)
    | some clone ↦ ok (copy_of s s.initial)
  ]

  -- `HasRule`
  unfoldable pub has_rule : State S → Text → Bool
  unfolding lookup
  has_rule s event_type = elim (lookup event_type s.rules) [ none ↦ false | some rule ↦ true ]

  -- `checkRules`, on the types of the events.
  unfoldable pub check_rules : State S → List Text → Option Failure
  unfolding has_rule
  check_rules s [] = none
  check_rules s (event_type ∷ events) =
      let rest = check_rules s events in
      if not (has_rule s event_type) then some (wrapping permanent) else rest

  -- The loop over the events that the upcasters return.
  unfoldable pub evolve_each : State S → S → List StoredEvent → Result S
  unfolding lookup
  evolve_each s current [] = ok current
  evolve_each s current (event ∷ events) = elim (lookup event.type s.rules) [
    | none ↦ fail (wrapping permanent)
    | some rule ↦ rule current event.payload >>= λ next. evolve_each s next events
  ]

  -- `evolveByStored`
  unfoldable pub evolve_by_stored : State S → S → StoredEvent → Result S
  unfolding apply evolve_each
  evolve_by_stored s current stored =
      apply s.upcasters stored >>= λ upcasted. evolve_each s current upcasted

  -- The loop over the history of `ReplayStored`.
  unfoldable pub replay_from : State S → S → List StoredEvent → Result S
  unfolding evolve_by_stored
  replay_from s current [] = ok current
  replay_from s current (stored ∷ history) =
      evolve_by_stored s current stored >>= λ next. replay_from s next history

  -- `ReplayStored`
  unfoldable pub replay_stored : State S → List StoredEvent → Result S
  unfolding copy_of_initial since_latest replay_from
  replay_stored s history = copy_of_initial s >>= λ current.
      (if is_empty s.from_latest
        then replay_from s current history
        else elim (since_latest s.from_latest history) [
          | none ↦ replay_from s current history
          | some latest ↦ replay_from s current latest
        ])

  -- `StepStored`, which returns the given state with an error.
  unfoldable pub step_stored : State S → S → StoredEvent → Result S
  unfolding is_copyable copy_of evolve_by_stored
  step_stored s current stored =
      if is_copyable s
      then evolve_by_stored s (copy_of s current) stored
      else fail (wrapping permanent)

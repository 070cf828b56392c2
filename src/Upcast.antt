-- ===== src/Upcast.antt =====
-- Upcasters: architecturekit/upcast.go.
pub mod Chains
use architecturekit_golang.Base.{
  ℕ, zero, suc, ◌+◌, Option, none, some, List, [], ◌∷◌, ◌++◌, arith, nat_eq, Text, text_has_eq,
  Dict, lookup, assign,
}
use architecturekit_golang.Failure.{permanent, Result, ok, fail, ◌>>=◌, wrapping}
use architecturekit_golang.Stored.{StoredEvent}

abbrev pub Upcaster : Type 0
Upcaster = StoredEvent → Result (List StoredEvent)

-- The set of upcasters by event type.
abbrev pub Upcasters : Type 0
Upcasters = Dict Text Upcaster

abbrev pub max_upcast_steps : ℕ
max_upcast_steps = 16

-- `Upcast`: a nil upcaster, or a second one for an event type, panics, which is `none`.
unfoldable pub upcast_with : Text → Option Upcaster → Upcasters → Option Upcasters
unfolding lookup assign
upcast_with from none by_type = none
upcast_with from (some upcaster) by_type = elim (lookup from by_type) [
  | some earlier ↦ none
  | none ↦ some (assign from upcaster by_type)
]

-- The loop over the events that an upcaster has produced.
unfoldable pub apply_each :
    (StoredEvent → Result (List StoredEvent)) → List StoredEvent → Result (List StoredEvent)
apply_each further [] = ok []
apply_each further (next ∷ produced) =
    further next >>= λ first. apply_each further produced >>= λ rest. ok (first ++ rest)

-- The error of an upcaster is only named in the text, not wrapped.
abbrev pub or_permanent : Result (List StoredEvent) → Result (List StoredEvent)
or_permanent (ok events) = ok events
or_permanent (fail e) = fail (wrapping permanent)

unfoldable pub apply_with_budget : Upcasters → ℕ → StoredEvent → Result (List StoredEvent)
unfolding lookup apply_each
apply_with_budget by_type zero event = elim (lookup event.type by_type) [
  | none ↦ ok (event ∷ [])
  | some upcast ↦ fail (wrapping permanent)
]
apply_with_budget by_type (suc budget) event = elim (lookup event.type by_type) [
  | none ↦ ok (event ∷ [])
  | some upcast ↦ or_permanent (upcast event) >>= λ produced.
      apply_each (apply_with_budget by_type budget) produced
]

-- No set at all is `none`.
unfoldable pub apply : Option Upcasters → StoredEvent → Result (List StoredEvent)
unfolding apply_with_budget
apply none event = ok (event ∷ [])
apply (some by_type) event = apply_with_budget by_type max_upcast_steps event

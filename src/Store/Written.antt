-- ===== src/Store/Written.antt =====
-- What a command writes: `executeOnce` of architecturekit/store.go.
use architecturekit_golang.Base.{
  ◌≡◌, refl, inl, inr, true, Option, none, some, List, [], ◌∷◌, arith, Option-cases, nat_eq, Text,
  text_has_eq,
}
use architecturekit_golang.Failure.{Result, Result-cases, ok}
use architecturekit_golang.Stored.{StoredEvent}
use architecturekit_golang.State.{State, check_rules, has_rule}
use architecturekit_golang.Precondition.{Precondition, Sdk, resolve_preconditions}
use architecturekit_golang.Store.Execution.{
  NewEvent, Candidate, World, candidate_for, candidates_for, check_not_nil, types_of, written_or,
  check_events, write_once, execute_once,
}

abbrev pub present_events : List NewEvent → List (Option NewEvent)
present_events [] = []
present_events (event ∷ events) = some event ∷ present_events events

-- The candidate is the event, for the subject, with a rule of the state and with its encoding.
abbrev pub Writes {ℓ} : {S : Type ℓ} → State S → Text → Text → NewEvent → Candidate → Type 0
Writes s source subject event c =
    (c.source ≡ source)
    × (c.subject ≡ subject)
    × (c.type ≡ event.type)
    × (event.encoded ≡ some c.payload)
    × (has_rule s event.type ≡ true)

-- One candidate for each event, in order.
abbrev pub WritesAll {ℓ} :
    {S : Type ℓ} → State S → Text → Text → List NewEvent → List Candidate → Type 0
WritesAll s source subject [] [] = Unit
WritesAll s source subject (event ∷ events) (c ∷ cs) =
    Writes s source subject event c × WritesAll s source subject events cs
WritesAll s source subject _ _ = ⊥

check_not_nil-present :
    (events : List (Option NewEvent)) (present : List NewEvent)
    → check_not_nil events ≡ ok present
    → events ≡ present_events present
unfolding check_not_nil
check_not_nil-present [] present h = ground arith
check_not_nil-present (none ∷ events) present h = ground arith
check_not_nil-present (some event ∷ events) present h = elim (Result-cases (check_not_nil events)) [
  | inl (rest, passes) ↦ ground (arith, check_not_nil-present events rest passes)
  | inr (err, fails) ↦ ground arith
]

candidates_for-WritesAll {ℓ} :
    {S : Type ℓ} (s : State S) (source subject : Text) (events : List NewEvent)
    (cs : List Candidate)
    → check_rules s (types_of events) ≡ none
    → candidates_for source subject events ≡ ok cs
    → WritesAll s source subject events cs
unfolding check_rules candidates_for candidate_for
candidates_for-WritesAll s source subject [] cs rules h =
    let empty : cs ≡ [] = ground arith in rw empty tt
candidates_for-WritesAll s source subject (event ∷ events) cs rules h =
    elim (Option-cases event.encoded) [
      | inl not_encoded ↦ absurd (ground arith)
      | inr (payload, encoded) ↦ elim (Result-cases (candidates_for source subject events)) [
        | inr (err, fails) ↦ absurd (ground arith)
        | inl (rest, done) ↦
            let c : Candidate = record {
              source = source;
              subject = subject;
              type = event.type;
              payload = payload;
            } in
            let all : cs ≡ c ∷ rest = ground arith in
            let known : has_rule s event.type ≡ true = ground arith in
            let others : check_rules s (types_of events) ≡ none = ground arith in
            rw all (
              (refl, refl, refl, encoded, known),
              candidates_for-WritesAll s source subject events rest others done,
            )
      ]
    ]

check_events-WritesAll {ℓ} :
    {S : Type ℓ} (s : State S) (source subject : Text) (events : List (Option NewEvent))
    (cs : List Candidate)
    → check_events s source subject events ≡ ok cs
    → (present : List NewEvent) × (events ≡ present_events present)
      × WritesAll s source subject present cs
unfolding check_events
check_events-WritesAll s source subject events cs h = elim (Result-cases (check_not_nil events)) [
  | inr (err, fails) ↦ absurd (ground arith)
  | inl (present, passes) ↦ elim (Option-cases (check_rules s (types_of present))) [
    | inr (err, refuses) ↦ absurd (ground arith)
    | inl known ↦ (
      present,
      check_not_nil-present events present passes,
      candidates_for-WritesAll s source subject present cs known (ground arith),
    )
  ]
]

module _ {W S P : Type 0} (world : World W S P) (sdk : Sdk P) (source : Text) (s : State S)
    (decide : S → Result (List (Option NewEvent))) (subject : Text) where
  -- What one attempt of a command does: it only reads, or it writes all of the events that were
  -- decided on the state it has read.
  pub data Attempted (declared : List (Precondition P)) (w : W) (r : W × Result (List StoredEvent))
      : Type 0 where
    only_reads : r.0 ≡ (world.read w).0 → Attempted declared w r
    writes_all :
        (state : S) (last : Text) (present : List NewEvent) (cs : List Candidate)
        → (world.read w).1 ≡ ok (state, last)
        → decide state ≡ ok (present_events present)
        → WritesAll s source subject present cs
        → world.ctx_err (world.read w).0 ≡ none
        → r.0
          ≡ (world.write (world.read w).0 cs (resolve_preconditions sdk subject declared last)).0
        → r.1
          ≡ written_or
              (world.write (world.read w).0 cs (resolve_preconditions sdk subject declared last)).1
        → Attempted declared w r

  -- An attempt of Execute writes nothing, or it writes, before the context has ended and under the
  -- preconditions resolved for the event it has read last, one candidate for each of the decided
  -- events, in order, none of which is nil and each of which the state has a rule for.
  pub execute_once-Attempted :
      (declared : List (Precondition P)) (w : W)
      → Attempted declared w (execute_once world sdk source s decide subject declared w)
  unfolding execute_once write_once
  execute_once-Attempted declared w =
      let code = execute_once world sdk source s decide subject declared w in
      elim (Result-cases (world.read w).1) [
        | inr (err, fails) ↦ only_reads (rw (execute_once, fails) refl)
        | inl (found, reads) ↦ elim (Result-cases (decide found.0)) [
          | inr (err, refuses) ↦ only_reads (rw (execute_once, reads, refuses) refl)
          | inl ([], decides) ↦ only_reads (rw (execute_once, reads, decides) refl)
          | inl (event ∷ more, decides) ↦
              elim (Result-cases (check_events s source subject (event ∷ more))) [
                | inr (err, fails) ↦ only_reads (rw (execute_once, reads, decides, fails) refl)
                | inl (cs, passes) ↦ elim (Option-cases (world.ctx_err (world.read w).0)) [
                  | inr (err, ends) ↦
                      only_reads (rw (execute_once, reads, decides, passes, write_once, ends) refl)
                  | inl live ↦
                      let (present, same, all) =
                        check_events-WritesAll s source subject (event ∷ more) cs passes in
                      writes_all found.0 found.1 present cs reads (rw (← same) decides) all live
                        (rw (execute_once, reads, decides, passes, write_once, live) refl)
                        (rw (execute_once, reads, decides, passes, write_once, live) refl)
                ]
              ]
        ]
      ]

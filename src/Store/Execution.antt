-- ===== src/Store/Execution.antt =====
-- Executing a command: `Execute`, `executeOnce` and `write` of architecturekit/store.go.
use architecturekit_golang.Base.{Option, none, some, List, [], ◌∷◌, nat_eq, Text, text_has_eq}
use architecturekit_golang.Failure.{permanent, Failure, Result, ok, fail, ◌>>=◌, wrapping}
use architecturekit_golang.Stored.{StoredEvent}
use architecturekit_golang.State.{State, check_rules}
use architecturekit_golang.Precondition.{Precondition, Sdk, resolve_preconditions}
use architecturekit_golang.Failure.Database.{write_failure, context_ended}

-- An event that a decider returns, and its encoding as JSON, if it can be encoded.
pub record NewEvent : Type 0 where
  pub type : Text
  pub encoded : Option Text

-- eventsourcingdb.EventCandidate
pub record Candidate : Type 0 where
  pub source : Text
  pub subject : Text
  pub type : Text
  pub payload : Text

-- What a command meets, over a state of the world: reading its state, which is `fold`, the client's
-- write, and the error of the context at a moment.
pub record World {ℓ} (W S P : Type ℓ) : Type ℓ where
  pub read : W → W × Result (S × Text)
  pub write : W → List Candidate → List (Option P) → W × Result (List StoredEvent)
  pub ctx_err : W → Option Failure

-- `candidateFor`
unfoldable pub candidate_for : Text → Text → NewEvent → Result Candidate
candidate_for source subject event = elim event.encoded [
  | none ↦ fail (wrapping permanent)
  | some payload ↦
      ok (record { source = source; subject = subject; type = event.type; payload = payload })
]

unfoldable pub candidates_for : Text → Text → List NewEvent → Result (List Candidate)
unfolding candidate_for
candidates_for source subject [] = ok []
candidates_for source subject (event ∷ events) = candidate_for source subject event >>= λ first.
    candidates_for source subject events >>= λ rest. ok (first ∷ rest)

-- `checkNotNil`: an event that is nil is `none`.
unfoldable pub check_not_nil : List (Option NewEvent) → Result (List NewEvent)
check_not_nil [] = ok []
check_not_nil (none ∷ events) = fail (wrapping permanent)
check_not_nil (some event ∷ events) = check_not_nil events >>= λ rest. ok (event ∷ rest)

abbrev pub types_of : List NewEvent → List Text
types_of [] = []
types_of (event ∷ events) = event.type ∷ types_of events

abbrev pub refused : Option Failure → Result (Unit {0})
refused none = ok tt
refused (some err) = fail err

abbrev pub written_or : Result (List StoredEvent) → Result (List StoredEvent)
written_or (ok events) = ok events
written_or (fail err) = fail (write_failure err)

module _ {ℓ} {S : Type ℓ} where
  -- The checks of the events before the write, in the order of `executeOnce`.
  unfoldable pub check_events :
      State S → Text → Text → List (Option NewEvent) → Result (List Candidate)
  unfolding check_not_nil check_rules candidates_for
  check_events s source subject events = check_not_nil events >>= λ present.
      refused (check_rules s (types_of present)) >>= λ _. candidates_for source subject present

module _ {W S P : Type 0} (world : World W S P) (sdk : Sdk P) (source : Text) (s : State S)
    (decide : S → Result (List (Option NewEvent))) (subject : Text) where
  -- From the write on, unless the context has ended.
  unfoldable pub write_once :
      List (Precondition P) → Text → W → List Candidate → W × Result (List StoredEvent)
  unfolding resolve_preconditions context_ended write_failure
  write_once declared last_event_id w candidates =
      let (w', written) =
        world.write w candidates (resolve_preconditions sdk subject declared last_event_id) in
      elim (world.ctx_err w) [
        | some ctx_err ↦ (w, fail (context_ended ctx_err))
        | none ↦ (w', written_or written)
      ]

  -- `executeOnce`
  unfoldable pub execute_once : List (Precondition P) → W → W × Result (List StoredEvent)
  unfolding check_events write_once
  execute_once declared w =
      let (w', folded) = world.read w in
      elim folded [
        | fail err ↦ (w', fail err)
        | ok found ↦ elim (decide found.0) [
          | fail err ↦ (w', fail err)
          | ok events ↦ elim events [
            | [] ↦ (w', ok [])
            | event ∷ more ↦ elim (check_events s source subject (event ∷ more)) [
              | fail err ↦ (w', fail err)
              | ok candidates ↦ write_once declared found.1 w' candidates
            ]
          ]
        ]
      ]

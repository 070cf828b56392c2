-- ===== src/Projection/Folding.antt =====
-- Data and checkpoint that are in step with the events of a stream: architecturekit/projection.go.
use architecturekit_golang.Base.{
  ◌≡◌, refl, none, some, List, [], ◌∷◌, ◌++◌, arith, nat_eq, Text, text_has_eq,
}
use architecturekit_golang.Failure.{Failure}
use architecturekit_golang.Stored.{StoredEvent, Element, arrives, breaks}
use architecturekit_golang.Projection.Drive.{Driven}
use architecturekit_golang.Projection.Transactions.{TransactionalWriter}

-- The data and the checkpoint after some events, each applied once, in order.
abbrev pub folded {ℓ} :
    {D : Type ℓ} → (D → StoredEvent → D) → D × Text → List StoredEvent → D × Text
folded step from [] = from
folded step from (event ∷ events) = folded step (step from.0 event, event.id) events

-- The events that a stream hands out before it breaks off.
abbrev pub events_of : List Element → List StoredEvent
events_of [] = []
events_of (arrives event ∷ elements) = event ∷ events_of elements
events_of (breaks err ctx_err ∷ elements) = []

pub folded-append {ℓ} :
    {D : Type ℓ} (step : D → StoredEvent → D) (from : D × Text) (xs ys : List StoredEvent)
    → folded step from (xs ++ ys) ≡ folded step (folded step from xs) ys
folded-append step from [] ys = refl
folded-append step from (x ∷ xs) ys = folded-append step (step from.0 x, x.id) xs ys

module _ {ℓ} {S T D : Type ℓ} where
  -- Of the events, the first ones are durable, data and checkpoint alike, and all of them are
  -- unless there is an error.
  pub record IsInStep (durable : S → D × Text) (step : D → StoredEvent → D) (from : D × Text)
      (events : List StoredEvent) (driven : Driven (TransactionalWriter S T)) : Type ℓ where
    pub applied : List StoredEvent
    pub left : List StoredEvent
    pub in_order : applied ++ left ≡ events
    pub in_step : durable driven.target.durable ≡ folded step from applied
    pub complete : driven.failure ≡ none → left ≡ []

  pub none_applied :
      (durable : S → D × Text) (step : D → StoredEvent → D) (from : D × Text)
      (events : List StoredEvent) (driven : Driven (TransactionalWriter S T)) (err : Failure)
      → durable driven.target.durable ≡ from
      → driven.failure ≡ some err
      → IsInStep durable step from events driven
  none_applied durable step from events driven err same ends = record {
    applied = [];
    left = events;
    in_order = refl;
    in_step = same;
    complete = λ none_failed. ground arith;
  }

-- ===== src/TypedProjection.antt =====
-- Projections with a handler for each event type: architecturekit/typed_projection.go. What the
-- handlers change is the world, and the number of the part that the context carries is an argument.
-- The time and the trace of an event, which an envelope passes on unread, are left out.
pub mod Dispatch
use architecturekit_golang.Base.{
  ℕ, ◌+◌, Option, none, some, List, [], ◌∷◌, if◌then◌else◌, not, nat_eq, Text, text_eq, text_has_eq,
  Dict, lookup, assign,
}
use architecturekit_golang.Failure.{permanent, Failure, Result, ok, fail, wrapping}
use architecturekit_golang.Stored.{StoredEvent}
use architecturekit_golang.Upcast.{Upcasters}
use architecturekit_golang.Upcast

-- `Envelope`
pub record Envelope {ℓ} (E : Type ℓ) : Type ℓ where
  pub id : Text
  pub source : Text
  pub subject : Text
  pub type : Text
  pub payload : E

-- A handler of events, which gets the number of the part.
abbrev pub Handler {ℓ} : Type ℓ → Type ℓ
Handler W = ℕ → StoredEvent → W → W × Option Failure

-- A handler that a projection is given for an event type.
abbrev pub EnvelopeHandler {ℓ κ} : Type ℓ → Type κ → Type (ℓ ⊔ κ)
EnvelopeHandler W E = ℕ → Envelope E → W → W × Option Failure

pub record TypedProjection {ℓ} (W : Type ℓ) : Type ℓ where
  pub handlers : Dict Text (Handler W)
  pub upcasters : Option Upcasters

abbrev pub new_typed_projection {ℓ} : {W : Type ℓ} → TypedProjection W
new_typed_projection = record { handlers = []; upcasters = none }

-- `Decode`, over the event type of the data and how its JSON is decoded.
unfoldable pub decode {ℓ} :
    {E : Type ℓ} → Text → (Text → Option E) → StoredEvent → Result (Envelope E)
decode event_type unmarshal event =
    if not (text_eq event.type event_type)
    then fail (wrapping permanent)
    else elim (unmarshal event.payload) [
      | none ↦ fail (wrapping permanent)
      | some decoded ↦ ok (record {
        id = event.id;
        source = event.source;
        subject = event.subject;
        type = event.type;
        payload = decoded;
      })
    ]

module _ {ℓ κ} {W : Type ℓ} {E : Type κ} where
  -- The handler that `On` keeps.
  unfoldable pub decoding : Text → (Text → Option E) → EnvelopeHandler W E → Handler W
  unfolding decode
  decoding event_type unmarshal handle part event w = elim (decode event_type unmarshal event) [
    | fail err ↦ (w, some err)
    | ok envelope ↦ handle part envelope w
  ]

  -- `On`, where none is a panic.
  unfoldable pub on :
      Text
      → (Text → Option E)
      → Option (EnvelopeHandler W E)
      → TypedProjection W
      → Option (TypedProjection W)
  unfolding decoding lookup assign
  on event_type unmarshal none p = none
  on event_type unmarshal (some handle) p = elim (lookup event_type p.handlers) [
    | some earlier ↦ none
    | none ↦ some (record p {
      handlers = assign event_type (decoding event_type unmarshal handle) p.handlers;
    })
  ]

module _ {ℓ} {W : Type ℓ} where
  -- `UpcastWith`, where none is a panic.
  unfoldable pub with_upcasters : Option Upcasters → TypedProjection W → Option (TypedProjection W)
  with_upcasters none p = none
  with_upcasters (some upcasters) p = elim p.upcasters [
    | some earlier ↦ none
    | none ↦ some (record p { upcasters = some upcasters })
  ]

  -- What `Apply` does with one part of an event.
  unfoldable pub dispatch : Dict Text (Handler W) → Handler W
  unfolding lookup
  dispatch handlers part event w = elim (lookup event.type handlers) [
    | none ↦ (w, none)
    | some handle ↦ handle part event w
  ]

  -- The loop of `Apply` over the parts of an event.
  unfoldable pub dispatch_each : Handler W → ℕ → List StoredEvent → W → W × Option Failure
  dispatch_each handle part [] w = (w, none)
  dispatch_each handle part (event ∷ events) w =
      let (w', failed) = handle part event w in
      let rest = dispatch_each handle (part + 1) events w' in
      elim failed [ some err ↦ (w', some err) | none ↦ rest ]

  -- `Apply`
  unfoldable pub apply : TypedProjection W → StoredEvent → W → W × Option Failure
  unfolding Upcast.apply dispatch dispatch_each
  apply p event w = elim (Upcast.apply p.upcasters event) [
    | fail err ↦ (w, some err)
    | ok upcasted ↦ dispatch_each (dispatch p.handlers) 0 upcasted w
  ]

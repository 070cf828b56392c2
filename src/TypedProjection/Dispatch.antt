-- ===== src/TypedProjection/Dispatch.antt =====
-- Which handler of a typed projection gets an event: architecturekit/typed_projection.go.
use architecturekit_golang.Base.{
  ℕ, ◌≡◌, refl, sym, subst, ap, fun_ext, inl, inr, true, Option, none, some, List, [], ◌∷◌, ◌+◌,
  arith, Bool-cases, Option-cases, nat_eq, if◌then◌else◌, Text, text_eq, text_eq_iff, text_has_eq,
  Dict, lookup, assign, lookup-assign,
}
use architecturekit_golang.Failure.{permanent, Failure, ok, fail, wrapping}
use architecturekit_golang.Stored.{StoredEvent}
use architecturekit_golang.Upcast
use architecturekit_golang.TypedProjection.{
  Envelope, Handler, EnvelopeHandler, TypedProjection, decode, decoding, on, dispatch,
  dispatch_each, apply,
}

-- How parts of an event are handled one after the other, from a number on, with what is left of the
-- world and the error in the end: all of them, or up to the first one that fails.
pub data HandlesParts {ℓ} {W : Type ℓ} (handle : Handler W)
    : ℕ → List StoredEvent → W → W × Option Failure → Type ℓ where
  handles_all : (part : ℕ) (w : W) → HandlesParts handle part [] w (w, none)
  fails_at :
      (part : ℕ) (event : StoredEvent) (events : List StoredEvent) (w w' : W) (err : Failure)
      → handle part event w ≡ (w', some err)
      → HandlesParts handle part (event ∷ events) w (w', some err)
  goes_on :
      (part : ℕ) (event : StoredEvent) (events : List StoredEvent) (w w' : W)
      (result : W × Option Failure)
      → handle part event w ≡ (w', none)
      → HandlesParts handle (part + 1) events w' result
      → HandlesParts handle part (event ∷ events) w result

module _ {ℓ} {W : Type ℓ} where
  dispatch_each-HandlesParts :
      (handle : Handler W) (part : ℕ) (events : List StoredEvent) (w : W)
      → HandlesParts handle part events w (dispatch_each handle part events w)
  unfolding dispatch_each
  dispatch_each-HandlesParts handle part [] w = handles_all part w
  dispatch_each-HandlesParts handle part (event ∷ events) w =
      let w' = (handle part event w).0 in
      elim (Option-cases (handle part event w).1) [
        | inr (err, fails) ↦
            rw (dispatch_each, fails)
              (fails_at part event events w w' err (ap (λ f. (w', f)) fails))
        | inl passes ↦
            rw (dispatch_each, passes)
              (goes_on part event events w w' _ (ap (λ f. (w', f)) passes)
                (dispatch_each-HandlesParts handle (part + 1) events w'))
      ]

  -- Two handlers that do the same with every event do the same with all parts of one.
  dispatch_each_same :
      (f g : Handler W)
      → ((part : ℕ) (event : StoredEvent) (w : W) → f part event w ≡ g part event w)
      → (part : ℕ) (events : List StoredEvent) (w : W)
      → dispatch_each f part events w ≡ dispatch_each g part events w
  dispatch_each_same f g same part events w =
      ap (λ (h : Handler W). dispatch_each h part events w)
        (fun_ext (λ n. fun_ext (λ event. fun_ext (same n event))))

abbrev pub envelope_of {κ} : {E : Type κ} → StoredEvent → E → Envelope E
envelope_of event payload = record {
  id = event.id;
  source = event.source;
  subject = event.subject;
  type = event.type;
  payload = payload;
}

module _ {ℓ κ} {W : Type ℓ} {E : Type κ} where
  -- An event of the type reaches the handler with its data, and fails permanently if the data cannot
  -- be decoded. Any other one goes where it went before.
  abbrev pub routed : Text → (Text → Option E) → EnvelopeHandler W E → Handler W → Handler W
  routed event_type unmarshal handle before part event w =
      if text_eq event_type event.type
      then elim (unmarshal event.payload) [
        | none ↦ (w, some (wrapping permanent))
        | some payload ↦ handle part (envelope_of event payload) w
      ]
      else before part event w

  decoding_same :
      (event_type : Text) (unmarshal : Text → Option E) (handle : EnvelopeHandler W E) (part : ℕ)
      (event : StoredEvent) (w : W) (before : Handler W)
      → text_eq event_type event.type ≡ true
      → decoding event_type unmarshal handle part event w
        ≡ routed event_type unmarshal handle before part event w
  unfolding decoding decode
  decoding_same event_type unmarshal handle part event w before same =
      let back : text_eq event.type event_type ≡ true =
        (text_eq_iff event.type event_type).1 (sym ((text_eq_iff event_type event.type).0 same)) in
      elim (Option-cases (unmarshal event.payload)) [
        | inl broken ↦ rw (decoding, decode, same, back, broken) refl
        | inr (payload, decoded) ↦ rw (decoding, decode, same, back, decoded) refl
      ]

  on_is :
      (event_type : Text) (unmarshal : Text → Option E) (handle : EnvelopeHandler W E)
      (p p' : TypedProjection W)
      → on event_type unmarshal (some handle) p ≡ some p'
      → p' ≡ record p {
        handlers = assign event_type (decoding event_type unmarshal handle) p.handlers;
      }
  unfolding on
  on_is event_type unmarshal handle p p' h = elim (Option-cases (lookup event_type p.handlers)) [
    | inl absent ↦ ground arith
    | inr (earlier, present) ↦ absurd (ground arith)
  ]

  dispatch-on :
      (event_type : Text) (unmarshal : Text → Option E) (handle : EnvelopeHandler W E)
      (handlers : Dict Text (Handler W)) (part : ℕ) (event : StoredEvent) (w : W)
      → dispatch (assign event_type (decoding event_type unmarshal handle) handlers) part event w
        ≡ routed event_type unmarshal handle (dispatch handlers) part event w
  unfolding dispatch
  dispatch-on event_type unmarshal handle handlers part event w =
      let found =
        lookup-assign event_type event.type (decoding event_type unmarshal handle) handlers in
      elim (Bool-cases (text_eq event_type event.type)) [
        | inl same ↦ ground (
          arith,
          found,
          decoding_same event_type unmarshal handle part event w (dispatch handlers) same,
        )
        | inr other ↦ ground (arith, found)
      ]

  -- What registering a handler makes of the handling of one part.
  abbrev pub handled_with :
      Text → (Text → Option E) → EnvelopeHandler W E → Dict Text (Handler W) → Handler W
  handled_with event_type unmarshal handle handlers =
      routed event_type unmarshal handle (λ part event w. elim (lookup event.type handlers) [
        | none ↦ (w, none)
        | some handle' ↦ handle' part event w
      ])

  -- With a handler that On has registered, Apply hands every part that upcasting makes of an event,
  -- in order and with its number, to that handler if it is of the type, with the decoded payload, and
  -- to the handler of its own type otherwise, if there is one. It ends at the first part that fails,
  -- permanently for a payload that cannot be decoded, and an error of upcasting leaves everything as
  -- it is.
  pub apply-on :
      (event_type : Text) (unmarshal : Text → Option E) (handle : EnvelopeHandler W E)
      (p p' : TypedProjection W) (event : StoredEvent) (w : W)
      → on event_type unmarshal (some handle) p ≡ some p'
      → ((err : Failure)
          → Upcast.apply p.upcasters event ≡ fail err
          → apply p' event w ≡ (w, some err))
        × ((parts : List StoredEvent)
            → Upcast.apply p.upcasters event ≡ ok parts
            → HandlesParts
                (handled_with event_type unmarshal handle p.handlers)
                0
                parts
                w
                (apply p' event w))
  unfolding apply dispatch
  apply-on event_type unmarshal handle p p' event w registers =
      rw (on_is event_type unmarshal handle p p' registers) (
        λ err fails. rw (apply, fails) refl,
        λ parts upcasts.
            rw (apply, upcasts)
              (subst (HandlesParts (handled_with event_type unmarshal handle p.handlers) 0 parts w)
                (sym (
                  dispatch_each_same _ _ (dispatch-on event_type unmarshal handle p.handlers) 0
                    parts w))
                (dispatch_each-HandlesParts (handled_with event_type unmarshal handle p.handlers) 0
                  parts w)),
      )

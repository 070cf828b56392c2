-- ===== src/Tests/Dispatches.antt =====
-- A typed projection that records the payloads that it gets, with the numbers of their parts.
use architecturekit_golang.Base.{
  ℕ, ◌≡◌, refl, Option, none, some, List, [], ◌∷◌, ◌++◌, nat_eq, Text, codes, text_eq, text_has_eq,
  lookup, assign,
}
use architecturekit_golang.Failure.{Failure, ok, fail}
use architecturekit_golang.Stored.{StoredEvent}
use architecturekit_golang.Upcast.{Upcasters, Upcaster}
use architecturekit_golang.Upcast
use architecturekit_golang.TypedProjection.{TypedProjection, EnvelopeHandler, on, decoding, apply}
use architecturekit_golang.TypedProjection.Dispatch.{HandlesParts, handled_with, apply-on}

abbrev with_type : Text → Text → StoredEvent
with_type type payload = record {
  id = codes "4";
  source = [];
  subject = codes "/a";
  type = type;
  payload = payload;
}

-- An old event becomes one of another type, and one of the new type.
abbrev split : Upcaster
split event = ok (with_type (codes "other") [] ∷ with_type (codes "new") event.payload ∷ [])

abbrev before : TypedProjection (List (ℕ × Text))
before = record { handlers = []; upcasters = some ((codes "old", split) ∷ []) }

abbrev record_payload : EnvelopeHandler (List (ℕ × Text)) Text
record_payload part envelope w = (w ++ (part, envelope.payload) ∷ [], none)

abbrev unmarshal : Text → Option Text
unmarshal payload = some payload

abbrev after : TypedProjection (List (ℕ × Text))
after = record {
  handlers = (codes "new", decoding (codes "new") unmarshal record_payload) ∷ [];
  upcasters = some ((codes "old", split) ∷ []);
}

registers : on (codes "new") unmarshal (some record_payload) before ≡ some after
unfolding on lookup assign
registers = refl

-- The second part reaches the handler.
handles_part : apply after (with_type (codes "old") (codes "x")) [] ≡ ((1, codes "x") ∷ [], none)
unfolding apply text_eq decoding
handles_part = refl

abbrev old_event : StoredEvent
old_event = with_type (codes "old") (codes "x")

apply-on_example :
    ((err : Failure)
      → Upcast.apply before.upcasters old_event ≡ fail err
      → apply after old_event [] ≡ ([], some err))
    × ((parts : List StoredEvent)
        → Upcast.apply before.upcasters old_event ≡ ok parts
        → HandlesParts
            (handled_with (codes "new") unmarshal record_payload before.handlers)
            0
            parts
            []
            (apply after old_event []))
apply-on_example =
    apply-on (codes "new") unmarshal record_payload before after old_event [] registers

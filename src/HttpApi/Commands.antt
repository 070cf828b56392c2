-- ===== src/HttpApi/Commands.antt =====
-- Commands: `UserOf`, `Handle`, `build`, `Route`, `Adding`, and `Respond` of
-- architecturekit/httpapi/httpapi.go, and `respondResultAt` of architecturekit/httpapi/query.go.
use architecturekit_golang.Base.{
  Option, none, some, List, [], ◌∷◌, ◌++◌, if◌then◌else◌, nat_eq, Text, codes, text_has_eq,
  is_empty, Dict, lookup, assign,
}
use architecturekit_golang.Failure.{unauthorized, http_panic, Failure, foreign, end, wrapping_cause}
use architecturekit_golang.Stored.{StoredEvent}
use architecturekit_golang.Revision.{revision_of}
use architecturekit_golang.HttpApi.{
  Called, returns, errs, panics, aborts, ◌then◌, recovered, Request, Logged, incomplete, no_store,
  private_no_cache, encoded, says, Response, Served, answers, aborted,
}
use architecturekit_golang.HttpApi.Statuses.{
  status_for_error, message_for, logged_for, has_category, before_running, categorise,
}
use architecturekit_golang.HttpApi.Bodies.{Decoding, body_of}

module _ {ℓ} {U : Type ℓ} where
  -- An error of `userFrom`, as `UserOf` returns it.
  abbrev pub as_unauthorized : Called U → Called U
  as_unauthorized (errs err) =
      errs (if has_category err then before_running err else wrapping_cause unauthorized err)
  as_unauthorized call = call

  -- `UserOf`
  unfoldable pub user_of : (Request → Called U) → Request → Called U
  unfolding has_category before_running
  user_of user_from r = as_unauthorized (user_from r)

module _ {ℓ} {B : Type ℓ} where
  abbrev pub categorised : Called B → Called B
  categorised (errs err) = errs (categorise err)
  categorised call = call

module _ {ℓ} {U A B : Type ℓ} where
  -- `build`
  unfoldable pub build :
      (Request → Called U) → Decoding A → (Request → A → U → Called B) → Request → Called B
  unfolding user_of body_of categorise
  build user_from decoding to r =
      user_of user_from r
      then (λ user. body_of decoding r then (λ request. categorised (to r request user)))

-- `Handled`, with the error that comes along with it; the command is none where it is the zero
-- value.
pub record Handled {ℓ} (C : Type ℓ) : Type ℓ where
  pub command : Option C
  pub events : Called (List StoredEvent)

-- `errNoStore`
abbrev pub no_store_error : Failure
no_store_error = foreign 1 end

module _ {ℓ} {C : Type ℓ} where
  -- `Handle`, from `build` on, with what Execute does if the API has a store.
  unfoldable pub handle : Option (C → Called (List StoredEvent)) → Called C → Handled C
  handle store (returns command) = record {
    command = some command;
    events = elim store [ none ↦ errs no_store_error | some execute ↦ recovered (execute command) ];
  }
  handle store (errs err) = record { command = none; events = errs err }
  handle store (panics value) = record { command = none; events = errs (http_panic value) }
  handle store aborts = record { command = none; events = aborts }

-- `encodeResult`, over `jsonv2.Marshal`; its error does not wrap the one of encoding.
unfoldable pub encode_result {ℓ} : {R : Type ℓ} → (R → Called Text) → R → Called Text
encode_result encode result = elim (encode result) [
  | returns bytes ↦ returns (bytes ++ b'\n' ∷ [])
  | errs err ↦ errs (foreign 0 end)
  | panics value ↦ errs (http_panic value)
  | aborts ↦ aborts
]

-- The answer to an error.
unfoldable pub answer_error : Failure → List Logged → Served
unfolding message_for status_for_error logged_for
answer_error err logged =
    let status = status_for_error err in
    answers
      record {
        status = status;
        cache_control = no_store;
        revision = [];
        etag = [];
        content = says (message_for status err);
      }
      (logged ++ logged_for status err)

-- The answer with a body, and with the headers of `writeRevision`.
unfoldable pub answer_with : Text → Text → Text → Response
answer_with revision tag body =
    if is_empty revision
    then record {
      status = 200;
      cache_control = no_store;
      revision = [];
      etag = [];
      content = encoded body;
    }
    else record {
      status = 200;
      cache_control = private_no_cache;
      revision = revision;
      etag = tag;
      content = encoded body;
    }

-- `respondResultAt`, with what was logged before; an abort while encoding goes on, and a panic
-- before, which `answerPanic` answers, is answered the same way.
unfoldable pub respond_result_at {ℓ} :
    {R : Type ℓ} → (R → Called Text) → Text → Text → List Logged → Called R → Served
unfolding answer_error encode_result answer_with
respond_result_at encode revision tag logged (errs err) = answer_error err logged
respond_result_at encode revision tag logged (panics value) = answer_error (http_panic value) logged
respond_result_at encode revision tag logged aborts = aborted
respond_result_at encode revision tag logged (returns result) = elim (encode_result encode result) [
  | returns body ↦ answers (answer_with revision tag body) logged
  | errs err ↦ answer_error err logged
  | panics value ↦ answer_error (http_panic value) logged
  | aborts ↦ aborted
]

-- What the function of Adding returns: a value, and an error that may come along with it.
pub record Added {ℓ} (V : Type ℓ) : Type ℓ where
  pub value : V
  pub failure : Option Failure

-- How the fields of an answer are encoded, and decoded as an object, null being one without fields.
pub record FieldCoding {ℓ} (V J : Type ℓ) : Type ℓ where
  pub encode : V → Called Text
  pub decode_object : Text → Option (Dict Text J)

abbrev pub revision_key : Text
revision_key = codes "revision"

abbrev pub unless_revision {ℓ} : {J : Type ℓ} → Option J → Dict Text J → Called (Dict Text J)
unless_revision none fields = returns fields
unless_revision (some revision) fields = errs (foreign 0 end)

-- `fieldsOf`
unfoldable pub fields_of {ℓ} : {V J : Type ℓ} → FieldCoding V J → V → Called (Dict Text J)
fields_of coding value = elim (coding.encode value) [
  | errs err ↦ errs (foreign 0 end)
  | panics stack ↦ errs (http_panic stack)
  | aborts ↦ aborts
  | returns bytes ↦ elim (coding.decode_object bytes) [
    | none ↦ errs (foreign 0 end)
    | some fields ↦ unless_revision (lookup revision_key fields) fields
  ]
]

-- The fields of an answer, with what is logged.
abbrev pub Fields {ℓ} : Type ℓ → Type ℓ
Fields J = Called (Dict Text J) × List Logged

module _ {ℓ} {J : Type ℓ} where
  -- What `fieldsFor` makes of the fields that come along with an error.
  abbrev pub despite : Failure → Called (Dict Text J) → Fields J
  despite failure (errs dropped) = (returns [], incomplete failure (some dropped) ∷ [])
  despite failure (returns fields) = (returns fields, incomplete failure none ∷ [])
  despite failure call = (call, [])

module _ {ℓ} {V J : Type ℓ} where
  -- `fieldsFor`, after the function of Adding.
  unfoldable pub fields_for : FieldCoding V J → Added V → Fields J
  unfolding fields_of
  fields_for coding added = elim added.failure [
    | none ↦ (fields_of coding added.value, [])
    | some failure ↦ despite failure (fields_of coding added.value)
  ]

-- What a route is wired with, apart from its pattern.
pub record Route {ℓ} (U A C V J : Type ℓ) : Type ℓ where
  pub user_from : Request → Called U
  pub decoding : Decoding A
  pub to_command : Request → A → U → Called C
  pub store : Option (C → Called (List StoredEvent))
  pub adding : Option (C → List StoredEvent → Called (Added V))
  pub coding : FieldCoding V J
  pub text_value : Text → J
  pub encode_answer : Dict Text J → Called Text

module _ {ℓ} {J : Type ℓ} where
  -- `maps.Copy`
  unfoldable pub copy_into : Dict Text J → Dict Text J → Dict Text J
  copy_into into [] = into
  copy_into into ((key, value) ∷ fields) = copy_into (assign key value into) fields

  -- `respond`
  unfoldable pub respond :
      (Text → J) → (Dict Text J → Called Text) → List StoredEvent → Fields J → Served
  unfolding respond_result_at copy_into revision_of
  respond text_value encode written (fields, logged) = respond_result_at encode [] [] logged (
      fields then (λ found.
        returns (copy_into ((revision_key, text_value (revision_of written)) ∷ []) found)))

module _ {ℓ} {U A C V J : Type ℓ} where
  -- `fieldsFor` of a route.
  unfoldable pub fields_after : Route U A C V J → Option C → List StoredEvent → Fields J
  unfolding fields_for
  fields_after route (some command) events = elim route.adding [
    | none ↦ (returns [], [])
    | some adding ↦ elim (adding command events) [
      | returns added ↦ fields_for route.coding added
      | errs err ↦ (errs err, [])
      | panics value ↦ (panics value, [])
      | aborts ↦ (aborts, [])
    ]
  ]
  fields_after route none events = (returns [], [])

  -- What the handler of `Route` answers once the command is handled.
  unfoldable pub serve_handled : Route U A C V J → Handled C → Served
  unfolding respond answer_error fields_after
  serve_handled route handled = elim handled.events [
    | returns events ↦
        respond route.text_value route.encode_answer events
          (fields_after route handled.command events)
    | errs err ↦ answer_error err []
    | panics value ↦ answer_error (http_panic value) []
    | aborts ↦ aborted
  ]

  -- The handler that `Route` wires up.
  unfoldable pub serve_command : Route U A C V J → Request → Served
  unfolding handle build serve_handled
  serve_command route r =
      serve_handled route
        (handle route.store (build route.user_from route.decoding route.to_command r))

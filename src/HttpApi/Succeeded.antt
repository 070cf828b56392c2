-- ===== src/HttpApi/Succeeded.antt =====
-- The answers to commands: `Route`, `fieldsFor`, and `respond` of
-- architecturekit/httpapi/httpapi.go.
use architecturekit_golang.Base.{
  ◌≤◌, ◌⊎◌, All, Exists, ◌≡◌, ◌≢◌, inl, inr, Option, none, some, List, [], nat_eq, Text,
  text_has_eq, Dict, lookup,
}
use architecturekit_golang.Failure.{http_panic, Failure}
use architecturekit_golang.Stored.{StoredEvent}
use architecturekit_golang.Revision.{reached, HasId}
use architecturekit_golang.HttpApi.{Called, returns, Request}
use architecturekit_golang.HttpApi.Commands.{
  Route, build, handle, respond, serve_command, serve_handled, fields_after, Fields, FieldCoding,
  revision_key,
}
use architecturekit_golang.HttpApi.Answers.{
  AnswersProperly, answer_error-AnswersProperly, respond_result_at-AnswersProperly, Called-cases,
}

module _ {ℓ} {J : Type ℓ} where
  respond-AnswersProperly :
      (text_value : Text → J) (encode : Dict Text J → Called Text) (written : List StoredEvent)
      (fields : Fields J)
      → AnswersProperly (respond text_value encode written fields)
  unfolding respond
  respond-AnswersProperly text_value encode written (fields, logged) =
      respond_result_at-AnswersProperly encode [] [] logged _

-- The answer holds the highest ID of the events under the key of the revision.
abbrev pub TellsRevision {ℓ} : {J : Type ℓ} → (Text → J) → List StoredEvent → Dict Text J → Type ℓ
TellsRevision text_value events answer =
    (revision : Text) × All (λ event. reached event.id ≤ reached revision) events
    × ((revision ≡ []) ⊎ Exists (HasId revision) events)
    × (lookup revision_key answer ≡ some (text_value revision))

module _ {ℓ} {V J : Type ℓ} where
  -- The value is encoded as an object of these fields, none of which is a revision.
  abbrev pub IsObject : FieldCoding V J → V → Dict Text J → Type ℓ
  IsObject coding value fields =
      (bytes : Text) × (coding.encode value ≡ returns bytes)
      × (coding.decode_object bytes ≡ some fields)
      × (lookup revision_key fields ≡ none)

  -- The fields come along, or are dropped, which is told, as the value is no such object.
  abbrev pub ComesAlong : FieldCoding V J → V → Option Failure → Dict Text J → Type ℓ
  ComesAlong coding value dropped fields =
      (IsObject coding value fields × (dropped ≡ none))
      ⊎ ((fields ≡ [])
          × (dropped ≢ none)
          × ((others : Dict Text J) → IsObject coding value others → ⊥))

  -- Besides the revision, the answer holds the fields that come along.
  abbrev pub TellsFields : FieldCoding V J → V → Option Failure → Dict Text J → Type ℓ
  TellsFields coding value dropped answer =
      (fields : Dict Text J) × ComesAlong coding value dropped fields
      × ((key : Text) → key ≢ revision_key → lookup key answer ≡ lookup key fields)

module _ {ℓ} {U A C V J : Type ℓ} where
  -- Every answer to a command has a status that goes with its content, and no cache may keep it, nor
  -- does it carry a revision or a tag in its headers.
  pub serve_command-AnswersProperly :
      (route : Route U A C V J) (r : Request) → AnswersProperly (serve_command route r)
  unfolding serve_command serve_handled
  serve_command-AnswersProperly route r =
      let handled = handle route.store (build route.user_from route.decoding route.to_command r) in
      elim (Called-cases handled.events) [
        | inl (events, e) ↦
            rw (serve_command, serve_handled, e)
              (respond-AnswersProperly route.text_value route.encode_answer events
                (fields_after route handled.command events))
        | inr (inl (err, e)) ↦
            rw (serve_command, serve_handled, e) (answer_error-AnswersProperly err [])
        | inr (inr (inl (value, e))) ↦
            rw (serve_command, serve_handled, e)
              (answer_error-AnswersProperly (http_panic value) [])
        | inr (inr (inr e)) ↦ rw (serve_command, serve_handled, e) tt
      ]

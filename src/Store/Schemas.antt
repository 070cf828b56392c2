-- ===== src/Store/Schemas.antt =====
-- The registration of schemas: `RegisterSchemas`, `collectSchemas`, `readRegisteredSchemas`,
-- `checkRegisteredSchema`, and `isSameSchema` of architecturekit/store.go, over any type of schemas
-- and over the state of the database.
use architecturekit_golang.Base.{
  Bool, true, false, not, Option, none, some, List, [], ◌∷◌, ◌++◌, if◌then◌else◌, nat_eq, Text,
  text_eq, text_has_eq, Dict, lookup, assign,
}
use architecturekit_golang.Failure.{permanent, Failure, Result, ok, fail, ◌>>=◌, wrapping}
use architecturekit_golang.Failure.Database.{
  database_failure, read_failure, context_ended, is_schema_conflict, schema_refusal,
}

-- `EventSchema`; the schema may be nil.
pub record EventSchema {ℓ} (J : Type ℓ) : Type ℓ where
  pub event_type : Text
  pub schema : Option J

-- What ReadEventTypes hands out: an event type with its schema, if it has one, or an error, with the
-- error of the context at that moment.
pub data TypeElement {ℓ} (J : Type ℓ) : Type ℓ where
  has_type : Text → Option J → TypeElement J
  type_breaks : Failure → Option Failure → TypeElement J

-- The calls of the client, over the state of the database, and the context.
pub record SchemaClient {ℓ} (W J : Type ℓ) : Type ℓ where
  pub ctx_err : W → Option Failure
  pub register : W → Text → J → W × Option Failure
  pub read_types : W → W × List (TypeElement J)

abbrev pub unless_same : Result Bool → Option Failure
unless_same (fail err) = some (wrapping permanent)
unless_same (ok true) = none
unless_same (ok false) = some (wrapping permanent)

module _ {ℓ} {J : Type ℓ} where
  -- `isSameSchema`, over how `json.Marshal` encodes a schema.
  unfoldable pub is_same_schema : (J → Result Text) → J → J → Result Bool
  is_same_schema encode left right = encode left >>= (λ encoded_left.
      encode right >>= (λ encoded_right. ok (text_eq encoded_left encoded_right)))

  -- `checkRegisteredSchema`
  unfoldable pub check_registered_schema : (J → Result Text) → J → J → Option Failure
  unfolding is_same_schema
  check_registered_schema encode schema registered =
      unless_same (is_same_schema encode schema registered)

  -- The loops of `collectSchemas`, over the groups one after the other, with the types seen and the
  -- schemas collected so far.
  unfoldable pub collect_from :
      (J → Result Text)
      → List (EventSchema J)
      → Dict Text J
      → List (Text × J)
      → Result (List (Text × J))
  unfolding check_registered_schema
  collect_from encode [] seen collected = ok collected
  collect_from encode (given ∷ group) seen collected = elim given.schema [
    | none ↦ fail (wrapping permanent)
    | some schema ↦ elim (lookup given.event_type seen) [
      | some earlier ↦ elim (check_registered_schema encode earlier schema) [
        | some err ↦ fail err
        | none ↦ collect_from encode group seen collected
      ]
      | none ↦
          collect_from encode group (assign given.event_type schema seen)
            (collected ++ (given.event_type, schema) ∷ [])
    ]
  ]

  unfoldable pub flatten : List (List (EventSchema J)) → List (EventSchema J)
  flatten [] = []
  flatten (group ∷ groups) = group ++ flatten groups

  -- `collectSchemas`
  unfoldable pub collect_schemas :
      (J → Result Text) → List (List (EventSchema J)) → Result (List (Text × J))
  unfolding collect_from flatten
  collect_schemas encode groups = collect_from encode (flatten groups) [] []

  abbrev pub with_schema : Text → Option J → Dict Text J → Dict Text J
  with_schema event_type none registered = registered
  with_schema event_type (some schema) registered = assign event_type schema registered

  -- `readRegisteredSchemas`
  unfoldable pub registered_from : List (TypeElement J) → Dict Text J → Result (Dict Text J)
  registered_from [] registered = ok registered
  registered_from (type_breaks err ctx_err ∷ elements) registered = fail (read_failure ctx_err err)
  registered_from (has_type event_type schema ∷ elements) registered =
      registered_from elements (with_schema event_type schema registered)

module _ {ℓ} {W J : Type ℓ} where
  abbrev pub read_registered : SchemaClient W J → W → W × Result (Dict Text J)
  read_registered client w =
      let (w', elements) = client.read_types w in (w', registered_from elements [])

  -- The check of a schema that is registered.
  unfoldable pub check_then :
      (J → Result Text)
      → (Dict Text J → W → W × Option Failure)
      → J
      → J
      → Dict Text J
      → W
      → W × Option Failure
  unfolding check_registered_schema
  check_then encode rest schema current registered w =
      elim (check_registered_schema encode schema current) [
        | some err ↦ (w, some err)
        | none ↦ rest registered w
      ]

  -- What follows a refusal: the registered schemas are read again.
  unfoldable pub after_refusal :
      SchemaClient W J
      → (J → Result Text)
      → (Dict Text J → W → W × Option Failure)
      → Text
      → J
      → Failure
      → W
      → W × Option Failure
  unfolding check_then registered_from
  after_refusal client encode rest event_type schema refusal w =
      if not (is_schema_conflict refusal)
      then (w, some (database_failure refusal))
      else (let (w', read) = read_registered client w in
          elim read [
            | fail err ↦ (w', some err)
            | ok registered ↦ elim (lookup event_type registered) [
              | none ↦ (w', some (schema_refusal refusal))
              | some current ↦ check_then encode rest schema current registered w'
            ]
          ])

  -- The registration of a schema whose event type has none.
  unfoldable pub register_new :
      SchemaClient W J
      → (J → Result Text)
      → (Dict Text J → W → W × Option Failure)
      → Text
      → J
      → Dict Text J
      → W
      → W × Option Failure
  unfolding after_refusal
  register_new client encode rest event_type schema registered w = elim (client.ctx_err w) [
    | some ctx_err ↦ (w, some (context_ended ctx_err))
    | none ↦
        let (w', refused) = client.register w event_type schema in
        elim refused [
          | none ↦ rest registered w'
          | some refusal ↦ after_refusal client encode rest event_type schema refusal w'
        ]
  ]

  -- The loop of `RegisterSchemas`.
  unfoldable pub register_from :
      SchemaClient W J → (J → Result Text) → List (Text × J) → Dict Text J → W → W × Option Failure
  unfolding register_new check_then
  register_from client encode [] registered w = (w, none)
  register_from client encode ((event_type, schema) ∷ given) registered w =
      elim (lookup event_type registered) [
        | some current ↦
            check_then encode (register_from client encode given) schema current registered w
        | none ↦
            register_new client encode (register_from client encode given) event_type schema
              registered w
      ]

  -- `RegisterSchemas`
  unfoldable pub register_schemas :
      SchemaClient W J → (J → Result Text) → List (List (EventSchema J)) → W → W × Option Failure
  unfolding collect_schemas register_from registered_from
  register_schemas client encode groups w = elim (collect_schemas encode groups) [
    | fail err ↦ (w, some err)
    | ok given ↦
        let (w', read) = read_registered client w in
        elim read [
          | fail err ↦ (w', some err)
          | ok registered ↦ register_from client encode given registered w'
        ]
  ]

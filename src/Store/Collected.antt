-- ===== src/Store/Collected.antt =====
-- The schemas that `collectSchemas` of architecturekit/store.go returns, and what `RegisterSchemas`
-- makes of them.
use architecturekit_golang.Base.{
  ◌≡◌, refl, sym, ◌∙◌, subst, ◌⊎◌, inl, inr, Option, none, some, List, [], ◌∷◌, ◌++◌, arith,
  Bool-cases, Option-cases, nat_eq, All, All-map_implies, Text, text_eq, text_eq_iff, text_has_eq,
  Dict, lookup, assign, lookup-assign,
}
use architecturekit_golang.Failure.{Failure, Result, Result-cases, ok}
use architecturekit_golang.Store.Schemas.{
  EventSchema, SchemaClient, check_registered_schema, collect_from, flatten, collect_schemas,
  read_registered, register_from, register_schemas,
}
use architecturekit_golang.Store.Comparison.{
  Among, append-Among_left, append-Among_last, Among-All, same_sound,
}
use architecturekit_golang.Store.Registered.{
  IsSchemaStore, reads_held, IsHeldAs, register_from-Succeeds,
}

module _ {ℓ} {J : Type ℓ} (encode : J → Result Text) where
  -- A given schema is among those collected, or one that is the same.
  abbrev IsCovered : List (Text × J) → EventSchema J → Type ℓ
  IsCovered collected given =
      (j k : J) × (given.schema ≡ some j)
      × Among (given.event_type, k) collected
      × ((k ≡ j) ⊎ (check_registered_schema encode k j ≡ none))

  abbrev IsSeen : Dict Text J → List (Text × J) → Type ℓ
  IsSeen seen collected = (t : Text) (j : J) → lookup t seen ≡ some j → Among (t, j) collected

  nothing-IsSeen : IsSeen [] []
  unfolding lookup
  nothing-IsSeen t j h = absurd (ground arith)

  grown-IsSeen :
      (seen : Dict Text J) (collected : List (Text × J)) (t : Text) (schema : J)
      → IsSeen seen collected
      → IsSeen (assign t schema seen) (collected ++ (t, schema) ∷ [])
  grown-IsSeen seen collected t schema h u j found = elim (Bool-cases (text_eq t u)) [
    | inl same ↦
        let it_is : schema ≡ j = ground (arith, lookup-assign t u schema seen) in
        subst (λ x. Among x (collected ++ (t, schema) ∷ []))
          (ground (arith, it_is, (text_eq_iff t u).0 same))
          (append-Among_last (t, schema) collected)
    | inr other ↦
        append-Among_left (u, j) collected ((t, schema) ∷ [])
          (h u j (ground (arith, lookup-assign t u schema seen)))
  ]

  collect_from-IsCovered :
      (group : List (EventSchema J)) (seen : Dict Text J) (collected given : List (Text × J))
      → IsSeen seen collected
      → collect_from encode group seen collected ≡ ok given
      → ((p : Text × J) → Among p collected → Among p given) × All (IsCovered given) group
  unfolding collect_from
  collect_from-IsCovered [] seen collected given h e =
      let same : collected ≡ given = ground arith in (λ p among. subst (Among p) same among, tt)
  collect_from-IsCovered (first ∷ group) seen collected given h e =
      elim (Option-cases first.schema) [
        | inl missing ↦ absurd (ground arith)
        | inr (schema, has_schema) ↦ elim (Option-cases (lookup first.event_type seen)) [
          | inr (earlier, is_seen) ↦
              elim (Option-cases (check_registered_schema encode earlier schema)) [
                | inr (err, differs) ↦ absurd (ground arith)
                | inl same ↦
                    let (kept, all) =
                      collect_from-IsCovered group seen collected given h (ground arith) in
                    (
                      kept,
                      (
                        (
                          schema,
                          earlier,
                          has_schema,
                          kept (first.event_type, earlier) (h first.event_type earlier is_seen),
                          inr same,
                        ),
                        all,
                      ),
                    )
              ]
          | inl is_new ↦
              let it : Text × J = (first.event_type, schema) in
              let (kept, all) =
                collect_from-IsCovered group (assign first.event_type schema seen)
                  (collected ++ it ∷ []) given
                  (grown-IsSeen seen collected first.event_type schema h) (ground arith) in
              (
                λ p among. kept p (append-Among_left p collected (it ∷ []) among),
                (
                  (schema, schema, has_schema, kept it (append-Among_last it collected), inl refl),
                  all,
                ),
              )
        ]
      ]

module _ {ℓ} {W J : Type ℓ} (encode : J → Result Text) (holds : W → Text → Option J) where
  -- The database holds a schema for the event type, which is the same JSON as the given one.
  abbrev pub IsRegistered : W → EventSchema J → Type ℓ
  IsRegistered w given =
      (j c : J) × (given.schema ≡ some j)
      × (holds w given.event_type ≡ some c)
      × (json : Text) × (encode j ≡ ok json)
      × (encode c ≡ ok json)

module _ {ℓ} {W J : Type ℓ} (client : SchemaClient W J) (encode : J → Result Text)
    (holds : W → Text → Option J) (store : IsSchemaStore client encode holds) where
  covered-IsRegistered :
      (w : W) (collected : List (Text × J)) (given : EventSchema J)
      → All (IsHeldAs client encode holds store w) collected
      → IsCovered encode collected given
      → IsRegistered encode holds w given
  covered-IsRegistered w collected given all (j, k, has_schema, among, same) =
      let (c, held, as_collected) = Among-All _ (given.event_type, k) collected among all in
      let (json, k_is, c_is) = same_sound encode k c as_collected in
      elim same [
        | inl equal ↦ (j, c, has_schema, held, json, rw (← equal) k_is, c_is)
        | inr alike ↦
            let (json', k_is', j_is) = same_sound encode k j alike in
            (j, c, has_schema, held, json, j_is ∙ (sym k_is' ∙ k_is), c_is)
      ]

  abbrev LeavesRegistered : List (EventSchema J) → W × Option Failure → Type ℓ
  LeavesRegistered given result = result.1 ≡ none → All (IsRegistered encode holds result.0) given

  -- RegisterSchemas succeeds only if the database then holds, for every given event type, a schema that
  -- is encoded as the same JSON as the given one. The database holds what it has registered, keeps it, and reads out only what it holds.
  pub register_schemas-IsRegistered :
      (groups : List (List (EventSchema J))) (w : W)
      → (register_schemas client encode groups w).1 ≡ none
      → All (IsRegistered encode holds (register_schemas client encode groups w).0) (flatten groups)
  unfolding register_schemas collect_schemas
  register_schemas-IsRegistered groups w =
      let result = register_schemas client encode groups w in
      let found = read_registered client w in
      elim (Result-cases (collect_from encode (flatten groups) [] [])) [
        | inr (err, fails) ↦ λ succeeds. absurd (ground arith)
        | inl (given, collects) ↦ elim (Result-cases found.1) [
          | inr (err, fails) ↦ λ succeeds. absurd (ground arith)
          | inl (registered, reads) ↦
              let code : result ≡ register_from client encode given registered found.0 =
                rw (register_schemas, collects, reads) refl in
              let (kept, covered) =
                collect_from-IsCovered encode (flatten groups) [] [] given (nothing-IsSeen encode)
                  collects in
              subst (LeavesRegistered (flatten groups)) (sym code) (λ succeeds.
                let (keeps, all) =
                  register_from-Succeeds client encode holds store given registered found.0
                    (reads_held client encode holds store w registered reads) succeeds in
                All-map_implies (IsCovered encode given) _ (flatten groups)
                  (λ schema is_covered. covered-IsRegistered _ given schema all is_covered) covered)
        ]
      ]

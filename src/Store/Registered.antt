-- ===== src/Store/Registered.antt =====
-- What the database holds once `RegisterSchemas` of architecturekit/store.go has succeeded.
use architecturekit_golang.Base.{
  ◌≡◌, refl, sym, subst, inl, inr, Option, none, some, List, [], ◌∷◌, arith, Bool-cases,
  Option-cases, nat_eq, All, Text, text_has_eq, Dict, lookup,
}
use architecturekit_golang.Failure.{Failure, Result, Result-cases, ok}
use architecturekit_golang.Failure.Database.{
  database_failure, context_ended, is_schema_conflict, schema_refusal,
}
use architecturekit_golang.Store.Comparison.{Among, same_complete, registered_from-Among}
use architecturekit_golang.Store.Schemas.{
  SchemaClient, has_type, check_registered_schema, registered_from, read_registered, check_then,
  after_refusal, register_new, register_from,
}

-- What the database promises, for the schemas that it holds by event type: one that it has registered
-- is held as the same JSON as the given one, none that it holds is lost or changed, and what it reads out is held.
pub record IsSchemaStore {ℓ} {W J : Type ℓ} (client : SchemaClient W J) (encode : J → Result Text)
    (holds : W → Text → Option J) : Type ℓ where
  pub registers :
      (w : W) (t : Text) (j : J)
      → (client.register w t j).1 ≡ none
      → (c : J) × (holds (client.register w t j).0 t ≡ some c)
        × (json : Text) × (encode j ≡ ok json)
        × (encode c ≡ ok json)
  pub register_keeps :
      (w : W) (t u : Text) (j c : J)
      → holds w u ≡ some c
      → holds (client.register w t j).0 u ≡ some c
  pub read_keeps :
      (w : W) (u : Text) (c : J) → holds w u ≡ some c → holds (client.read_types w).0 u ≡ some c
  pub reads :
      (w : W) (t : Text) (c : J)
      → Among (has_type t (some c)) (client.read_types w).1
      → holds (client.read_types w).0 t ≡ some c

module _ {ℓ} {W J : Type ℓ} (client : SchemaClient W J) (encode : J → Result Text)
    (holds : W → Text → Option J) (store : IsSchemaStore client encode holds) where
  -- The database holds the given schema for the event type.
  abbrev pub IsHeldAs : W → Text × J → Type ℓ
  IsHeldAs w given =
      (c : J) × (holds w given.0 ≡ some c) × (check_registered_schema encode given.1 c ≡ none)

  abbrev Keeps : W → W → Type ℓ
  Keeps w w' = (t : Text) (c : J) → holds w t ≡ some c → holds w' t ≡ some c

  -- What is known to be registered is held.
  abbrev pub IsTrue : Dict Text J → W → Type ℓ
  IsTrue registered w = (t : Text) (c : J) → lookup t registered ≡ some c → holds w t ≡ some c

  -- Success keeps what is held, and leaves all given schemas registered.
  abbrev Succeeds : W → List (Text × J) → W × Option Failure → Type ℓ
  Succeeds w given result = result.1 ≡ none → Keeps w result.0 × All (IsHeldAs result.0) given

  abbrev GoesOn : List (Text × J) → (Dict Text J → W → W × Option Failure) → Type ℓ
  GoesOn given rest =
      (registered : Dict Text J) (w : W)
      → IsTrue registered w
      → Succeeds w given (rest registered w)

  pub reads_held :
      (w : W) (registered : Dict Text J)
      → registered_from (client.read_types w).1 [] ≡ ok registered
      → IsTrue registered (client.read_types w).0
  unfolding lookup
  reads_held w registered read t c found =
      elim (registered_from-Among (client.read_types w).1 [] registered t c read found) [
        | inl empty ↦ absurd (ground arith)
        | inr among ↦ store.reads w t c among
      ]

  registered-IsHeldAs :
      (w : W) (t : Text) (j : J)
      → (client.register w t j).1 ≡ none
      → IsHeldAs (client.register w t j).0 (t, j)
  registered-IsHeldAs w t j succeeds =
      let (c, held, json, j_is, c_is) = store.registers w t j succeeds in
      (c, held, same_complete encode j c json j_is c_is)

  by_code :
      (w : W) (given : List (Text × J)) (code result : W × Option Failure)
      → code ≡ result
      → Succeeds w given result
      → Succeeds w given code
  by_code w given code result e h = subst (Succeeds w given) (sym e) h

  fails-Succeeds :
      (w w' : W) (given : List (Text × J)) (err : Failure) → Succeeds w given (w', some err)
  fails-Succeeds w w' given err succeeds = absurd (ground arith)

  -- A success of the rest is one of all, once a schema is held.
  held-Succeeds :
      (w w' : W) (given : List (Text × J)) (t : Text) (schema : J) (result : W × Option Failure)
      → Keeps w w'
      → IsHeldAs w' (t, schema)
      → Succeeds w' given result
      → Succeeds w ((t, schema) ∷ given) result
  held-Succeeds w w' given t schema result keeps (c, held, same) h succeeds =
      let (kept, all) = h succeeds in
      (λ u d known. kept u d (keeps u d known), ((c, kept t c held, same), all))

  same-Keeps : (w : W) → Keeps w w
  same-Keeps w = λ t c h. h

  check_then-Succeeds :
      (rest : Dict Text J → W → W × Option Failure) (given : List (Text × J)) (t : Text)
      (schema current : J) (registered : Dict Text J) (w : W)
      → GoesOn given rest
      → IsTrue registered w
      → holds w t ≡ some current
      → Succeeds w ((t, schema) ∷ given) (check_then encode rest schema current registered w)
  unfolding check_then
  check_then-Succeeds rest given t schema current registered w h known held =
      elim (Option-cases (check_registered_schema encode schema current)) [
        | inr (err, differs) ↦
            by_code w ((t, schema) ∷ given) _ (w, some err) (rw (check_then, differs) refl)
              (fails-Succeeds w w ((t, schema) ∷ given) err)
        | inl same ↦
            by_code w ((t, schema) ∷ given) _ (rest registered w) (rw (check_then, same) refl) (
              held-Succeeds w w given t schema (rest registered w) (same-Keeps w)
                (current, held, same) (h registered w known))
      ]

  after_refusal-Succeeds :
      (rest : Dict Text J → W → W × Option Failure) (given : List (Text × J)) (t : Text)
      (schema : J) (refusal : Failure) (w : W)
      → GoesOn given rest
      → Succeeds w ((t, schema) ∷ given) (after_refusal client encode rest t schema refusal w)
  unfolding after_refusal
  after_refusal-Succeeds rest given t schema refusal w h =
      let found = read_registered client w in
      elim (Bool-cases (is_schema_conflict refusal)) [
        | inr other ↦
            by_code w ((t, schema) ∷ given) _ (w, some (database_failure refusal))
              (rw (after_refusal, other) refl)
              (fails-Succeeds w w ((t, schema) ∷ given) (database_failure refusal))
        | inl conflicts ↦ elim (Result-cases found.1) [
          | inr (err, fails) ↦
              by_code w ((t, schema) ∷ given) _ (found.0, some err)
                (rw (after_refusal, conflicts, fails) refl)
                (fails-Succeeds w found.0 ((t, schema) ∷ given) err)
          | inl (registered, read) ↦ elim (Option-cases (lookup t registered)) [
            | inl none_found ↦
                by_code w ((t, schema) ∷ given) _ (found.0, some (schema_refusal refusal))
                  (rw (after_refusal, conflicts, read, none_found) refl)
                  (fails-Succeeds w found.0 ((t, schema) ∷ given) (schema_refusal refusal))
            | inr (current, is_registered) ↦
                let held = reads_held w registered read t current is_registered in
                by_code w ((t, schema) ∷ given) _
                  (check_then encode rest schema current registered found.0)
                  (rw (after_refusal, conflicts, read, is_registered) refl)
                  (λ succeeds.
                    let (kept, all) =
                      check_then-Succeeds rest given t schema current registered found.0 h
                        (reads_held w registered read) held succeeds in
                    (λ u d known. kept u d (store.read_keeps w u d known), all))
          ]
        ]
      ]

  register_new-Succeeds :
      (rest : Dict Text J → W → W × Option Failure) (given : List (Text × J)) (t : Text)
      (schema : J) (registered : Dict Text J) (w : W)
      → GoesOn given rest
      → IsTrue registered w
      → Succeeds w ((t, schema) ∷ given) (register_new client encode rest t schema registered w)
  unfolding register_new
  register_new-Succeeds rest given t schema registered w h known =
      let done = client.register w t schema in
      let keeps : Keeps w done.0 = λ u d held. store.register_keeps w t u schema d held in
      elim (Option-cases (client.ctx_err w)) [
        | inr (ctx_err, ended) ↦
            by_code w ((t, schema) ∷ given) _ (w, some (context_ended ctx_err))
              (rw (register_new, ended) refl)
              (fails-Succeeds w w ((t, schema) ∷ given) (context_ended ctx_err))
        | inl goes_on ↦ elim (Option-cases done.1) [
          | inl registers ↦
              by_code w ((t, schema) ∷ given) _ (rest registered done.0)
                (rw (register_new, goes_on, registers) refl)
                (held-Succeeds w done.0 given t schema (rest registered done.0) keeps
                  (registered-IsHeldAs w t schema registers)
                  (h registered done.0 (λ u d e. keeps u d (known u d e))))
          | inr (refusal, refused) ↦
              by_code w ((t, schema) ∷ given) _
                (after_refusal client encode rest t schema refusal done.0)
                (rw (register_new, goes_on, refused) refl)
                (λ succeeds.
                  let (kept, all) =
                    after_refusal-Succeeds rest given t schema refusal done.0 h succeeds in
                  (λ u d e. kept u d (keeps u d e), all))
        ]
      ]

  pub register_from-Succeeds :
      (given : List (Text × J)) → GoesOn given (register_from client encode given)
  unfolding register_from
  register_from-Succeeds [] registered w known = λ succeeds. (same-Keeps w, tt)
  register_from-Succeeds ((t, schema) ∷ given) registered w known =
      let rest = register_from client encode given in
      elim (Option-cases (lookup t registered)) [
        | inr (current, is_registered) ↦
            by_code w ((t, schema) ∷ given) _ (check_then encode rest schema current registered w)
              (rw (register_from, is_registered) refl)
              (check_then-Succeeds rest given t schema current registered w
                (register_from-Succeeds given) known (known t current is_registered))
        | inl is_new ↦
            by_code w ((t, schema) ∷ given) _
              (register_new client encode rest t schema registered w)
              (rw (register_from, is_new) refl)
              (register_new-Succeeds rest given t schema registered w (register_from-Succeeds given)
                known)
      ]

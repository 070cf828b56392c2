-- ===== src/Tests/Schemas.antt =====
-- The registration of schemas that are numbers, with a database that holds an association list.
use architecturekit_golang.Base.{
  ℕ, ◌≡◌, refl, inl, inr, Option, none, some, List, [], ◌∷◌, arith, Option-cases, nat_eq, All, Text,
  codes, text_eq, text_eq_iff, text_has_eq, Dict, lookup, assign, lookup-assign,
}
use architecturekit_golang.Failure.{permanent, Failure, sentinel, Result, ok}
use architecturekit_golang.Store.Schemas.{
  EventSchema, SchemaClient, TypeElement, has_type, type_breaks, register_schemas, flatten,
}
use architecturekit_golang.Store.Comparison.{Among, Among-All}
use architecturekit_golang.Store.Registered.{IsSchemaStore}
use architecturekit_golang.Store.Collected.{IsRegistered, register_schemas-IsRegistered}

abbrev encode : ℕ → Result Text
encode schema = ok (schema ∷ [])

-- A database that registers a schema only for an event type that has none, and that reads out the
-- first event type that it holds.
abbrev registered_by : Text → ℕ → Dict Text ℕ → Option ℕ → Dict Text ℕ × Option Failure
registered_by t j w none = (assign t j w, none)
registered_by t j w (some c) = (w, some (sentinel permanent))

abbrev first_type : Dict Text ℕ → List (TypeElement ℕ)
first_type [] = []
first_type ((t, j) ∷ w) = has_type t (some j) ∷ []

abbrev client : SchemaClient (Dict Text ℕ) ℕ
client = record {
  ctx_err = λ w. none;
  register = λ w t j. registered_by t j w (lookup t w);
  read_types = λ w. (w, first_type w);
}

abbrev holds : Dict Text ℕ → Text → Option ℕ
holds w t = lookup t w

registers_given :
    (w : Dict Text ℕ) (t : Text) (j : ℕ)
    → (client.register w t j).1 ≡ none
    → holds (client.register w t j).0 t ≡ some j
registers_given w t j h = elim (Option-cases (lookup t w)) [
  | inl absent ↦ ground (arith, lookup-assign t t j w, (text_eq_iff t t).1 refl)
  | inr (c, present) ↦ absurd (ground arith)
]

keeps_held :
    (w : Dict Text ℕ) (t u : Text) (j c : ℕ)
    → holds w u ≡ some c
    → holds (client.register w t j).0 u ≡ some c
keeps_held w t u j c h = elim (Option-cases (lookup t w)) [
  | inl absent ↦ ground (arith, lookup-assign t u j w, text_eq_iff t u)
  | inr (d, present) ↦ ground arith
]

abbrev IsHeldBy : Dict Text ℕ → TypeElement ℕ → Type 0
IsHeldBy w (has_type t (some c)) = lookup t w ≡ some c
IsHeldBy w (has_type t none) = Unit
IsHeldBy w (type_breaks err ctx_err) = Unit

first_type-IsHeldBy : (w : Dict Text ℕ) → All (IsHeldBy w) (first_type w)
unfolding lookup
first_type-IsHeldBy [] = tt
first_type-IsHeldBy ((t, j) ∷ w) = (ground (arith, (text_eq_iff t t).1 refl), tt)

reads_first :
    (w : Dict Text ℕ) (t : Text) (c : ℕ)
    → Among (has_type t (some c)) (first_type w)
    → lookup t w ≡ some c
reads_first w t c among =
    Among-All (IsHeldBy w) (has_type t (some c)) (first_type w) among (first_type-IsHeldBy w)

client-IsSchemaStore : IsSchemaStore client encode holds
client-IsSchemaStore = record {
  registers = λ w t j h. (j, registers_given w t j h, j ∷ [], refl, refl);
  register_keeps = λ w t u j c h. keeps_held w t u j c h;
  read_keeps = λ w u c h. h;
  reads = λ w t c among. reads_first w t c among;
}

abbrev groups : List (List (EventSchema ℕ))
groups =
    (record { event_type = codes "borrowed"; schema = some 5 } ∷ [])
    ∷ (record { event_type = codes "borrowed"; schema = some 5 }
        ∷ record { event_type = codes "returned"; schema = some 7 }
        ∷ [])
    ∷ []

registers_all : (register_schemas client encode groups []).1 ≡ none
unfolding register_schemas lookup assign text_eq
registers_all = refl

register_schemas-IsRegistered_example :
    All (IsRegistered encode holds (register_schemas client encode groups []).0) (flatten groups)
register_schemas-IsRegistered_example =
    register_schemas-IsRegistered client encode holds client-IsSchemaStore groups [] registers_all

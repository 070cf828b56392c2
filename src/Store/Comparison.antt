-- ===== src/Store/Comparison.antt =====
-- What it means that two schemas are the same, and that one is read from the database:
-- `isSameSchema`, `checkRegisteredSchema`, and `readRegisteredSchemas` of architecturekit/store.go.
use architecturekit_golang.Base.{
  ◌≡◌, refl, sym, ap, ◌∙◌, ◌⊎◌, inl, inr, none, some, List, [], ◌∷◌, ◌++◌, arith, Bool-cases,
  nat_eq, All, Text, text_eq, text_eq_iff, text_has_eq, Dict, lookup, assign, lookup-assign,
}
use architecturekit_golang.Failure.{Result, Result-cases, ok}
use architecturekit_golang.Store.Schemas.{
  is_same_schema, check_registered_schema, TypeElement, has_type, type_breaks, registered_from,
}

pub data Among {ℓ} {A : Type ℓ} (a : A) : List A → Type ℓ where
  here : (xs : List A) → Among a (a ∷ xs)
  there : (x : A) (xs : List A) → Among a xs → Among a (x ∷ xs)

module _ {ℓ} {A : Type ℓ} where
  pub append-Among_left : (a : A) (xs ys : List A) → Among a xs → Among a (xs ++ ys)
  append-Among_left a _ ys (here xs) = here (xs ++ ys)
  append-Among_left a _ ys (there x xs h) = there x (xs ++ ys) (append-Among_left a xs ys h)

  pub append-Among_last : (a : A) (xs : List A) → Among a (xs ++ a ∷ [])
  append-Among_last a [] = here []
  append-Among_last a (x ∷ xs) = there x (xs ++ a ∷ []) (append-Among_last a xs)

  pub Among-All {κ} : (P : A → Type κ) (a : A) (xs : List A) → Among a xs → All P xs → P a
  Among-All P a _ (here xs) all = all.0
  Among-All P a _ (there x xs h) all = Among-All P a xs h all.1

module _ {ℓ} {J : Type ℓ} (encode : J → Result Text) where
  -- Two schemas are the same exactly if they are encoded the same way.
  pub same_sound :
      (a b : J)
      → check_registered_schema encode a b ≡ none
      → (s : Text) × (encode a ≡ ok s) × (encode b ≡ ok s)
  unfolding check_registered_schema is_same_schema
  same_sound a b h = elim (Result-cases (encode a)) [
    | inr (err, fails) ↦ absurd (ground arith)
    | inl (s, left) ↦ elim (Result-cases (encode b)) [
      | inr (err, fails) ↦ absurd (ground arith)
      | inl (t, right) ↦ elim (Bool-cases (text_eq s t)) [
        | inr differs ↦ absurd (ground arith)
        | inl equal ↦ (s, left, right ∙ ap ok (sym ((text_eq_iff s t).0 equal)))
      ]
    ]
  ]

  pub same_complete :
      (a b : J) (s : Text)
      → encode a ≡ ok s
      → encode b ≡ ok s
      → check_registered_schema encode a b ≡ none
  unfolding check_registered_schema is_same_schema
  same_complete a b s left right =
      rw (check_registered_schema, is_same_schema, left, right, (text_eq_iff s s).1 refl) refl

module _ {ℓ} {J : Type ℓ} where
  -- A schema that was read is one that the database has handed out.
  pub registered_from-Among :
      (elements : List (TypeElement J)) (before after : Dict Text J) (t : Text) (c : J)
      → registered_from elements before ≡ ok after
      → lookup t after ≡ some c
      → (lookup t before ≡ some c) ⊎ Among (has_type t (some c)) elements
  unfolding registered_from
  registered_from-Among [] before after t c read found =
      let same : before ≡ after = ground arith in inl (rw same found)
  registered_from-Among (type_breaks err ctx_err ∷ elements) before after t c read found =
      absurd (ground arith)
  registered_from-Among (has_type u none ∷ elements) before after t c read found =
      elim (registered_from-Among elements before after t c read found) [
        | inl old ↦ inl old
        | inr later ↦ inr (there (has_type u none) elements later)
      ]
  registered_from-Among (has_type u (some d) ∷ elements) before after t c read found =
      elim (registered_from-Among elements (assign u d before) after t c read found) [
        | inr later ↦ inr (there (has_type u (some d)) elements later)
        | inl added ↦ elim (Bool-cases (text_eq u t)) [
          | inr other ↦ inl (ground (arith, added, lookup-assign u t d before))
          | inl same ↦
              let d_is : d ≡ c = ground (arith, added, lookup-assign u t d before) in
              inr (rw (← d_is, ← (text_eq_iff u t).0 same) (here elements))
        ]
      ]

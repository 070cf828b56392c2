-- ===== src/HttpApi/Named.antt =====
-- The lists of tags for which `holdsTag` of architecturekit/httpapi/revision.go answers yes.
use architecturekit_golang.Base.{
  ℕ, zero, suc, ◌≡◌, refl, sym, subst, ap, ◌∙◌, inl, inr, Bool, true, false, some, [], ◌∷◌, ◌++◌,
  arith, ◌==◌, Bool-cases, Option-cases, nat_eq, All, Text, text_eq, text_eq_iff, text_has_eq,
}
use architecturekit_golang.HttpApi.{Request}
use architecturekit_golang.HttpApi.Tags.{
  join_commas, holds_tag, quote, is_separator, trim_separators, trim_weak, cut_quote, cut_opening,
  quoted, holds_tag_in, starts_with_star,
}
use architecturekit_golang.HttpApi.TagLists.{weakly}

-- A list names a tag: as `*`, or as one of the tags in quotes, weak ones or not, read from quote to
-- quote.
pub data NamesTag (tag : Text) : Text → Type 0 where
  names_all :
      (before rest : Text)
      → All (λ c. is_separator c ≡ true) before
      → NamesTag tag (before ++ b'*' ∷ rest)
  names_it :
      (before opaque rest : Text) (is_weak : Bool)
      → All (λ c. is_separator c ≡ true) before
      → b'"' ∷ opaque ++ b'"' ∷ [] ≡ tag
      → NamesTag tag (before ++ weakly is_weak (b'"' ∷ opaque ++ b'"' ∷ rest))
  names_later :
      (before opaque rest : Text) (is_weak : Bool)
      → All (λ c. is_separator c ≡ true) before
      → NamesTag tag rest
      → NamesTag tag (before ++ weakly is_weak (b'"' ∷ opaque ++ b'"' ∷ rest))

trimmed :
    (s : Text)
    → (before : Text) × (s ≡ before ++ trim_separators s) × All (λ c. is_separator c ≡ true) before
unfolding trim_separators
trimmed [] = ([], refl, tt)
trimmed (c ∷ s) = elim (Bool-cases (is_separator c)) [
  | inr other ↦ ([], rw (trim_separators, other) refl, tt)
  | inl separates ↦
      let (before, split, all) = trimmed s in
      (c ∷ before, rw (trim_separators, separates) (ap (λ x. c ∷ x) split), (separates, all))
]

weak_or_not : (s : Text) → (is_weak : Bool) × (s ≡ weakly is_weak (trim_weak s))
weak_or_not [] = (false, refl)
weak_or_not (c ∷ []) = (false, refl)
weak_or_not (c ∷ d ∷ s) = elim (Bool-cases (c == b'W')) [
  | inr other ↦ (false, rw other refl)
  | inl first ↦ elim (Bool-cases (d == b'/')) [
    | inr other ↦ (false, rw (first, other) refl)
    | inl second ↦
        let c_is : c ≡ b'W' = ground arith in
        let d_is : d ≡ b'/' = ground arith in (true, rw (c_is, d_is) refl)
  ]
]

cut_quote_is :
    (s : Text) (found : Text × Text) → cut_quote s ≡ some found → s ≡ found.0 ++ quote ∷ found.1
unfolding cut_quote
cut_quote_is [] found h = ground arith
cut_quote_is (c ∷ s) found h = elim (Bool-cases (c == quote)) [
  | inl at_quote ↦ ground arith
  | inr before ↦ elim (Option-cases (cut_quote s)) [
    | inl none_found ↦ absurd (ground arith)
    | inr (rest, e) ↦
        let it_is : (c ∷ rest.0, rest.1) ≡ found = ground arith in
        rw (← it_is) (ap (λ x. c ∷ x) (cut_quote_is s rest e))
  ]
]

cut_opening_is :
    (s : Text) (found : Text × Text)
    → cut_opening s ≡ some found
    → s ≡ quote ∷ found.0 ++ quote ∷ found.1
cut_opening_is [] found h = ground arith
cut_opening_is (c ∷ s) found h = elim (Bool-cases (c == quote)) [
  | inl at_quote ↦
      let c_is : c ≡ quote = ground arith in
      rw c_is (ap (λ x. quote ∷ x) (cut_quote_is s found (ground arith)))
  | inr other ↦ absurd (ground arith)
]

starred : (s : Text) → starts_with_star s ≡ true → (rest : Text) × (s ≡ b'*' ∷ rest)
starred [] h = absurd (ground arith)
starred (c ∷ s) h = (s, ground arith)

holds_tag_in-NamesTag :
    (fuel : ℕ) (tag list : Text) → holds_tag_in fuel tag list ≡ true → NamesTag tag list
unfolding holds_tag_in
holds_tag_in-NamesTag zero tag list h = absurd (ground arith)
holds_tag_in-NamesTag (suc fuel) tag list h =
    let (before, split, all) = trimmed list in
    elim (Bool-cases (starts_with_star (trim_separators list))) [
      | inl star ↦
          let (rest, e) = starred (trim_separators list) star in
          subst (NamesTag tag) (sym (split ∙ ap (λ x. before ++ x) e)) (names_all before rest all)
      | inr no_star ↦
          let (is_weak, weak) = weak_or_not (trim_separators list) in
          elim (Option-cases (cut_opening (trim_weak (trim_separators list)))) [
            | inl none_found ↦ absurd (ground arith)
            | inr (found, cut) ↦
                let list_is : list ≡ before ++ weakly is_weak (quote ∷ found.0 ++ quote ∷ found.1) =
                  split
                  ∙ ap (λ x. before ++ x)
                      (weak ∙ ap (weakly is_weak) (cut_opening_is _ found cut)) in
                elim (Bool-cases (text_eq (quoted found.0) tag)) [
                  | inl same ↦ subst (NamesTag tag) (sym list_is) (
                      names_it before found.0 found.1 is_weak all
                        ((text_eq_iff (quoted found.0) tag).0 same))
                  | inr other ↦ subst (NamesTag tag) (sym list_is) (
                      names_later before found.0 found.1 is_weak all
                        (holds_tag_in-NamesTag fuel tag found.1 (ground arith)))
                ]
          ]
    ]

-- If holdsTag answers yes, the header names the tag.
pub holds_tag-NamesTag :
    (r : Request) (tag : Text) → holds_tag r tag ≡ true → NamesTag tag (join_commas r.if_none_match)
unfolding holds_tag
holds_tag-NamesTag r tag h =
    let list = join_commas r.if_none_match in holds_tag_in-NamesTag _ tag list h

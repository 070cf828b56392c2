-- ===== src/HttpApi/TagLists.antt =====
-- The list of tags that If-None-Match holds: `holdsTag` of architecturekit/httpapi/revision.go.
use architecturekit_golang.Base.{
  ℕ, zero, suc, ◌+◌, ◌≤◌, ◌<◌, ◌≡◌, refl, ◌≢◌, inl, inr, Bool, true, false, ◌||◌, some, List, [],
  ◌∷◌, ◌++◌, arith, ◌==◌, if◌then◌else◌, Bool-cases, Option-cases, nat_eq, length, All,
  length-append, Text, text_eq, text_has_eq,
}
use architecturekit_golang.HttpApi.{Request}
use architecturekit_golang.HttpApi.Tags.{
  join_commas, holds_tag, quote, is_separator, trim_separators, trim_weak, cut_quote, cut_opening,
  quoted, holds_tag_in,
}

trim_separators-le : (s : Text) → length (trim_separators s) ≤ length s
unfolding trim_separators
trim_separators-le [] = omega arith
trim_separators-le (c ∷ s) = ground (arith, trim_separators-le s)

trim_weak-le : (s : Text) → length (trim_weak s) ≤ length s
trim_weak-le [] = omega arith
trim_weak-le (c ∷ []) = omega arith
trim_weak-le (c ∷ d ∷ s) = ground arith

cut_quote-lt :
    (s : Text) (found : Text × Text) → cut_quote s ≡ some found → length found.1 < length s
unfolding cut_quote
cut_quote-lt [] found h = ground arith
cut_quote-lt (c ∷ s) found h = elim (Bool-cases (c == quote)) [
  | inl at_quote ↦ ground arith
  | inr before ↦ elim (Option-cases (cut_quote s)) [
    | inl none_found ↦ ground arith
    | inr (rest, e) ↦ ground (arith, cut_quote-lt s rest e)
  ]
]

cut_opening-lt :
    (s : Text) (found : Text × Text) → cut_opening s ≡ some found → length found.1 < length s
cut_opening-lt [] found h = ground arith
cut_opening-lt (c ∷ s) found h = elim (Bool-cases (c == quote)) [
  | inl at_quote ↦ omega (arith, cut_quote-lt s found (ground arith))
  | inr other ↦ absurd (ground arith)
]

-- The loop of holdsTag ends: each round reads at least one byte of the list, so any fuel above its
-- length yields the same answer.
pub holds_tag_in-ends :
    (fuel more : ℕ) (tag list : Text)
    → length list < fuel
    → holds_tag_in (fuel + more) tag list ≡ holds_tag_in fuel tag list
unfolding holds_tag_in
holds_tag_in-ends zero more tag list h = absurd (omega arith)
holds_tag_in-ends (suc fuel) more tag list h =
    let e : suc fuel + more ≡ suc (fuel + more) = omega arith in
    let shorter : length (trim_weak (trim_separators list)) ≤ length list =
      omega (arith, trim_weak-le (trim_separators list), trim_separators-le list) in
    rw e (elim (Option-cases (cut_opening (trim_weak (trim_separators list)))) [
      | inl none_found ↦ rw (holds_tag_in, none_found) refl
      | inr (found, cut) ↦
          rw
            (
              holds_tag_in,
              cut,
              holds_tag_in-ends fuel more tag found.1 (
                  omega (
                    arith,
                    h,
                    shorter,
                    cut_opening-lt (trim_weak (trim_separators list)) found cut,
                  )),
            )
            refl
    ])

-- A tag in a list: whether it is marked as weak, what it quotes, and the separators after it.
pub record TagEntry : Type 0 where
  pub is_weak : Bool
  pub opaque : Text
  pub after : Text

abbrev pub weakly : Bool → Text → Text
weakly true s = b'W' ∷ b'/' ∷ s
weakly false s = s

-- The list that the entries make up.
abbrev pub spelled : List TagEntry → Text
spelled [] = []
spelled (entry ∷ entries) =
    weakly entry.is_weak (quote ∷ entry.opaque ++ quote ∷ (entry.after ++ spelled entries))

abbrev pub IsTagEntry : TagEntry → Type 0
IsTagEntry entry = All (λ c. c ≢ quote) entry.opaque × All (λ c. is_separator c ≡ true) entry.after

-- Some entry quotes what the tag quotes.
abbrev pub names_tag : List TagEntry → Text → Bool
names_tag [] tag = false
names_tag (entry ∷ entries) tag = text_eq (quoted entry.opaque) tag || names_tag entries tag

trim_separators-append :
    (separators s : Text)
    → All (λ c. is_separator c ≡ true) separators
    → trim_separators (separators ++ s) ≡ trim_separators s
unfolding trim_separators
trim_separators-append [] s h = refl
trim_separators-append (c ∷ separators) s h =
    rw (trim_separators, h.0) (trim_separators-append separators s h.1)

cut_quote-append :
    (opaque s : Text)
    → All (λ c. c ≢ quote) opaque
    → cut_quote (opaque ++ quote ∷ s) ≡ some (opaque, s)
unfolding cut_quote
cut_quote-append [] s h = refl
cut_quote-append (c ∷ opaque) s h =
    let inside : (c == quote) ≡ false = ground arith in
    rw (cut_quote, inside, cut_quote-append opaque s h.1) refl

or_if : (a b : Bool) → (if a then true else b) ≡ a || b
or_if true b = refl
or_if false b = refl

trim_weak-quote : (s : Text) → trim_weak (quote ∷ s) ≡ quote ∷ s
trim_weak-quote [] = refl
trim_weak-quote (c ∷ s) = refl

-- One round of the loop reads an entry.
holds_tag_in-entry :
    (fuel : ℕ) (tag before opaque rest : Text) (is_weak : Bool)
    → All (λ c. is_separator c ≡ true) before
    → All (λ c. c ≢ quote) opaque
    → holds_tag_in (suc fuel) tag (before ++ weakly is_weak (quote ∷ opaque ++ quote ∷ rest))
      ≡ text_eq (quoted opaque) tag || holds_tag_in fuel tag rest
unfolding holds_tag_in trim_separators
holds_tag_in-entry fuel tag before opaque rest true h hs =
    rw
      (
        holds_tag_in,
        trim_separators-append before (b'W' ∷ b'/' ∷ quote ∷ opaque ++ quote ∷ rest) h,
        cut_quote-append opaque rest hs,
      )
      (or_if (text_eq (quoted opaque) tag) (holds_tag_in fuel tag rest))
holds_tag_in-entry fuel tag before opaque rest false h hs =
    rw
      (
        holds_tag_in,
        trim_separators-append before (quote ∷ opaque ++ quote ∷ rest) h,
        trim_weak-quote (opaque ++ quote ∷ rest),
        cut_quote-append opaque rest hs,
      )
      (or_if (text_eq (quoted opaque) tag) (holds_tag_in fuel tag rest))

length-weakly : (is_weak : Bool) (s : Text) → length s ≤ length (weakly is_weak s)
length-weakly true s = omega arith
length-weakly false s = omega arith

holds_tag_in-spelled :
    (fuel : ℕ) (tag before : Text) (entries : List TagEntry)
    → length (before ++ spelled entries) < fuel
    → All (λ c. is_separator c ≡ true) before
    → All IsTagEntry entries
    → holds_tag_in fuel tag (before ++ spelled entries) ≡ names_tag entries tag
holds_tag_in-spelled zero tag before entries h hb hs = absurd (omega arith)
holds_tag_in-spelled (suc fuel) tag before [] h hb hs =
    unfold holds_tag_in trim_separators in
    rw (holds_tag_in, trim_separators-append before [] hb) refl
holds_tag_in-spelled (suc fuel) tag before (entry ∷ entries) h hb hs =
    let rest = entry.after ++ spelled entries in
    let body = quote ∷ entry.opaque ++ quote ∷ rest in
    let shorter : length rest < fuel = omega (
      arith,
      h,
      length-append before (weakly entry.is_weak body),
      length-weakly entry.is_weak body,
      length-append entry.opaque (quote ∷ rest),
    ) in
    rw
      (
        holds_tag_in-entry fuel tag before entry.opaque rest entry.is_weak hb hs.0.0,
        holds_tag_in-spelled fuel tag entry.after entries shorter hs.0.1 hs.1,
      )
      refl

-- For a header that spells out tags, weak ones or not, with nothing but separators before, between,
-- and after them, holdsTag answers whether one of the tags quotes what the given tag quotes. What a
-- tag quotes holds no quote.
pub holds_tag-spelled :
    (r : Request) (tag before : Text) (entries : List TagEntry)
    → join_commas r.if_none_match ≡ before ++ spelled entries
    → All (λ c. is_separator c ≡ true) before
    → All IsTagEntry entries
    → holds_tag r tag ≡ names_tag entries tag
unfolding holds_tag
holds_tag-spelled r tag before entries e hb hs =
    rw (holds_tag, e)
      (holds_tag_in-spelled (length (before ++ spelled entries) + 1) tag before entries
        (omega arith) hb hs)

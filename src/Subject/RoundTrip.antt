-- ===== src/Subject/RoundTrip.antt =====
-- Building subjects and taking them apart again: Build, Check, Match, Value and Root of
-- architecturekit/subject.go, for the schemes that NewSubjectScheme returns.
use architecturekit_golang.Base.{
  ℕ, zero, suc, ◌≡◌, refl, sym, ap, ◌∙◌, subst, ◌≢◌, ◌⊎◌, inl, inr, true, false, none, some, List,
  [], ◌∷◌, ◌++◌, arith, ◌==◌, Bool-cases, Option-cases, nat_eq, length, get_elem?, All,
  append_assoc, append_nil, All-map_implies, Text, text_eq_iff, text_has_eq, Dict, lookup, assign,
  lookup-assign,
}
use architecturekit_golang.Subject.{
  SubjectScheme, returns, panics, slash, refused_values, starts_with, split, contains, check, build,
  match_from, match, value_at, value_of, root, leading_literals, join_slash,
}
use architecturekit_golang.Subject.Characters.{
  NoSlash, IsSegmentText, has_only_subject_characters-NoSlash,
}
use architecturekit_golang.Subject.Splitting.{slashed, split-slashed, slashed-split}
use architecturekit_golang.Subject.Parts.{
  Spelled, Filled, literal-is_placeholder, none_left, as_it_is, by_value, assign_all,
  Filled-build_from, Filled-match_from, Filled-All, Filled-check_values, check_values-Filled,
  Taken-cases, match_from-Taken,
}

-- No name occurs twice.
abbrev pub AreDistinct : List Text → Type 0
AreDistinct [] = Unit
AreDistinct (name ∷ names) = (contains name names ≡ false) × AreDistinct names

-- The values of the placeholders, in their order, from the map of Match.
abbrev pub values_at : Dict Text Text → List Text → List Text
values_at dict [] = []
values_at dict (name ∷ names) = value_at name dict ∷ values_at dict names

-- What NewSubjectScheme makes sure of.
pub record IsWellFormed (scheme : SubjectScheme) : Type 0 where
  pub spelled : Spelled scheme.segments scheme.placeholders
  pub distinct : AreDistinct scheme.placeholders
  pub written : slashed scheme.segments ≡ scheme.pattern
  pub not_empty : scheme.segments ≢ []

lookup-assign_all :
    (name : Text) (names values : List Text) (dict : Dict Text Text)
    → contains name names ≡ false
    → lookup name (assign_all names values dict) ≡ lookup name dict
unfolding contains
lookup-assign_all name [] values dict h = refl
lookup-assign_all name (n ∷ names) [] dict h = refl
lookup-assign_all name (n ∷ names) (value ∷ values) dict h =
    lookup-assign_all name names values (assign n value dict) (ground arith)
    ∙ (lookup-assign n name value dict ∙ ground arith)

-- The map of Match holds each value under its own placeholder.
values_of-assign_all :
    (names values : List Text) (dict : Dict Text Text)
    → AreDistinct names
    → length values ≡ length names
    → values_at (assign_all names values dict) names ≡ values
values_of-assign_all [] [] dict d same = refl
values_of-assign_all [] (value ∷ values) dict d same = ground arith
values_of-assign_all (name ∷ names) [] dict d same = ground arith
values_of-assign_all (name ∷ names) (value ∷ values) dict d same =
    let found : lookup name (assign_all names values (assign name value dict)) ≡ some value =
      lookup-assign_all name names values (assign name value dict) d.0
      ∙ (lookup-assign name name value dict ∙ rw ((text_eq_iff name name).1 refl) refl) in
    rw (found, values_of-assign_all names values (assign name value dict) d.1 (omega (arith, same)))
      refl

All-NoSlash : (parts : List Text) → All IsSegmentText parts → All NoSlash parts
All-NoSlash parts h = All-map_implies _ _ parts (λ p q. has_only_subject_characters-NoSlash p q.1) h

-- Values that Check accepts fill the segments of the scheme.
accepted-Filled :
    (scheme : SubjectScheme) (values : List Text)
    → IsWellFormed scheme
    → check scheme values ≡ none
    → (parts : List Text) × Filled scheme.segments scheme.placeholders values parts
unfolding check
accepted-Filled scheme values w accepted =
    check_values-Filled scheme.segments scheme.placeholders values w.spelled (ground arith)
      (ground arith)

pub Filled-build :
    (scheme : SubjectScheme) (values parts : List Text)
    → Filled scheme.segments scheme.placeholders values parts
    → build scheme values ≡ returns (slashed parts)
unfolding build check
Filled-build scheme values parts filled =
    let (same, accepted) = Filled-check_values _ _ _ _ filled in
    ground (arith, same, accepted, Filled-build_from _ _ _ _ filled)

-- What Build returns is the subject whose parts the values fill.
pub build-Filled :
    (scheme : SubjectScheme) (values : List Text) (subject : Text)
    → IsWellFormed scheme
    → build scheme values ≡ returns subject
    → (parts : List Text) × Filled scheme.segments scheme.placeholders values parts
      × (slashed parts ≡ subject)
unfolding build
build-Filled scheme values subject w built =
    let (parts, filled) = accepted-Filled scheme values w (ground arith) in
    (parts, filled, ground (arith, Filled-build_from _ _ _ _ filled))

Filled-split :
    (segments names values parts : List Text)
    → segments ≢ []
    → Filled segments names values parts
    → (rest : Text) × (slashed parts ≡ slash ∷ rest) × (split rest ≡ parts)
Filled-split [] names values [] h filled = absurd (h refl)
Filled-split (segment ∷ segments) names values [] h filled =
    absurd (ground (arith, (Filled-All _ _ _ _ filled).1))
Filled-split segments names values (part ∷ parts) h filled =
    let (all, same) = Filled-All _ _ _ _ filled in
    let no_slash = All-NoSlash (part ∷ parts) all in
    (part ++ slashed parts, refl, split-slashed part parts no_slash.0 no_slash.1)

Filled-match :
    (scheme : SubjectScheme) (values parts : List Text)
    → IsWellFormed scheme
    → Filled scheme.segments scheme.placeholders values parts
    → match scheme (slashed parts) ≡ returns (some (assign_all scheme.placeholders values []))
unfolding match
Filled-match scheme values parts w filled =
    let (rest, e, s) = Filled-split _ _ _ _ w.not_empty filled in
    let (all, same) = Filled-All _ _ _ _ filled in
    rw (e, s, same) (ground (arith, Filled-match_from _ _ _ _ [] filled))

-- What Build composes, Match takes apart: the map holds each value under its placeholder.
pub match-build :
    (scheme : SubjectScheme) (values : List Text) (subject : Text)
    → IsWellFormed scheme
    → build scheme values ≡ returns subject
    → (dict : Dict Text Text) × (match scheme subject ≡ returns (some dict))
      × (values_at dict scheme.placeholders ≡ values)
match-build scheme values subject w built =
    let (parts, filled, e) = build-Filled scheme values subject w built in
    let (same, accepted) = Filled-check_values _ _ _ _ filled in
    (
      assign_all scheme.placeholders values [],
      subst (λ s. match scheme s ≡ returns (some (assign_all scheme.placeholders values []))) e
          (Filled-match scheme values parts w filled),
      values_of-assign_all scheme.placeholders values [] w.distinct same,
    )

-- Match computes what its loop does on the parts, if these are as many as the segments.
match_opened :
    (scheme : SubjectScheme) (subject : Text)
    → (match scheme subject ≡ returns none)
      ⊎ ((rest : Text) × (subject ≡ slash ∷ rest)
          × (length (split rest) ≡ length scheme.segments)
          × (match scheme subject ≡ match_from scheme.segments (split rest) scheme.placeholders []))
unfolding match
match_opened scheme [] = inl refl
match_opened scheme (c ∷ s) = elim (Bool-cases (c == slash)) [
  | inr other ↦ inl (rw (other) refl)
  | inl begins ↦ elim (Bool-cases (length (split s) == length scheme.segments)) [
    | inr differs ↦ inl (rw (begins, differs) refl)
    | inl equal ↦ inr (s, ground arith, ground arith, rw (begins, equal) refl)
  ]
]

-- For a scheme that is well-formed, Match never panics: either it reports false, or it returns a
-- map from whose values Build composes the same subject again.
pub build-match :
    (scheme : SubjectScheme) (subject : Text)
    → IsWellFormed scheme
    → (match scheme subject ≡ returns none)
      ⊎ ((dict : Dict Text Text) × (match scheme subject ≡ returns (some dict))
          × (build scheme (values_at dict scheme.placeholders) ≡ returns subject))
build-match scheme subject w = elim (match_opened scheme subject) [
  | inl refused ↦ inl refused
  | inr (rest, begins, same, opened) ↦
      let taken =
        match_from-Taken scheme.segments scheme.placeholders (split rest) [] w.spelled same in
      elim (Taken-cases _ _ _ _ _ taken) [
        | inl refused ↦ inl (opened ∙ refused)
        | inr (values, filled, found) ↦
            let dict = assign_all scheme.placeholders values [] in
            let (same_values, accepted) = Filled-check_values _ _ _ _ filled in
            let at : values_at dict scheme.placeholders ≡ values =
              values_of-assign_all scheme.placeholders values [] w.distinct same_values in
            let built : build scheme values ≡ returns (slashed (split rest)) =
              Filled-build scheme values (split rest) filled in
            inr (
              dict,
              opened ∙ found,
              ap (build scheme) at ∙ (built ∙ ap returns (slashed-split rest ∙ sym begins)),
            )
      ]
]

-- Build returns a subject exactly if Check has no error, and else panics because of that.
pub build-check :
    (scheme : SubjectScheme) (values : List Text)
    → IsWellFormed scheme
    → ((check scheme values ≡ none) × ((subject : Text) × (build scheme values ≡ returns subject)))
      ⊎ ((check scheme values ≢ none) × (build scheme values ≡ panics refused_values))
unfolding build
build-check scheme values w = elim (Option-cases (check scheme values)) [
  | inr (refusal, refused) ↦ inr (λ accepted. ground arith, rw (build, refused) refl)
  | inl accepted ↦
      let (parts, filled) = accepted-Filled scheme values w accepted in
      inl (accepted, (slashed parts, Filled-build scheme values parts filled))
]

contains-get_elem? :
    (names : List Text) (i : ℕ) (name : Text)
    → get_elem? names i ≡ some name
    → contains name names ≡ true
unfolding contains
contains-get_elem? [] i name h = ground arith
contains-get_elem? (n ∷ names) zero name h = ground (arith, (text_eq_iff n name).1)
contains-get_elem? (n ∷ names) (suc i) name h = ground (arith, contains-get_elem? names i name h)

get_elem?-values_at :
    (names : List Text) (i : ℕ) (name : Text) (dict : Dict Text Text)
    → get_elem? names i ≡ some name
    → get_elem? (values_at dict names) i ≡ some (value_at name dict)
get_elem?-values_at [] i name dict h = ground arith
get_elem?-values_at (n ∷ names) zero name dict h = ground arith
get_elem?-values_at (n ∷ names) (suc i) name dict h = get_elem?-values_at names i name dict h

-- Value returns the value that Build was given for the placeholder.
pub value_of-build :
    (scheme : SubjectScheme) (values : List Text) (subject name value : Text) (i : ℕ)
    → IsWellFormed scheme
    → build scheme values ≡ returns subject
    → get_elem? scheme.placeholders i ≡ some name
    → get_elem? values i ≡ some value
    → value_of scheme subject name ≡ returns (some value)
unfolding value_of
value_of-build scheme values subject name value i w built at_name at_value =
    let (dict, found, at) = match-build scheme values subject w built in
    let present = contains-get_elem? scheme.placeholders i name at_name in
    let same : some (value_at name dict) ≡ some value =
      sym (get_elem?-values_at scheme.placeholders i name dict at_name)
      ∙ (ap (λ vs. get_elem? vs i) at ∙ at_value) in
    rw (value_of, present, found) (ap returns same)

length-none : (xs : List Text) → length xs ≡ 0 → xs ≡ []
length-none [] h = refl
length-none (x ∷ xs) h = ground arith

join_slash-slashed :
    (part : Text) (parts : List Text) → slash ∷ join_slash (part ∷ parts) ≡ slashed (part ∷ parts)
unfolding join_slash
join_slash-slashed part [] = ground (arith, append_nil part)
join_slash-slashed part (next ∷ parts) = ap (λ r. slash ∷ part ++ r) (join_slash-slashed next parts)

-- Every part of a subject that stands for a literal before the first placeholder is this literal.
Filled-leading :
    (segments names values parts : List Text)
    → Filled segments names values parts
    → (rest : List Text) × (parts ≡ leading_literals segments ++ rest)
unfolding leading_literals
Filled-leading _ _ _ _ none_left = ([], refl)
Filled-leading _ _ _ _ (as_it_is segment segments names values parts h filled) =
    let (rest, e) = Filled-leading _ _ _ _ filled in
    (rest, rw (leading_literals, literal-is_placeholder segment h) (ap (λ r. segment ∷ r) e))
Filled-leading _ _ _ _ (by_value name value segments names values parts h filled) =
    (value ∷ parts, refl)

slashed-append : (xs ys : List Text) → slashed (xs ++ ys) ≡ slashed xs ++ slashed ys
slashed-append [] ys = refl
slashed-append (x ∷ xs) ys =
    ap (λ r. slash ∷ x ++ r) (slashed-append xs ys)
    ∙ ap (λ r. slash ∷ r) (sym (append_assoc x (slashed xs) (slashed ys)))

-- A subject lies under a root if it is the root, if it goes on behind it with a slash, or if the
-- root is a slash alone.
abbrev pub LiesUnder : Text → Text → Type 0
LiesUnder under subject =
    ((under ≡ slash ∷ []) × (starts_with slash subject ≡ true))
    ⊎ ((rest : List Text) × (subject ≡ under ++ slashed rest))

slashed-LiesUnder :
    (literals rest parts : List Text)
    → length parts ≢ 0
    → parts ≡ literals ++ rest
    → LiesUnder (slash ∷ join_slash literals) (slashed parts)
unfolding join_slash
slashed-LiesUnder [] rest [] h e = absurd (h refl)
slashed-LiesUnder [] rest (part ∷ parts) h e = inl (refl, refl)
slashed-LiesUnder (part ∷ literals) rest parts h e = inr (
  rest,
  ap slashed e
      ∙ (slashed-append (part ∷ literals) rest
          ∙ ap (λ l. l ++ slashed rest) (sym (join_slash-slashed part literals))),
)

-- Every subject that Build composes lies under the root of the scheme.
pub root-LiesUnder :
    (scheme : SubjectScheme) (values : List Text) (subject : Text)
    → IsWellFormed scheme
    → build scheme values ≡ returns subject
    → LiesUnder (root scheme) subject
unfolding root
root-LiesUnder scheme values subject w built =
    let (parts, filled, e) = build-Filled scheme values subject w built in
    let (rest, split_up) = Filled-leading _ _ _ _ filled in
    let some_left : length parts ≢ 0 = λ nothing_left.
      w.not_empty
        (length-none scheme.segments (sym (Filled-All _ _ _ _ filled).1 ∙ nothing_left)) in
    subst (LiesUnder (root scheme)) e (slashed-LiesUnder _ rest parts some_left split_up)

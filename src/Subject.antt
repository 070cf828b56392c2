-- ===== src/Subject.antt =====
-- Subject schemes: architecturekit/subject.go. A subject is the list of its bytes. The loops over
-- the runes of a segment are loops over its bytes: a rune outside ASCII is refused, and so is each
-- byte that encodes one. The texts of panics and errors are left out.
pub mod Characters
pub mod Splitting
pub mod Parsed
pub mod Parts
pub mod RoundTrip
pub mod Rounds
use architecturekit_golang.Base.{
  ℕ, zero, suc, ◌+◌, ◌-◌, ◌*◌, ◌/◌, ◌%◌, ◌^◌, ◌≤◌, ◌<◌, min, max, compare, Ordering, ◌≡◌, refl, sym,
  ap, ◌∙◌, subst, fun_ext, ◌≢◌, ◌↔◌, ◌⊎◌, inl, inr, Bool, true, false, not, ◌&&◌, ◌||◌, Option,
  none, some, List, [], ◌∷◌, ◌++◌, map, arith, ltb, leb, ◌==◌, if◌then◌else◌, ltb→lt, lt→ltb,
  leb→le, le→leb, ==_iff, Bool-cases, Option-cases, Eq, nat_eq, beq_refl, length, get_elem?, All,
  Exists, length-append, append_assoc, append_nil, get_elem?-append, get_elem?-last, length-map,
  All-append, All-map_implies, Text, codes, text_eq, text_eq_iff, text_has_eq, is_empty, Dict,
  lookup, assign, remove, IsDistinct, lookup-assign, lookup-remove, length-assign_absent,
  length-assign_present, length-remove, assign-IsDistinct, remove-IsDistinct,
}

-- What a programming error panics with.
pub data Mistake : Type 0 where
  no_leading_slash empty_segment unnamed_placeholder index_out_of_range : Mistake
  malformed_segment forbidden_segment forbidden_name repeated_name unknown_name : Text → Mistake
  refused_values : Mistake

-- What a function that may panic hands out.
pub data Returned {ℓ} (A : Type ℓ) : Type ℓ where
  returns : A → Returned A
  panics : Mistake → Returned A

infixl 5 ◌then◌
abbrev pub ◌then◌ {ℓ κ} : {A : Type ℓ} {B : Type κ} → Returned A → (A → Returned B) → Returned B
returns a then f = f a
panics mistake then f = panics mistake

-- The error of Check.
pub data Refusal : Type 0 where
  wrong_number : ℕ → ℕ → Refusal
  empty_value : Text → Refusal
  forbidden_value : Text → Text → Refusal

abbrev pub slash : ℕ
slash = b'/'

abbrev pub open_brace : ℕ
open_brace = b'{'

abbrev pub close_brace : ℕ
close_brace = b'}'

abbrev pub is_allowed : ℕ → Bool
is_allowed c =
    (leb b'A' c && leb c b'Z')
    || (leb b'a' c && leb c b'z')
    || (leb b'0' c && leb c b'9')
    || c == b'_'
    || c == b'-'

unfoldable pub has_only_subject_characters : Text → Bool
has_only_subject_characters [] = true
has_only_subject_characters (c ∷ s) = is_allowed c && has_only_subject_characters s

-- `strings.ContainsAny(s, "{}")`
unfoldable pub has_brace : Text → Bool
has_brace [] = false
has_brace (c ∷ s) = c == open_brace || c == close_brace || has_brace s

-- `strings.HasPrefix(s, prefix)` and `strings.TrimPrefix(s, prefix)` for one byte.
abbrev pub starts_with : ℕ → Text → Bool
starts_with p [] = false
starts_with p (c ∷ s) = c == p

abbrev pub trim_prefix : ℕ → Text → Text
trim_prefix p [] = []
trim_prefix p (c ∷ s) = if c == p then s else c ∷ s

-- `strings.CutSuffix(s, "}")`, none if the text does not end like this.
unfoldable pub cut_close_brace : Text → Option Text
cut_close_brace [] = none
cut_close_brace (c ∷ []) = if c == close_brace then some [] else none
cut_close_brace (c ∷ d ∷ s) = elim (cut_close_brace (d ∷ s)) [
  | none ↦ none
  | some before ↦ some (c ∷ before)
]

abbrev pub prepend : ℕ → List Text → List Text
prepend c [] = (c ∷ []) ∷ []
prepend c (part ∷ parts) = (c ∷ part) ∷ parts

-- `strings.Split(s, "/")`
unfoldable pub split : Text → List Text
split [] = [] ∷ []
split (c ∷ s) = let rest = split s in if c == slash then [] ∷ rest else prepend c rest

-- `strings.Join(parts, "/")`
unfoldable pub join_slash : List Text → Text
join_slash [] = []
join_slash (part ∷ []) = part
join_slash (part ∷ next ∷ parts) = part ++ slash ∷ join_slash (next ∷ parts)

-- `slices.Contains`
unfoldable pub contains : Text → List Text → Bool
contains name [] = false
contains name (x ∷ xs) = text_eq x name || contains name xs

-- `segment[1:]`
abbrev pub after_first : Text → Text
after_first [] = []
after_first (c ∷ s) = s

pub record SubjectScheme : Type 0 where
  pub pattern : Text
  pub segments : List Text
  pub placeholders : List Text

abbrev pub is_placeholder : Text → Bool
is_placeholder segment = starts_with open_brace segment

-- The name of the placeholder that a segment in braces stands for. `seen` holds the same names as
-- the placeholders found so far.
unfoldable pub placeholder_name : List Text → Text → Returned Text
placeholder_name seen segment = elim (cut_close_brace (after_first segment)) [
  | none ↦ panics (malformed_segment segment)
  | some name ↦
      if has_brace name
      then panics (malformed_segment segment)
      else if is_empty name
      then panics unnamed_placeholder
      else if not (has_only_subject_characters name)
      then panics (forbidden_name name)
      else if contains name seen
      then panics (repeated_name name)
      else returns name
]

unfoldable pub check_literal : Text → Returned Text
check_literal segment =
    if has_brace segment
    then panics (malformed_segment segment)
    else if not (has_only_subject_characters segment)
    then panics (forbidden_segment segment)
    else returns segment

abbrev pub with_literal : SubjectScheme → Text → SubjectScheme
with_literal scheme segment = record scheme { segments = scheme.segments ++ segment ∷ [] }

abbrev pub with_placeholder : SubjectScheme → Text → Text → SubjectScheme
with_placeholder scheme segment name = record scheme {
  segments = scheme.segments ++ segment ∷ [];
  placeholders = scheme.placeholders ++ name ∷ [];
}

-- One round of the loop over the segments of the pattern.
unfoldable pub add_segment : SubjectScheme → Text → Returned SubjectScheme
add_segment scheme segment =
    if is_empty segment
    then panics empty_segment
    else if not (is_placeholder segment)
    then check_literal segment
    then (λ literal. returns (with_literal scheme segment))
    else placeholder_name scheme.placeholders segment
      then (λ name. returns (with_placeholder scheme segment name))

unfoldable pub add_segments : SubjectScheme → List Text → Returned SubjectScheme
add_segments scheme [] = returns scheme
add_segments scheme (segment ∷ segments) =
    add_segment scheme segment then (λ grown. add_segments grown segments)

unfoldable pub new_subject_scheme : Text → Returned SubjectScheme
new_subject_scheme pattern =
    if not (starts_with slash pattern)
    then panics no_leading_slash
    else add_segments record { pattern = pattern; segments = []; placeholders = [] }
        (split (trim_prefix slash pattern))

-- The literal segments before the first placeholder.
unfoldable pub leading_literals : List Text → List Text
leading_literals [] = []
leading_literals (segment ∷ segments) =
    let rest = leading_literals segments in if is_placeholder segment then [] else segment ∷ rest

unfoldable pub root : SubjectScheme → Text
root scheme = slash ∷ join_slash (leading_literals scheme.segments)

-- The loop of check over the values, the placeholders being as many.
unfoldable pub check_values : List Text → List Text → Option Refusal
check_values (name ∷ names) (value ∷ values) =
    if is_empty value
    then some (empty_value name)
    else if not (has_only_subject_characters value)
    then some (forbidden_value value name)
    else check_values names values
check_values _ _ = none

unfoldable pub check : SubjectScheme → List Text → Option Refusal
check scheme values =
    let needed = length scheme.placeholders in
    let given = length values in
    if not (given == needed)
    then some (wrong_number needed given)
    else check_values scheme.placeholders values

-- The loop of Build over the segments, with the values from `next` on.
unfoldable pub build_from : List Text → List Text → Returned Text
build_from [] values = returns []
build_from (segment ∷ segments) values = elim (is_placeholder segment) [
  | false ↦ build_from segments values then (λ rest. returns (slash ∷ segment ++ rest))
  | true ↦ elim values [
    | [] ↦ panics index_out_of_range
    | value ∷ after ↦ build_from segments after then (λ rest. returns (slash ∷ value ++ rest))
  ]
]

unfoldable pub build : SubjectScheme → List Text → Returned Text
build scheme values = elim (check scheme values) [
  | some refusal ↦ panics refused_values
  | none ↦ build_from scheme.segments values
]

-- The loop of Match over segments and parts, with the placeholders from `next` on and the values
-- found so far; none if the subject does not follow the pattern.
unfoldable pub match_from :
    List Text → List Text → List Text → Dict Text Text → Returned (Option (Dict Text Text))
match_from [] parts names values = returns (some values)
match_from (segment ∷ segments) [] names values = panics index_out_of_range
match_from (segment ∷ segments) (part ∷ parts) names values = elim (is_placeholder segment) [
  | false ↦ if text_eq part segment then match_from segments parts names values else returns none
  | true ↦
      if is_empty part || not (has_only_subject_characters part) then returns none else elim names [
        | [] ↦ panics index_out_of_range
        | name ∷ after ↦ match_from segments parts after (assign name part values)
      ]
]

unfoldable pub match : SubjectScheme → Text → Returned (Option (Dict Text Text))
match scheme subject =
    let parts = split (trim_prefix slash subject) in
    if not (starts_with slash subject)
    then returns none
    else if not (length parts == length scheme.segments)
    then returns none
    else match_from scheme.segments parts scheme.placeholders []

-- `values[placeholder]`, which is the empty text for a key that is missing.
abbrev or_empty : Option Text → Text
or_empty none = []
or_empty (some value) = value

abbrev pub value_at : Text → Dict Text Text → Text
value_at name values = or_empty (lookup name values)

unfoldable pub value_of : SubjectScheme → Text → Text → Returned (Option Text)
value_of scheme subject placeholder =
    if not (contains placeholder scheme.placeholders)
    then panics (unknown_name placeholder)
    else match scheme subject then (λ found. elim found [
      | none ↦ returns none
      | some values ↦ returns (some (value_at placeholder values))
    ])

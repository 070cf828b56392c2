-- ===== src/Subject/Parts.antt =====
-- The segments of a well-formed scheme and the parts of the subjects it describes, as Build and
-- Match of architecturekit/subject.go walk along them.
use architecturekit_golang.Base.{
  suc, ◌≡◌, refl, sym, ap, subst, ◌⊎◌, inl, inr, false, not, ◌||◌, Option, none, some, List, [],
  ◌∷◌, arith, Bool-cases, nat_eq, length, All, Text, text_eq, text_eq_iff, text_has_eq, is_empty,
  Dict, assign,
}
use architecturekit_golang.Subject.{
  Returned, returns, has_only_subject_characters, is_placeholder, check_values, build_from,
  match_from,
}
use architecturekit_golang.Subject.Characters.{
  IsSegmentText, braced, is_empty-false, not_empty-is_empty,
}
use architecturekit_golang.Subject.Splitting.{slashed}

-- The segments spell out the names of the placeholders in order, and the literals between them.
pub data Spelled : List Text → List Text → Type 0 where
  nothing : Spelled [] []
  literal :
      (segment : Text) (segments names : List Text)
      → IsSegmentText segment
      → Spelled segments names
      → Spelled (segment ∷ segments) names
  placeholder :
      (name : Text) (segments names : List Text)
      → IsSegmentText name
      → Spelled segments names
      → Spelled (braced name ∷ segments) (name ∷ names)

-- Segments, the names in them, the values for these, and the parts of the subject they make up.
pub data Filled : List Text → List Text → List Text → List Text → Type 0 where
  none_left : Filled [] [] [] []
  as_it_is :
      (segment : Text) (segments names values parts : List Text)
      → IsSegmentText segment
      → Filled segments names values parts
      → Filled (segment ∷ segments) names values (segment ∷ parts)
  by_value :
      (name value : Text) (segments names values parts : List Text)
      → IsSegmentText value
      → Filled segments names values parts
      → Filled (braced name ∷ segments) (name ∷ names) (value ∷ values) (value ∷ parts)

-- What Match writes into its map.
abbrev pub assign_all : List Text → List Text → Dict Text Text → Dict Text Text
assign_all (name ∷ names) (value ∷ values) dict = assign_all names values (assign name value dict)
assign_all _ _ dict = dict

pub literal-is_placeholder :
    (segment : Text) → IsSegmentText segment → is_placeholder segment ≡ false
unfolding has_only_subject_characters
literal-is_placeholder [] h = refl
literal-is_placeholder (c ∷ s) h = ground arith

pub Filled-build_from :
    (segments names values parts : List Text)
    → Filled segments names values parts
    → build_from segments values ≡ returns (slashed parts)
unfolding build_from
Filled-build_from _ _ _ _ none_left = refl
Filled-build_from _ _ _ _ (as_it_is segment segments names values parts h filled) =
    rw (build_from, literal-is_placeholder segment h, Filled-build_from _ _ _ _ filled) refl
Filled-build_from _ _ _ _ (by_value name value segments names values parts h filled) =
    rw (build_from, Filled-build_from _ _ _ _ filled) refl

pub Filled-match_from :
    (segments names values parts : List Text) (dict : Dict Text Text)
    → Filled segments names values parts
    → match_from segments parts names dict ≡ returns (some (assign_all names values dict))
unfolding match_from
Filled-match_from _ _ _ _ dict none_left = refl
Filled-match_from _ _ _ _ dict (as_it_is segment segments names values parts h filled) =
    rw (match_from, literal-is_placeholder segment h, (text_eq_iff segment segment).1 refl)
      (Filled-match_from _ _ _ _ dict filled)
Filled-match_from _ _ _ _ dict (by_value name value segments names values parts h filled) =
    rw (match_from, not_empty-is_empty value h.0, h.1)
      (Filled-match_from _ _ _ _ (assign name value dict) filled)

pub Filled-All :
    (segments names values parts : List Text)
    → Filled segments names values parts
    → All IsSegmentText parts × (length parts ≡ length segments)
Filled-All _ _ _ _ none_left = (tt, refl)
Filled-All _ _ _ _ (as_it_is segment segments names values parts h filled) =
    let (all, same) = Filled-All _ _ _ _ filled in ((h, all), ap suc same)
Filled-All _ _ _ _ (by_value name value segments names values parts h filled) =
    let (all, same) = Filled-All _ _ _ _ filled in ((h, all), ap suc same)

-- Values that Check accepts fill the segments.
pub check_values-Filled :
    (segments names values : List Text)
    → Spelled segments names
    → length values ≡ length names
    → check_values names values ≡ none
    → (parts : List Text) × Filled segments names values parts
unfolding check_values
check_values-Filled _ _ [] nothing same accepted = ([], none_left)
check_values-Filled _ _ (value ∷ values) nothing same accepted = ground arith
check_values-Filled _ _ values (literal segment segments names h spelled) same accepted =
    let (parts, filled) = check_values-Filled segments names values spelled same accepted in
    (segment ∷ parts, as_it_is segment segments names values parts h filled)
check_values-Filled _ _ [] (placeholder name segments names h spelled) same accepted = ground arith
check_values-Filled _ _ (value ∷ values) (placeholder name segments names h spelled) same accepted =
    let (parts, filled) =
      check_values-Filled segments names values spelled (omega (arith, same)) (ground arith) in
    let full : is_empty value ≡ false = ground arith in
    let good : IsSegmentText value = (is_empty-false value full, ground arith) in
    (value ∷ parts, by_value name value segments names values parts good filled)

-- Values that fill the segments pass Check.
pub Filled-check_values :
    (segments names values parts : List Text)
    → Filled segments names values parts
    → (length values ≡ length names) × (check_values names values ≡ none)
unfolding check_values
Filled-check_values _ _ _ _ none_left = (refl, refl)
Filled-check_values _ _ _ _ (as_it_is segment segments names values parts h filled) =
    Filled-check_values _ _ _ _ filled
Filled-check_values _ _ _ _ (by_value name value segments names values parts h filled) =
    let (same, accepted) = Filled-check_values _ _ _ _ filled in
    (ap suc same, rw (check_values, not_empty-is_empty value h.0, h.1) accepted)

-- Match takes apart exactly parts that some values fill, and never runs out of range.
pub data Taken (segments names parts : List Text) (dict : Dict Text Text)
    : Returned (Option (Dict Text Text)) → Type 0 where
  fits :
      (values : List Text)
      → Filled segments names values parts
      → Taken segments names parts dict (returns (some (assign_all names values dict)))
  unfit : Taken segments names parts dict (returns none)

pub Taken-cases :
    (segments names parts : List Text) (dict : Dict Text Text)
    (found : Returned (Option (Dict Text Text)))
    → Taken segments names parts dict found
    → (found ≡ returns none)
      ⊎ ((values : List Text) × Filled segments names values parts
          × (found ≡ returns (some (assign_all names values dict))))
Taken-cases segments names parts dict _ (fits values filled) = inr (values, filled, refl)
Taken-cases segments names parts dict _ unfit = inl refl

as_it_is-Taken :
    (segment : Text) (segments names parts : List Text) (dict : Dict Text Text)
    (rest : Returned (Option (Dict Text Text)))
    → IsSegmentText segment
    → Taken segments names parts dict rest
    → Taken (segment ∷ segments) names (segment ∷ parts) dict rest
as_it_is-Taken segment segments names parts dict _ h (fits values filled) =
    fits values (as_it_is segment segments names values parts h filled)
as_it_is-Taken segment segments names parts dict _ h unfit = unfit

by_value-Taken :
    (name value : Text) (segments names parts : List Text) (dict : Dict Text Text)
    (rest : Returned (Option (Dict Text Text)))
    → IsSegmentText value
    → Taken segments names parts (assign name value dict) rest
    → Taken (braced name ∷ segments) (name ∷ names) (value ∷ parts) dict rest
by_value-Taken name value segments names parts dict _ h (fits values filled) =
    fits (value ∷ values) (by_value name value segments names values parts h filled)
by_value-Taken name value segments names parts dict _ h unfit = unfit

pub match_from-Taken :
    (segments names parts : List Text) (dict : Dict Text Text)
    → Spelled segments names
    → length parts ≡ length segments
    → Taken segments names parts dict (match_from segments parts names dict)
unfolding match_from
match_from-Taken _ _ [] dict nothing same = fits [] none_left
match_from-Taken _ _ (part ∷ parts) dict nothing same = ground arith
match_from-Taken _ _ [] dict (literal segment segments names h spelled) same = ground arith
match_from-Taken _ _ (part ∷ parts) dict (literal segment segments names h spelled) same =
    elim (Bool-cases (text_eq part segment)) [
      | inr differs ↦ rw (match_from, literal-is_placeholder segment h, differs) unfit
      | inl equal ↦
          let rest =
            as_it_is-Taken segment segments names parts dict _ h
              (match_from-Taken segments names parts dict spelled (omega (arith, same))) in
          rw (match_from, literal-is_placeholder segment h, equal)
            (subst
              (λ p.
                Taken (segment ∷ segments) names (p ∷ parts) dict
                  (match_from segments parts names dict))
              (sym ((text_eq_iff part segment).0 equal)) rest)
    ]
match_from-Taken _ _ [] dict (placeholder name segments names h spelled) same = ground arith
match_from-Taken _ _ (part ∷ parts) dict (placeholder name segments names h spelled) same =
    elim (Bool-cases (is_empty part || not (has_only_subject_characters part))) [
      | inl refused ↦ rw (match_from, refused) unfit
      | inr taken ↦
          let full : is_empty part ≡ false = ground arith in
          rw (match_from, taken)
            (by_value-Taken name part segments names parts dict _
              (is_empty-false part full, ground arith)
              (match_from-Taken segments names parts _ spelled (omega (arith, same))))
    ]

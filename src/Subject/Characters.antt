-- ===== src/Subject/Characters.antt =====
-- The characters of the segments of a subject: architecturekit/subject.go.
use architecturekit_golang.Base.{
  ◌≡◌, refl, ap, subst, ◌≢◌, inl, inr, true, false, some, [], ◌∷◌, ◌++◌, arith, Option-cases,
  nat_eq, All, Text, text_has_eq, is_empty,
}
use architecturekit_golang.Subject.{
  has_only_subject_characters, has_brace, slash, open_brace, close_brace, cut_close_brace, is_empty,
}

abbrev pub NoSlash : Text → Type 0
NoSlash s = All (λ c. c ≢ slash) s

-- What the database takes as a segment.
abbrev pub IsSegmentText : Text → Type 0
IsSegmentText s = (s ≢ []) × (has_only_subject_characters s ≡ true)

pub has_only_subject_characters-NoSlash :
    (s : Text) → has_only_subject_characters s ≡ true → NoSlash s
unfolding has_only_subject_characters
has_only_subject_characters-NoSlash [] h = tt
has_only_subject_characters-NoSlash (c ∷ s) h =
    (λ p. ground arith, has_only_subject_characters-NoSlash s (ground arith))

pub has_only_subject_characters-has_brace :
    (s : Text) → has_only_subject_characters s ≡ true → has_brace s ≡ false
unfolding has_only_subject_characters has_brace
has_only_subject_characters-has_brace [] h = refl
has_only_subject_characters-has_brace (c ∷ s) h =
    ground (arith, has_only_subject_characters-has_brace s)

pub is_empty-false : (s : Text) → is_empty s ≡ false → s ≢ []
is_empty-false [] h = ground arith
is_empty-false (c ∷ s) h = λ p. ground arith

pub not_empty-is_empty : (s : Text) → s ≢ [] → is_empty s ≡ false
not_empty-is_empty [] h = absurd (h refl)
not_empty-is_empty (c ∷ s) h = refl

-- A segment in braces, from its name.
abbrev pub braced : Text → Text
braced name = open_brace ∷ name ++ close_brace ∷ []

pub cut_close_brace-append : (name : Text) → cut_close_brace (name ++ close_brace ∷ []) ≡ some name
unfolding cut_close_brace
cut_close_brace-append [] = refl
cut_close_brace-append (c ∷ []) = refl
cut_close_brace-append (c ∷ d ∷ s) = rw (cut_close_brace-append (d ∷ s)) refl

pub cut_close_brace-some :
    (s name : Text) → cut_close_brace s ≡ some name → s ≡ name ++ close_brace ∷ []
unfolding cut_close_brace
cut_close_brace-some [] name h = ground arith
cut_close_brace-some (c ∷ []) [] h = ground arith
cut_close_brace-some (c ∷ []) (d ∷ s) h = ground arith
cut_close_brace-some (c ∷ d ∷ s) name h = elim (Option-cases (cut_close_brace (d ∷ s))) [
  | inl none_found ↦ ground arith
  | inr (before, found) ↦
      let rest : d ∷ s ≡ before ++ close_brace ∷ [] = cut_close_brace-some (d ∷ s) before found in
      let same : c ∷ before ≡ name = ground arith in
      subst (λ n. c ∷ d ∷ s ≡ n ++ close_brace ∷ []) same (ap (λ r. c ∷ r) rest)
]

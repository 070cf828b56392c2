-- ===== src/Subject/Rounds.antt =====
-- The rounds of the loop of NewSubjectScheme, architecturekit/subject.go.
use architecturekit_golang.Base.{
  ◌≡◌, refl, sym, ap, ◌∙◌, subst, ◌⊎◌, inl, inr, true, false, ◌||◌, some, List, [], ◌∷◌, ◌++◌,
  arith, Bool-cases, Option-cases, nat_eq, append_assoc, append_nil, Text, text_eq, text_eq_iff,
  text_has_eq, is_empty,
}
use architecturekit_golang.Subject.{
  SubjectScheme, Returned, Mistake, returns, panics, is_placeholder, has_only_subject_characters,
  cut_close_brace, contains, placeholder_name, check_literal, add_segment, with_literal,
  with_placeholder, add_segments,
}
use architecturekit_golang.Subject.Characters.{
  IsSegmentText, braced, is_empty-false, not_empty-is_empty, has_only_subject_characters-has_brace,
  cut_close_brace-append, cut_close_brace-some,
}
use architecturekit_golang.Subject.Parts.{Spelled, nothing, literal, placeholder}
use architecturekit_golang.Subject.RoundTrip.{AreDistinct}

pub Returned-cases {ℓ} :
    {A : Type ℓ} (r : Returned A)
    → ((a : A) × (r ≡ returns a)) ⊎ ((mistake : Mistake) × (r ≡ panics mistake))
Returned-cases (returns a) = inl (a, refl)
Returned-cases (panics mistake) = inr (mistake, refl)

-- The segment that the loop takes as a placeholder is its name in braces, and the name is new.
placeholder_name_sound :
    (seen : List Text) (segment name : Text)
    → is_placeholder segment ≡ true
    → placeholder_name seen segment ≡ returns name
    → (segment ≡ braced name) × IsSegmentText name × (contains name seen ≡ false)
unfolding placeholder_name
placeholder_name_sound seen [] name h e = ground arith
placeholder_name_sound seen (c ∷ s) name h e = elim (Option-cases (cut_close_brace s)) [
  | inl not_closed ↦ ground arith
  | inr (before, closed) ↦
      let same : before ≡ name = ground arith in
      let full : is_empty name ≡ false = ground arith in
      let braces : s ≡ name ++ b'}' ∷ [] = cut_close_brace-some s name (closed ∙ ap some same) in
      (ground (arith, braces), (is_empty-false name full, ground arith), ground arith)
]

pub placeholder_name_complete :
    (seen : List Text) (name : Text)
    → IsSegmentText name
    → contains name seen ≡ false
    → placeholder_name seen (braced name) ≡ returns name
unfolding placeholder_name cut_close_brace
placeholder_name_complete seen name h new =
    rw
      (
        cut_close_brace-append name,
        has_only_subject_characters-has_brace name h.1,
        not_empty-is_empty name h.0,
        h.1,
        new,
      )
      refl

check_literal_sound :
    (segment text : Text)
    → check_literal segment ≡ returns text
    → has_only_subject_characters segment ≡ true
unfolding check_literal
check_literal_sound segment text e = ground arith

append-Spelled :
    (segments names more others : List Text)
    → Spelled segments names
    → Spelled more others
    → Spelled (segments ++ more) (names ++ others)
append-Spelled _ _ more others nothing rest = rest
append-Spelled _ _ more others (literal segment segments names h spelled) rest =
    literal segment _ _ h (append-Spelled _ _ more others spelled rest)
append-Spelled _ _ more others (placeholder name segments names h spelled) rest =
    placeholder name _ _ h (append-Spelled _ _ more others spelled rest)

contains-append :
    (name : Text) (xs ys : List Text)
    → contains name (xs ++ ys) ≡ contains name xs || contains name ys
unfolding contains
contains-append name [] ys = refl
contains-append name (x ∷ xs) ys = ground (arith, contains-append name xs ys)

append-AreDistinct :
    (names : List Text) (name : Text)
    → AreDistinct names
    → contains name names ≡ false
    → AreDistinct (names ++ name ∷ [])
unfolding contains
append-AreDistinct [] name d new = (refl, tt)
append-AreDistinct (n ∷ names) name d new =
    let differs : text_eq name n ≡ false = ground (arith, text_eq_iff name n, text_eq_iff n name) in
    (
      contains-append n names (name ∷ []) ∙ ground arith,
      append-AreDistinct names name d.1 (ground arith),
    )

pub append-AreDistinct_new :
    (names : List Text) (name : Text) (others : List Text)
    → AreDistinct (names ++ name ∷ others)
    → contains name names ≡ false
unfolding contains
append-AreDistinct_new [] name others d = refl
append-AreDistinct_new (n ∷ names) name others d = ground (
  arith,
  append-AreDistinct_new names name others d.1,
  contains-append n names (name ∷ others),
  text_eq_iff n name,
  text_eq_iff name n,
)

-- What one round of the loop makes of the segment.
data IsGrown (scheme : SubjectScheme) : Text → SubjectScheme → Type 0 where
  by_literal :
      (segment : Text)
      → IsSegmentText segment
      → IsGrown scheme segment (with_literal scheme segment)
  by_placeholder :
      (name : Text)
      → IsSegmentText name
      → contains name scheme.placeholders ≡ false
      → IsGrown scheme (braced name) (with_placeholder scheme (braced name) name)

returns_injective {ℓ} : {A : Type ℓ} (a b : A) → returns a ≡ returns b → a ≡ b
returns_injective a b h = ground arith

add_segment_sound :
    (scheme grown : SubjectScheme) (segment : Text)
    → add_segment scheme segment ≡ returns grown
    → IsGrown scheme segment grown
unfolding add_segment
add_segment_sound scheme grown segment e = elim (Bool-cases (is_empty segment)) [
  | inl empty ↦ absurd (ground arith)
  | inr full ↦ elim (Bool-cases (is_placeholder segment)) [
    | inl in_braces ↦ elim (Returned-cases (placeholder_name scheme.placeholders segment)) [
      | inr (mistake, panicked) ↦ absurd (ground arith)
      | inl (name, named) ↦
          let (spelled_out, good, new) =
            placeholder_name_sound scheme.placeholders segment name in_braces named in
          let same : with_placeholder scheme segment name ≡ grown =
            returns_injective _ _ (ground arith) in
          subst (IsGrown scheme segment) same (
            subst (λ s. IsGrown scheme s (with_placeholder scheme s name)) (sym spelled_out)
              (by_placeholder name good new))
    ]
    | inr bare ↦ elim (Returned-cases (check_literal segment)) [
      | inr (mistake, panicked) ↦ absurd (ground arith)
      | inl (text, checked) ↦
          let good : IsSegmentText segment =
            (is_empty-false segment full, check_literal_sound segment text checked) in
          let same : with_literal scheme segment ≡ grown = returns_injective _ _ (ground arith) in
          subst (IsGrown scheme segment) same (by_literal segment good)
    ]
  ]
]

-- The loop keeps the pattern, appends the segments, and keeps what is well-formed about them.
pub record IsGrownBy (scheme grown : SubjectScheme) (segments : List Text) : Type 0 where
  pub pattern_kept : grown.pattern ≡ scheme.pattern
  pub appended : grown.segments ≡ scheme.segments ++ segments
  pub spelled : Spelled grown.segments grown.placeholders
  pub distinct : AreDistinct grown.placeholders

step-IsGrownBy :
    (scheme grown : SubjectScheme) (segment : Text)
    → IsGrown scheme segment grown
    → Spelled scheme.segments scheme.placeholders
    → AreDistinct scheme.placeholders
    → IsGrownBy scheme grown (segment ∷ [])
step-IsGrownBy scheme _ _ (by_literal segment h) spelled distinct = record {
  pattern_kept = refl;
  appended = refl;
  spelled =
      subst (Spelled _) (append_nil scheme.placeholders)
        (append-Spelled _ _ _ _ spelled (literal segment [] [] h nothing));
  distinct = distinct;
}
step-IsGrownBy scheme _ _ (by_placeholder name h new) spelled distinct = record {
  pattern_kept = refl;
  appended = refl;
  spelled = append-Spelled _ _ _ _ spelled (placeholder name [] [] h nothing);
  distinct = append-AreDistinct scheme.placeholders name distinct new;
}

pub add_segments_sound :
    (scheme grown : SubjectScheme) (segments : List Text)
    → Spelled scheme.segments scheme.placeholders
    → AreDistinct scheme.placeholders
    → add_segments scheme segments ≡ returns grown
    → IsGrownBy scheme grown segments
unfolding add_segments
add_segments_sound scheme grown [] spelled distinct e =
    let same : scheme ≡ grown = returns_injective _ _ e in
    subst (λ g. IsGrownBy scheme g []) same
      record {
        pattern_kept = refl;
        appended = sym (append_nil scheme.segments);
        spelled = spelled;
        distinct = distinct;
      }
add_segments_sound scheme grown (segment ∷ segments) spelled distinct e =
    elim (Returned-cases (add_segment scheme segment)) [
      | inr (mistake, panicked) ↦ absurd (ground arith)
      | inl (next, stepped) ↦
          let one =
            step-IsGrownBy scheme next segment (add_segment_sound scheme next segment stepped)
              spelled distinct in
          let rest =
            add_segments_sound next grown segments one.spelled one.distinct (ground arith) in
          record {
            pattern_kept = rest.pattern_kept ∙ one.pattern_kept;
            appended =
                rest.appended
                ∙ (ap (λ s. s ++ segments) one.appended
                    ∙ append_assoc scheme.segments (segment ∷ []) segments);
            spelled = rest.spelled;
            distinct = rest.distinct;
          }
    ]

-- ===== src/Subject/Parsed.antt =====
-- NewSubjectScheme of architecturekit/subject.go and the schemes it returns.
use architecturekit_golang.Base.{
  ◌≡◌, refl, sym, ap, ◌∙◌, subst, ◌≢◌, ◌↔◌, inl, inr, false, List, [], ◌∷◌, ◌++◌, arith, ◌==◌,
  Bool-cases, nat_eq, All, append_assoc, append_nil, All-append, Text, text_has_eq,
}
use architecturekit_golang.Subject.{
  SubjectScheme, returns, slash, split, contains, check_literal, add_segment, with_literal,
  with_placeholder, add_segments, new_subject_scheme,
}
use architecturekit_golang.Subject.Characters.{
  NoSlash, IsSegmentText, braced, has_only_subject_characters-NoSlash, not_empty-is_empty,
  has_only_subject_characters-has_brace,
}
use architecturekit_golang.Subject.Splitting.{slashed, split-slashed, slashed-split}
use architecturekit_golang.Subject.Parts.{
  Spelled, nothing, literal, placeholder, literal-is_placeholder,
}
use architecturekit_golang.Subject.RoundTrip.{AreDistinct, IsWellFormed}
use architecturekit_golang.Subject.Rounds.{
  placeholder_name_complete, append-AreDistinct_new, add_segments_sound,
}

with_literal-add_segment :
    (scheme : SubjectScheme) (segment : Text)
    → IsSegmentText segment
    → add_segment scheme segment ≡ returns (with_literal scheme segment)
unfolding add_segment check_literal
with_literal-add_segment scheme segment h =
    rw
      (
        add_segment,
        not_empty-is_empty segment h.0,
        literal-is_placeholder segment h,
        has_only_subject_characters-has_brace segment h.1,
        h.1,
      )
      refl

with_placeholder-add_segment :
    (scheme : SubjectScheme) (name : Text)
    → IsSegmentText name
    → contains name scheme.placeholders ≡ false
    → add_segment scheme (braced name) ≡ returns (with_placeholder scheme (braced name) name)
unfolding add_segment
with_placeholder-add_segment scheme name h new =
    rw (add_segment, placeholder_name_complete scheme.placeholders name h new) refl

add_segments_complete :
    (scheme : SubjectScheme) (segments names : List Text)
    → Spelled segments names
    → AreDistinct (scheme.placeholders ++ names)
    → add_segments scheme segments
      ≡ returns record {
        pattern = scheme.pattern;
        segments = scheme.segments ++ segments;
        placeholders = scheme.placeholders ++ names;
      }
unfolding add_segments
add_segments_complete scheme _ _ nothing d =
    rw (append_nil scheme.segments, append_nil scheme.placeholders) refl
add_segments_complete scheme _ names (literal segment segments _ h spelled) d =
    rw
      (
        add_segments,
        with_literal-add_segment scheme segment h,
        add_segments_complete (with_literal scheme segment) segments names spelled d,
        append_assoc scheme.segments (segment ∷ []) segments,
      )
      refl
add_segments_complete scheme _ _ (placeholder name segments names h spelled) d =
    let new = append-AreDistinct_new scheme.placeholders name names d in
    let moved = append_assoc scheme.placeholders (name ∷ []) names in
    rw
      (
        add_segments,
        with_placeholder-add_segment scheme name h new,
        add_segments_complete (with_placeholder scheme (braced name) name) segments names spelled
            (subst AreDistinct (sym moved) d),
        append_assoc scheme.segments (braced name ∷ []) segments,
        moved,
      )
      refl

braced-NoSlash : (name : Text) → IsSegmentText name → NoSlash (braced name)
braced-NoSlash name h = (
  λ p. ground arith,
  All-append _ name (b'}' ∷ []) (has_only_subject_characters-NoSlash name h.1)
      (λ p. ground arith, tt),
)

Spelled-NoSlash : (segments names : List Text) → Spelled segments names → All NoSlash segments
Spelled-NoSlash _ _ nothing = tt
Spelled-NoSlash _ _ (literal segment segments names h spelled) =
    (has_only_subject_characters-NoSlash segment h.1, Spelled-NoSlash segments names spelled)
Spelled-NoSlash _ _ (placeholder name segments names h spelled) =
    (braced-NoSlash name h, Spelled-NoSlash segments names spelled)

split-not_empty : (s : Text) → split s ≢ []
split-not_empty s empty = absurd (ground (arith, slashed-split s, ap slashed empty))

new_subject_scheme_sound :
    (pattern : Text) (scheme : SubjectScheme)
    → new_subject_scheme pattern ≡ returns scheme
    → IsWellFormed scheme × (scheme.pattern ≡ pattern)
unfolding new_subject_scheme
new_subject_scheme_sound [] scheme e = ground arith
new_subject_scheme_sound (c ∷ s) scheme e = elim (Bool-cases (c == slash)) [
  | inr other ↦ absurd (ground arith)
  | inl begins ↦
      let empty : SubjectScheme = record { pattern = c ∷ s; segments = []; placeholders = [] } in
      let grown = add_segments_sound empty scheme (split s) nothing tt (ground arith) in
      let same : scheme.segments ≡ split s = grown.appended in
      (
        record {
          spelled = grown.spelled;
          distinct = grown.distinct;
          written = ap slashed same ∙ (slashed-split s ∙ (ground arith ∙ sym grown.pattern_kept));
          not_empty = λ none_left. split-not_empty s (sym same ∙ none_left);
        },
        grown.pattern_kept,
      )
]

new_subject_scheme_complete :
    (pattern : Text) (segments names : List Text)
    → Spelled segments names
    → AreDistinct names
    → slashed segments ≡ pattern
    → segments ≢ []
    → new_subject_scheme pattern
      ≡ returns record { pattern = pattern; segments = segments; placeholders = names }
unfolding new_subject_scheme
new_subject_scheme_complete pattern [] names spelled d written h = absurd (h refl)
new_subject_scheme_complete pattern (segment ∷ segments) names spelled d written h =
    let no_slash = Spelled-NoSlash _ _ spelled in
    let parts : split (segment ++ slashed segments) ≡ segment ∷ segments =
      split-slashed segment segments no_slash.0 no_slash.1 in
    let read =
      add_segments_complete record { pattern = pattern; segments = []; placeholders = [] } _ _
        spelled d in
    subst
      (λ p.
        new_subject_scheme p
        ≡ returns record { pattern = p; segments = segment ∷ segments; placeholders = names })
      written (rw (new_subject_scheme, parts, written) read)

-- NewSubjectScheme returns a scheme exactly if the scheme is well-formed and its segments, each
-- behind a slash, are the pattern. So a pattern yields at most one scheme, and panics if there is
-- none.
pub new_subject_scheme_exact :
    (pattern : Text) (scheme : SubjectScheme)
    → (new_subject_scheme pattern ≡ returns scheme)
      ↔ (IsWellFormed scheme × (scheme.pattern ≡ pattern))
new_subject_scheme_exact pattern scheme = (
  new_subject_scheme_sound pattern scheme,
  λ (w, same).
      new_subject_scheme_complete pattern scheme.segments scheme.placeholders w.spelled w.distinct
        (w.written ∙ same) w.not_empty
      ∙ ap (λ p. returns record scheme { pattern = p }) (sym same),
)

-- ===== src/Subject/Splitting.antt =====
-- `strings.Split` at slashes and its inverse, as architecturekit/subject.go uses them.
use architecturekit_golang.Base.{
  ℕ, ◌≡◌, refl, ap, ◌∙◌, subst, inl, inr, false, List, [], ◌∷◌, ◌++◌, arith, ◌==◌, Bool-cases,
  nat_eq, All, append_nil, Text, text_has_eq,
}
use architecturekit_golang.Subject.{split, prepend, slash}
use architecturekit_golang.Subject.Characters.{NoSlash}

-- Each part behind a slash of its own.
abbrev pub slashed : List Text → Text
slashed [] = []
slashed (part ∷ parts) = slash ∷ part ++ slashed parts

-- The parts behind the first one.
abbrev joined : Text → List Text → Text
joined part parts = part ++ slashed parts

split-cases : (s : Text) → (part : Text) × (parts : List Text) × (split s ≡ part ∷ parts)
unfolding split
split-cases [] = ([], [], refl)
split-cases (c ∷ s) =
    let (part, parts, e) = split-cases s in
    elim (Bool-cases (c == slash)) [
      | inl at_slash ↦ ([], split s, rw (split, at_slash) refl)
      | inr inside ↦ (c ∷ part, parts, rw (split, inside, e) refl)
    ]

pub split-append : (part s : Text) → NoSlash part → split (part ++ slash ∷ s) ≡ part ∷ split s
unfolding split
split-append [] s h = refl
split-append (c ∷ part) s h =
    let inside : (c == slash) ≡ false = ground arith in rw (inside, split-append part s h.1) refl

split-NoSlash : (part : Text) → NoSlash part → split part ≡ part ∷ []
unfolding split
split-NoSlash [] h = refl
split-NoSlash (c ∷ part) h =
    let inside : (c == slash) ≡ false = ground arith in rw (inside, split-NoSlash part h.1) refl

-- Splitting takes apart what slashes join.
pub split-slashed :
    (part : Text) (parts : List Text)
    → NoSlash part
    → All NoSlash parts
    → split (part ++ slashed parts) ≡ part ∷ parts
split-slashed part [] h hs = rw (append_nil part) (split-NoSlash part h)
split-slashed part (next ∷ parts) h hs =
    split-append part (next ++ slashed parts) h
    ∙ ap (λ r. part ∷ r) (split-slashed next parts hs.0 hs.1)

slashed-prepend :
    (c : ℕ) (part : Text) (parts : List Text)
    → slashed (prepend c (part ∷ parts)) ≡ slash ∷ c ∷ part ++ slashed parts
slashed-prepend c part parts = refl

-- Slashes join what splitting takes apart.
pub slashed-split : (s : Text) → slashed (split s) ≡ slash ∷ s
unfolding split
slashed-split [] = refl
slashed-split (c ∷ s) =
    let (part, parts, e) = split-cases s in
    let rest : slashed (part ∷ parts) ≡ slash ∷ s =
      subst (λ ps. slashed ps ≡ slash ∷ s) e (slashed-split s) in
    elim (Bool-cases (c == slash)) [
      | inl at_slash ↦ rw (split, at_slash, slashed-split s) (ground arith)
      | inr inside ↦ rw (split, inside, e) (ground arith)
    ]

pub split-All : (s : Text) → All NoSlash (split s)
unfolding split
split-All [] = (tt, tt)
split-All (c ∷ s) =
    let (part, parts, e) = split-cases s in
    let rest : All NoSlash (part ∷ parts) = subst (All NoSlash) e (split-All s) in
    elim (Bool-cases (c == slash)) [
      | inl at_slash ↦ rw (split, at_slash) (tt, split-All s)
      | inr inside ↦ rw (split, inside, e) ((λ p. ground arith, rest.0), rest.1)
    ]

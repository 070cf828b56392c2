-- ===== src/Revision/Parse.antt =====
-- `ParseRevision` of architecturekit/revision.go, with `strconv.ParseUint(revision, 10, 63)`
-- written out: 64-bit arithmetic that wraps, and the tests that keep it from doing so.
use architecturekit_golang.Base.{
  ℕ, ◌+◌, ◌-◌, ◌*◌, ◌/◌, ◌%◌, ◌^◌, ◌≤◌, ◌<◌, ◌≡◌, ◌≢◌, ◌↔◌, refl, Text, [], ◌∷◌, Bool, ◌&&◌, ◌||◌,
  Option, none, some, ltb, leb, if◌then◌else◌, arith, All, ◌⊎◌, inl, inr, Bool-cases, Option-cases,
  sym, ◌∙◌,
}
use architecturekit_golang.Failure.{Result, ok, fail, not_a_revision, wrapping}

abbrev pub max_revision : ℕ
max_revision = 2 ^ 63 - 1

-- The smallest number that overflows 64 bits when it is multiplied by ten.
abbrev cutoff : ℕ
cutoff = (2 ^ 64 - 1) / 10 + 1

abbrev pub is_digit : ℕ → Bool
is_digit c = leb b'0' c && leb c b'9'

unfoldable pub scan : ℕ → Text → Option ℕ
scan n [] = some n
scan n (c ∷ s) =
    let n10 = (n * 10) % 2 ^ 64 in
    let n1 = (n10 + (c - b'0')) % 2 ^ 64 in
    let rest = scan n1 s in
    if is_digit c
    then (if leb cutoff n then none else if ltb n1 n10 || ltb max_revision n1 then none else rest)
    else none

unfoldable pub parse_uint : Text → Option ℕ
unfolding scan
parse_uint [] = none
parse_uint (c ∷ s) = scan 0 (c ∷ s)

unfoldable pub parse_revision : Text → Result ℕ
unfolding parse_uint
parse_revision revision = elim (parse_uint revision) [
  | none ↦ fail (wrapping not_a_revision)
  | some number ↦ ok number
]

abbrev pub IsDigit : ℕ → Type 0
IsDigit c = (b'0' ≤ c) × (c ≤ b'9')

-- The number that a decimal text stands for, without any bound.
unfoldable pub decimal_value : ℕ → Text → ℕ
decimal_value n [] = n
decimal_value n (c ∷ s) = decimal_value (n * 10 + (c - b'0')) s

-- What a revision is, independent of how it is read.
pub record IsRevision (s : Text) (n : ℕ) : Type 0 where
  pub not_empty : s ≢ []
  pub digits : All IsDigit s
  pub stands_for : decimal_value 0 s ≡ n
  pub in_range : n ≤ max_revision

le-decimal_value : (n : ℕ) (s : Text) → n ≤ decimal_value n s
unfolding decimal_value
le-decimal_value n [] = omega arith
le-decimal_value n (c ∷ s) = omega (arith, le-decimal_value (n * 10 + (c - b'0')) s)

-- One round of the loop does not wrap, and passes exactly the digits that stay in range.
scan_step :
    (n c : ℕ) (s : Text)
    → n ≤ max_revision
    → IsDigit c
    → n * 10 + (c - b'0') ≤ max_revision
    → scan n (c ∷ s) ≡ scan (n * 10 + (c - b'0')) s
unfolding scan
scan_step n c s h d r =
    let e : (((n * 10) % 2 ^ 64 + (c - b'0')) % 2 ^ 64) ≡ n * 10 + (c - b'0') = omega arith in
    rw e (ground arith)

scan-none_of_out :
    (n c : ℕ) (s : Text)
    → n ≤ max_revision
    → max_revision < n * 10 + (c - b'0')
    → scan n (c ∷ s) ≡ none
unfolding scan
scan-none_of_out n c s h r = ground arith

abbrev in_range_or_not : (n : ℕ) → (n ≤ max_revision) ⊎ (max_revision < n)
in_range_or_not n = omega arith

scan_sound :
    (n : ℕ) (s : Text) (m : ℕ)
    → n ≤ max_revision
    → scan n s ≡ some m
    → All IsDigit s × (decimal_value n s ≡ m) × (m ≤ max_revision)
unfolding decimal_value
scan_sound n [] m h e = unfold scan in ground arith
scan_sound n (c ∷ s) m h e = elim (Bool-cases (is_digit c)) [
  | inl d ↦ elim (in_range_or_not (n * 10 + (c - b'0'))) [
    | inl r ↦
        let digit : IsDigit c = ground arith in
        let (ds, v, b) =
          scan_sound (n * 10 + (c - b'0')) s m r (sym (scan_step n c s h digit r) ∙ e) in
        ((digit, ds), v, b)
    | inr r ↦ ground (arith, scan-none_of_out n c s h r)
  ]
  | inr d ↦ unfold scan in ground arith
]

scan_complete :
    (n : ℕ) (s : Text)
    → n ≤ max_revision
    → All IsDigit s
    → decimal_value n s ≤ max_revision
    → scan n s ≡ some (decimal_value n s)
unfolding decimal_value
scan_complete n [] h ds b = unfold scan in refl
scan_complete n (c ∷ s) h ds b =
    let k = n * 10 + (c - b'0') in
    let r : k ≤ max_revision = omega (arith, le-decimal_value k s) in
    scan_step n c s h ds.0 r ∙ scan_complete k s r ds.1 b

parse_revision_sound : (s : Text) (n : ℕ) → parse_revision s ≡ ok n → IsRevision s n
unfolding parse_revision
parse_revision_sound [] n e = ground arith
parse_revision_sound (c ∷ s) n e =
    let found : scan 0 (c ∷ s) ≡ some n = ground arith in
    let (ds, v, b) = scan_sound 0 (c ∷ s) n (omega arith) found in
    record { not_empty = λ p. ground arith; digits = ds; stands_for = v; in_range = b }

parse_revision_complete : (s : Text) (n : ℕ) → IsRevision s n → parse_revision s ≡ ok n
unfolding parse_revision
parse_revision_complete [] n r = absurd (r.not_empty refl)
parse_revision_complete (c ∷ s) n r = ground (
  arith,
  scan_complete 0 (c ∷ s) (omega arith) r.digits (omega (arith, r.stands_for)),
  r.stands_for,
)

-- ParseRevision accepts exactly the texts that are not empty, hold decimal digits only, and stand
-- for a number of at most 2^63-1, and returns that number: the loop over 64-bit numbers neither
-- wraps nor refuses too much.
pub parse_revision_exact : (s : Text) (n : ℕ) → (parse_revision s ≡ ok n) ↔ IsRevision s n
parse_revision_exact s n = (parse_revision_sound s n, parse_revision_complete s n)

-- ParseRevision either returns a number or the error that wraps ErrNotARevision.
pub parse_revision-cases :
    (s : Text)
    → ((n : ℕ) × (parse_revision s ≡ ok n)) ⊎ (parse_revision s ≡ fail (wrapping not_a_revision))
unfolding parse_revision
parse_revision-cases s = elim (Option-cases (parse_uint s)) [
  | inl none_found ↦ inr (ground arith)
  | inr (n, found) ↦ inl (n, ground arith)
]

pub parse_revision-le : (s : Text) (n : ℕ) → parse_revision s ≡ ok n → n ≤ max_revision
parse_revision-le s n e = (parse_revision_sound s n e).in_range

-- ===== src/ReadOptions/Range.antt =====
-- What `checkBounds` of architecturekit/read_options.go accepts.
use architecturekit_golang.Base.{
  ℕ, ◌+◌, ◌%◌, ◌^◌, ◌≤◌, ◌<◌, ◌≡◌, refl, ◌↔◌, inl, inr, Option, none, some, arith, nat_eq,
  text_has_eq,
}
use architecturekit_golang.Failure.{ok}
use architecturekit_golang.Revision.{
  parse_revision, parse_revision-cases, parse_revision-le, max_revision,
}
use architecturekit_golang.Failure.{Result-cases}
use architecturekit_golang.ReadOptions.{
  Bound, BoundType, inclusive, exclusive, ReadSettings, first_of, end_of, check_bounds,
}

abbrev pub Above : BoundType → ℕ → ℕ → Type 0
Above inclusive id n = id ≤ n
Above exclusive id n = id < n

abbrev pub Below : BoundType → ℕ → ℕ → Type 0
Below inclusive id n = n ≤ id
Below exclusive id n = n < id

-- The event ID n satisfies a lower bound, whose ID is a revision.
abbrev pub IsAfterLower : Option Bound → ℕ → Type 0
IsAfterLower none n = Unit
IsAfterLower (some b) n = (id : ℕ) × (parse_revision b.id ≡ ok id) × Above b.bound_type id n

abbrev pub IsBeforeUpper : Option Bound → ℕ → Type 0
IsBeforeUpper none n = Unit
IsBeforeUpper (some b) n = (id : ℕ) × (parse_revision b.id ≡ ok id) × Below b.bound_type id n

-- An event ID that the database can hand out lies within the bounds.
abbrev pub HasRoom : ReadSettings → Type 0
HasRoom s = (n : ℕ) × (n ≤ max_revision) × IsAfterLower s.lower n × IsBeforeUpper s.upper n

Above-iff :
    (t : BoundType) (id n : ℕ)
    → id ≤ max_revision
    → (elim t [ inclusive ↦ id | exclusive ↦ (id + 1) % 2 ^ 64 ] ≤ n) ↔ Above t id n
Above-iff inclusive id n h = (λ p. p, λ p. p)
Above-iff exclusive id n h = (λ p. omega arith, λ p. omega arith)

Below-iff :
    (t : BoundType) (id n : ℕ)
    → id ≤ max_revision
    → (n < elim t [ inclusive ↦ (id + 1) % 2 ^ 64 | exclusive ↦ id ]) ↔ Below t id n
Below-iff inclusive id n h = (λ p. omega arith, λ p. omega arith)
Below-iff exclusive id n h = (λ p. p, λ p. p)

first_of_sound : (b : Option Bound) (f n : ℕ) → first_of b ≡ ok f → f ≤ n → IsAfterLower b n
unfolding first_of
first_of_sound none f n e h = tt
first_of_sound (some b) f n e h = elim (parse_revision-cases b.id) [
  | inl (id, p) ↦
      (id, p, (Above-iff b.bound_type id n (parse_revision-le b.id id p)).0 (ground arith))
  | inr p ↦ absurd (ground arith)
]

first_of_complete :
    (b : Option Bound) (n : ℕ) → IsAfterLower b n → (f : ℕ) × (first_of b ≡ ok f) × (f ≤ n)
unfolding first_of
first_of_complete none n h = (0, refl, omega arith)
first_of_complete (some b) n (id, p, a) = (
  elim b.bound_type [ inclusive ↦ id | exclusive ↦ (id + 1) % 2 ^ 64 ],
  ground arith,
  (Above-iff b.bound_type id n (parse_revision-le b.id id p)).1 a,
)

end_of_sound : (b : Option Bound) (e n : ℕ) → end_of b ≡ ok e → n < e → IsBeforeUpper b n
unfolding end_of
end_of_sound none e n p h = tt
end_of_sound (some b) e n q h = elim (parse_revision-cases b.id) [
  | inl (id, p) ↦
      (id, p, (Below-iff b.bound_type id n (parse_revision-le b.id id p)).0 (ground arith))
  | inr p ↦ absurd (ground arith)
]

end_of_complete :
    (b : Option Bound) (n : ℕ)
    → n ≤ max_revision
    → IsBeforeUpper b n
    → (e : ℕ) × (end_of b ≡ ok e) × (n < e)
unfolding end_of
end_of_complete none n m h = (2 ^ 63, refl, omega arith)
end_of_complete (some b) n m (id, p, a) = (
  elim b.bound_type [ inclusive ↦ (id + 1) % 2 ^ 64 | exclusive ↦ id ],
  ground arith,
  (Below-iff b.bound_type id n (parse_revision-le b.id id p)).1 a,
)

end_of-le : (b : Option Bound) (e : ℕ) → end_of b ≡ ok e → e ≤ 2 ^ 63
unfolding end_of
end_of-le none e h = ground arith
end_of-le (some b) e h = elim (parse_revision-cases b.id) [
  | inl (id, p) ↦ let le : id ≤ max_revision = parse_revision-le b.id id p in ground arith
  | inr p ↦ absurd (ground arith)
]

check_bounds_sound : (s : ReadSettings) → check_bounds s ≡ ok tt → HasRoom s
unfolding check_bounds
check_bounds_sound s h = elim (Result-cases (first_of s.lower)) [
  | inl (f, p) ↦ elim (Result-cases (end_of s.upper)) [
    | inl (e, q) ↦
        let lt : f < e = ground arith in
        (
          f,
          omega (arith, end_of-le s.upper e q),
          first_of_sound s.lower f f p (omega arith),
          end_of_sound s.upper e f q lt,
        )
    | inr (e, q) ↦ absurd (ground arith)
  ]
  | inr (e, q) ↦ absurd (ground arith)
]

check_bounds_complete : (s : ReadSettings) → HasRoom s → check_bounds s ≡ ok tt
unfolding check_bounds
check_bounds_complete s (n, m, a, b) =
    let (f, p, pf) = first_of_complete s.lower n a in
    let (e, q, qe) = end_of_complete s.upper n m b in ground arith

-- The check of the bounds passes exactly if both IDs are revisions and some event ID from 0 to
-- 2^63-1 lies within the bounds; no arithmetic on 64-bit numbers wraps on the way.
pub check_bounds_exact : (s : ReadSettings) → (check_bounds s ≡ ok tt) ↔ HasRoom s
check_bounds_exact s = (check_bounds_sound s, check_bounds_complete s)

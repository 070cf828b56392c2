-- ===== src/Query/Steps.antt =====
-- What the steps of a query do to the items of a sequence and to its error.
use architecturekit_golang.Base.{
  ℕ, zero, suc, ◌≡◌, refl, ap, Bool, Option, none, some, List, [], ◌∷◌, map, arith, leb,
  if◌then◌else◌, nat_eq, length, text_has_eq,
}
use architecturekit_golang.Failure.{Failure, ok, fail}
use architecturekit_golang.Query.{Sequence, keep_where, select, skip, take}

abbrev pub keep_all {ℓ} : {I : Type ℓ} → (I → Bool) → List I → List I
keep_all p [] = []
keep_all p (x ∷ xs) = let rest = keep_all p xs in if p x then x ∷ rest else rest

abbrev pub drop_first {ℓ} : {I : Type ℓ} → ℕ → List I → List I
drop_first zero xs = xs
drop_first (suc n) [] = []
drop_first (suc n) (x ∷ xs) = drop_first n xs

abbrev pub take_first {ℓ} : {I : Type ℓ} → ℕ → List I → List I
take_first zero xs = []
take_first (suc n) [] = []
take_first (suc n) (x ∷ xs) = x ∷ take_first n xs

module _ {ℓ} {I : Type ℓ} where
  -- The items that a reader sees, and the error that it meets after them.
  abbrev pub items_of : Sequence I → List I
  items_of [] = []
  items_of (fail err ∷ items) = []
  items_of (ok item ∷ items) = item ∷ items_of items

  abbrev pub error_of : Sequence I → Option Failure
  error_of [] = none
  error_of (fail err ∷ items) = some err
  error_of (ok item ∷ items) = error_of items

module _ {ℓ} {I : Type ℓ} where
  -- Where keeps the items that the predicate accepts, in order, and hands on the error after them.
  pub keep_where-denotes :
      (items : Sequence I) (keep : I → Bool)
      → (items_of (keep_where items keep) ≡ keep_all keep (items_of items))
        × (error_of (keep_where items keep) ≡ error_of items)
  unfolding keep_where
  keep_where-denotes [] keep = (refl, refl)
  keep_where-denotes (fail err ∷ items) keep = (refl, refl)
  keep_where-denotes (ok item ∷ items) keep = ground (arith, keep_where-denotes items keep)

  -- Select converts every item, and hands on the error after them.
  pub select-denotes {κ} :
      {R : Type κ} (items : Sequence I) (convert : I → R)
      → (items_of (select items convert) ≡ map convert (items_of items))
        × (error_of (select items convert) ≡ error_of items)
  unfolding select
  select-denotes [] convert = (refl, refl)
  select-denotes (fail err ∷ items) convert = (refl, refl)
  select-denotes (ok item ∷ items) convert =
      let (p, q) = select-denotes items convert in (ap (λ r. convert item ∷ r) p, q)

  -- Skip passes over as many items, but hands on an error among them.
  pub skip-denotes :
      (items : Sequence I) (count : ℕ)
      → (items_of (skip items count) ≡ drop_first count (items_of items))
        × (error_of (skip items count) ≡ error_of items)
  unfolding skip
  skip-denotes [] zero = (refl, refl)
  skip-denotes [] (suc count) = (refl, refl)
  skip-denotes (fail err ∷ items) zero = (refl, refl)
  skip-denotes (fail err ∷ items) (suc count) = (refl, refl)
  skip-denotes (ok item ∷ items) zero =
      let (p, q) = skip-denotes items zero in (ap (λ r. item ∷ r) p, q)
  skip-denotes (ok item ∷ items) (suc count) = skip-denotes items count

  -- Take hands out as many items and ends there, so that an error is handed on only if fewer items
  -- come before it.
  pub take-denotes :
      (items : Sequence I) (count : ℕ)
      → (items_of (take items count) ≡ take_first count (items_of items))
        × (error_of (take items count)
            ≡ (if leb count (length (items_of items)) then none else error_of items))
  unfolding take
  take-denotes [] zero = (refl, refl)
  take-denotes (fail err ∷ items) zero = (refl, ground arith)
  take-denotes (ok item ∷ items) zero = (refl, ground arith)
  take-denotes [] (suc count) = (refl, ground arith)
  take-denotes (fail err ∷ items) (suc count) = (refl, ground arith)
  take-denotes (ok item ∷ items) (suc count) = ground (arith, take-denotes items count)

  -- The steps of a query are those of lists, on the items that come before an error: Where keeps the
  -- accepted items, Select converts them all, and Skip passes over the first ones, and each of them
  -- hands on the error, while Take hands out the first ones, and the error only if it comes before
  -- they are all there.
  pub steps_denote {κ} :
      {R : Type κ} (items : Sequence I) (keep : I → Bool) (convert : I → R) (count : ℕ)
      → ((items_of (keep_where items keep) ≡ keep_all keep (items_of items))
          × (error_of (keep_where items keep) ≡ error_of items))
        × ((items_of (select items convert) ≡ map convert (items_of items))
            × (error_of (select items convert) ≡ error_of items))
        × ((items_of (skip items count) ≡ drop_first count (items_of items))
            × (error_of (skip items count) ≡ error_of items))
        × ((items_of (take items count) ≡ take_first count (items_of items))
            × (error_of (take items count)
                ≡ (if leb count (length (items_of items)) then none else error_of items)))
  steps_denote items keep convert count = (
    keep_where-denotes items keep,
    select-denotes items convert,
    skip-denotes items count,
    take-denotes items count,
  )

-- ===== src/Query.antt =====
-- Queries over the items of a view: architecturekit/query/query.go. A sequence is the list of what it
-- hands out, items and errors; a step of a query is a function on lists, so how far it reads is how
-- much of the list its result depends on. A count of an int below zero behaves as 0 does.
pub mod Steps
pub mod Readers
pub mod Sorting
use architecturekit_golang.Base.{
  ℕ, zero, suc, ◌+◌, Ordering, Bool, true, false, not, Option, none, some, List, [], ◌∷◌, ◌++◌, map,
  arith, if◌then◌else◌, nat_eq, text_has_eq,
}
use architecturekit_golang.Failure.{no_items, too_many_items, sentinel, Result, ok, fail}

abbrev pub Sequence {ℓ} : Type ℓ → Type ℓ
Sequence I = List (Result I)

abbrev pub is_less : Ordering → Bool
is_less Ordering.lt = true
is_less _ = false

module _ {ℓ} {I : Type ℓ} where
  -- `Where`
  unfoldable pub keep_where : Sequence I → (I → Bool) → Sequence I
  keep_where [] keep = []
  keep_where (fail err ∷ items) keep = fail err ∷ []
  keep_where (ok item ∷ items) keep =
      let rest = keep_where items keep in if not (keep item) then rest else ok item ∷ rest

  -- `Select`
  unfoldable pub select {κ} : {R : Type κ} → Sequence I → (I → R) → Sequence R
  select [] convert = []
  select (fail err ∷ items) convert = fail err ∷ []
  select (ok item ∷ items) convert = ok (convert item) ∷ select items convert

  -- `Skip`
  unfoldable pub skip : Sequence I → ℕ → Sequence I
  skip [] remaining = []
  skip (fail err ∷ items) remaining = fail err ∷ []
  skip (ok item ∷ items) zero = ok item ∷ skip items zero
  skip (ok item ∷ items) (suc remaining) = skip items remaining

  -- `Take`
  unfoldable pub take : Sequence I → ℕ → Sequence I
  take items zero = []
  take [] (suc remaining) = []
  take (fail err ∷ items) (suc remaining) = fail err ∷ []
  take (ok item ∷ items) (suc remaining) = ok item ∷ take items remaining

  -- `Collect`
  unfoldable pub collect_from : List I → Sequence I → Result (List I)
  collect_from collected [] = ok collected
  collect_from collected (fail err ∷ items) = fail err
  collect_from collected (ok item ∷ items) = collect_from (collected ++ item ∷ []) items

  unfoldable pub collect : Sequence I → Result (List I)
  unfolding collect_from
  collect items = collect_from [] items

  -- `First`
  unfoldable pub first : Sequence I → Result (Option I)
  first [] = ok none
  first (fail err ∷ items) = fail err
  first (ok item ∷ items) = ok (some item)

  -- `Single`
  unfoldable pub single_from : Option I → Sequence I → Result I
  single_from none [] = fail (sentinel no_items)
  single_from (some found) [] = ok found
  single_from found (fail err ∷ items) = fail err
  single_from none (ok item ∷ items) = single_from (some item) items
  single_from (some found) (ok item ∷ items) = fail (sentinel too_many_items)

  unfoldable pub single : Sequence I → Result I
  unfolding single_from
  single items = single_from none items

  -- `Count`
  unfoldable pub count_from : ℕ → Sequence I → Result ℕ
  count_from count [] = ok count
  count_from count (fail err ∷ items) = fail err
  count_from count (ok item ∷ items) = count_from (count + 1) items

  unfoldable pub count : Sequence I → Result ℕ
  unfolding count_from
  count items = count_from 0 items

  -- `Any`
  unfoldable pub any : Sequence I → (I → Bool) → Result Bool
  any [] match = ok false
  any (fail err ∷ items) match = fail err
  any (ok item ∷ items) match = let rest = any items match in if match item then ok true else rest

  -- What `slices.SortStableFunc` makes of a list: an item stays before those after it
  -- that are not less.
  unfoldable pub insert_sorted : (I → I → Ordering) → I → List I → List I
  insert_sorted compare_items x [] = x ∷ []
  insert_sorted compare_items x (y ∷ ys) =
      let rest = insert_sorted compare_items x ys in
      if is_less (compare_items y x) then y ∷ rest else x ∷ y ∷ ys

  unfoldable pub sort_stable : (I → I → Ordering) → List I → List I
  unfolding insert_sorted
  sort_stable compare_items [] = []
  sort_stable compare_items (x ∷ xs) = insert_sorted compare_items x (sort_stable compare_items xs)

  -- `OrderByFunc`
  unfoldable pub order_by_func : Sequence I → (I → I → Ordering) → Sequence I
  unfolding collect sort_stable
  order_by_func items compare_items = elim (collect items) [
    | fail err ↦ fail err ∷ []
    | ok collected ↦ map (λ item. ok item) (sort_stable compare_items collected)
  ]

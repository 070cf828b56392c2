-- ===== src/Query/Readers.antt =====
-- What the functions that turn a sequence into a result make of its items and its error.
use architecturekit_golang.Base.{
  ℕ, ◌+◌, ◌≡◌, refl, sym, ap, ◌∙◌, Bool, true, false, Option, none, some, List, [], ◌∷◌, ◌++◌,
  arith, nat_eq, length, append_assoc, append_nil, text_has_eq,
}
use architecturekit_golang.Failure.{no_items, too_many_items, Failure, sentinel, Result, ok, fail}
use architecturekit_golang.Query.{
  Sequence, collect_from, collect, first, single_from, single, count_from, count, any,
}
use architecturekit_golang.Query.Steps.{items_of, error_of, keep_all}

abbrev pub unless {ℓ} : {A : Type ℓ} → Option Failure → A → Result A
unless none a = ok a
unless (some err) a = fail err

module _ {ℓ} {I : Type ℓ} where
  collect_from-exact :
      (collected : List I) (items : Sequence I)
      → collect_from collected items ≡ unless (error_of items) (collected ++ items_of items)
  unfolding collect_from
  collect_from-exact collected [] = ap ok (sym (append_nil collected))
  collect_from-exact collected (fail err ∷ items) = refl
  collect_from-exact collected (ok item ∷ items) =
      collect_from-exact (collected ++ item ∷ []) items
      ∙ ap (unless (error_of items)) (append_assoc collected (item ∷ []) (items_of items))

  -- Collect returns all items in order, or the error and none of the items.
  pub collect-exact :
      (items : Sequence I) → collect items ≡ unless (error_of items) (items_of items)
  unfolding collect
  collect-exact items = collect_from-exact [] items

  count_from-exact :
      (n : ℕ) (items : Sequence I)
      → count_from n items ≡ unless (error_of items) (n + length (items_of items))
  unfolding count_from
  count_from-exact n [] = ground arith
  count_from-exact n (fail err ∷ items) = refl
  count_from-exact n (ok item ∷ items) = ground (arith, count_from-exact (n + 1) items)

  -- The first item, whatever comes after it; without one, the error or nothing.
  abbrev pub first_answer : List I → Option Failure → Result (Option I)
  first_answer [] err = unless err none
  first_answer (x ∷ xs) err = ok (some x)

  -- The one item, if the sequence ends after it; an error after a second item plays no part.
  abbrev pub single_answer : List I → Option Failure → Result I
  single_answer [] none = fail (sentinel no_items)
  single_answer [] (some err) = fail err
  single_answer (x ∷ []) err = unless err x
  single_answer (x ∷ y ∷ xs) err = fail (sentinel too_many_items)

  -- Whether an item passes; an error plays a part only if none does.
  abbrev pub any_answer : List I → Option Failure → Result Bool
  any_answer [] err = unless err false
  any_answer (x ∷ xs) err = ok true

  single-exact :
      (items : Sequence I) → single items ≡ single_answer (items_of items) (error_of items)
  unfolding single single_from
  single-exact [] = refl
  single-exact (fail err ∷ items) = refl
  single-exact (ok item ∷ []) = refl
  single-exact (ok item ∷ fail err ∷ items) = refl
  single-exact (ok item ∷ ok other ∷ items) = refl

  any-exact :
      (items : Sequence I) (match : I → Bool)
      → any items match ≡ any_answer (keep_all match (items_of items)) (error_of items)
  unfolding any
  any-exact [] match = refl
  any-exact (fail err ∷ items) match = refl
  any-exact (ok item ∷ items) match = ground (arith, any-exact items match)

  first-exact : (items : Sequence I) → first items ≡ first_answer (items_of items) (error_of items)
  unfolding first
  first-exact [] = refl
  first-exact (fail err ∷ items) = refl
  first-exact (ok item ∷ items) = refl

  -- First, Single, Count and Any answer by the items before the error: First by the first of them,
  -- Single by the one, which only counts once the sequence has ended, Count by their number if
  -- there is no error, and Any by those that match. An error that comes after the answer is known
  -- goes unnoticed, and any other one is the answer.
  pub answers_exact :
      (items : Sequence I) (match : I → Bool)
      → (first items ≡ first_answer (items_of items) (error_of items))
        × (single items ≡ single_answer (items_of items) (error_of items))
        × (count items ≡ unless (error_of items) (length (items_of items)))
        × (any items match ≡ any_answer (keep_all match (items_of items)) (error_of items))
  unfolding count
  answers_exact items match = (
    first-exact items,
    single-exact items,
    ground (arith, count_from-exact 0 items),
    any-exact items match,
  )

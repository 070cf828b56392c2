-- ===== src/Tests/Queries.antt =====
-- Queries over numbers.
use architecturekit_golang.Base.{
  ℕ, compare, ◌≡◌, refl, ◌≢◌, Bool, true, false, none, some, [], ◌∷◌, arith, ltb, nat_eq,
  text_has_eq,
}
use architecturekit_golang.Failure.{transient, sentinel, ok, fail}
use architecturekit_golang.Query.{
  Sequence, keep_where, select, skip, take, collect, first, single, count, any, order_by_func,
}
use architecturekit_golang.Query.Steps.{
  items_of, error_of, keep_where-denotes, select-denotes, skip-denotes, take-denotes, steps_denote,
}
use architecturekit_golang.Query.Readers.{single_answer, collect-exact, answers_exact}
use architecturekit_golang.Query.Sorting.{IsOrder, IsOrdered, order_by_func-IsOrdered}

abbrev numbers : Sequence ℕ
numbers = ok 3 ∷ ok 1 ∷ ok 2 ∷ []

abbrev cut_off : Sequence ℕ
cut_off = ok 3 ∷ ok 1 ∷ fail (sentinel transient) ∷ ok 2 ∷ []

abbrev is_large : ℕ → Bool
is_large n = ltb 1 n

numbers_in_order : order_by_func numbers (λ x y. compare x y) ≡ ok 1 ∷ ok 2 ∷ ok 3 ∷ []
unfolding order_by_func
numbers_in_order = refl

keep_where-denotes_on_sample :
    (items_of (keep_where cut_off is_large) ≡ 3 ∷ [])
    × (error_of (keep_where cut_off is_large) ≡ some (sentinel transient))
keep_where-denotes_on_sample = keep_where-denotes cut_off is_large

select-denotes_on_sample :
    (items_of (select cut_off is_large) ≡ true ∷ false ∷ [])
    × (error_of (select cut_off is_large) ≡ some (sentinel transient))
select-denotes_on_sample = select-denotes cut_off is_large

skip-denotes_on_sample :
    (items_of (skip cut_off 5) ≡ []) × (error_of (skip cut_off 5) ≡ some (sentinel transient))
skip-denotes_on_sample = skip-denotes cut_off 5

take-denotes_on_sample :
    (items_of (take cut_off 2) ≡ 3 ∷ 1 ∷ []) × (error_of (take cut_off 2) ≡ none)
take-denotes_on_sample = take-denotes cut_off 2

collect-exact_on_sample : collect cut_off ≡ fail (sentinel transient)
collect-exact_on_sample = collect-exact cut_off

answers_exact_on_sample :
    (first cut_off ≡ ok (some 3))
    × (single cut_off ≡ single_answer (3 ∷ 1 ∷ []) (some (sentinel transient)))
    × (count cut_off ≡ fail (sentinel transient))
    × (any cut_off is_large ≡ ok true)
answers_exact_on_sample = answers_exact cut_off is_large

numbers_IsOrder : IsOrder (λ (x y : ℕ). compare x y)
numbers_IsOrder = record {
  asymmetric = λ x y h. ground arith;
  transitive = λ x y z h k. ground arith;
}

order_by_func-IsOrdered_example :
    (error_of (order_by_func numbers (λ x y. compare x y)) ≡ none)
    × (error_of numbers ≡ none
        → IsOrdered
            (λ (x y : ℕ). compare x y)
            (3 ∷ 1 ∷ 2 ∷ [])
            (items_of (order_by_func numbers (λ x y. compare x y))))
    × (error_of numbers ≢ none → items_of (order_by_func numbers (λ x y. compare x y)) ≡ [])
order_by_func-IsOrdered_example =
    order_by_func-IsOrdered (λ x y. compare x y) numbers numbers_IsOrder

steps_denote_example :
    ((items_of (keep_where cut_off is_large) ≡ 3 ∷ [])
      × (error_of (keep_where cut_off is_large) ≡ some (sentinel transient)))
    × ((items_of (select cut_off is_large) ≡ true ∷ false ∷ [])
        × (error_of (select cut_off is_large) ≡ some (sentinel transient)))
    × ((items_of (skip cut_off 1) ≡ 1 ∷ [])
        × (error_of (skip cut_off 1) ≡ some (sentinel transient)))
    × ((items_of (take cut_off 1) ≡ 3 ∷ []) × (error_of (take cut_off 1) ≡ none))
steps_denote_example = steps_denote cut_off is_large is_large 1

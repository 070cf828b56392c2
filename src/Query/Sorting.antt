-- ===== src/Query/Sorting.antt =====
-- The order of OrderByFunc.
use architecturekit_golang.Base.{
  Ordering, ◌≡◌, refl, ap, ◌≢◌, inl, inr, Bool, true, false, none, List, [], ◌∷◌, map, arith,
  Bool-cases, Option-cases, nat_eq, length, All, All-map_implies, text_has_eq,
}
use architecturekit_golang.Failure.{ok, fail}
use architecturekit_golang.Query.{Sequence, insert_sorted, sort_stable, order_by_func, is_less}
use architecturekit_golang.Query.Steps.{items_of, error_of, keep_all}
use architecturekit_golang.Query.Readers.{collect-exact}

module _ {ℓ} {I : Type ℓ} where
  -- No item is less than one before it.
  abbrev pub IsSorted : (I → I → Ordering) → List I → Type 0
  IsSorted compare_items [] = Unit
  IsSorted compare_items (x ∷ xs) =
      All (λ y. is_less (compare_items y x) ≡ false) xs × IsSorted compare_items xs

  -- What a comparison has to be for its order to be one.
  pub record IsOrder (compare_items : I → I → Ordering) : Type ℓ where
    pub asymmetric :
        (x y : I) → is_less (compare_items x y) ≡ true → is_less (compare_items y x) ≡ false
    pub transitive :
        (x y z : I)
        → is_less (compare_items y x) ≡ false
        → is_less (compare_items z y) ≡ false
        → is_less (compare_items z x) ≡ false

  All-insert_sorted :
      (P : I → Type 0) (c : I → I → Ordering) (x : I) (ys : List I)
      → P x
      → All P ys
      → All P (insert_sorted c x ys)
  unfolding insert_sorted
  All-insert_sorted P c x [] px all = (px, tt)
  All-insert_sorted P c x (y ∷ ys) px all = elim (Bool-cases (is_less (c y x))) [
    | inl less ↦ rw (insert_sorted, less) (all.0, All-insert_sorted P c x ys px all.1)
    | inr tied ↦ rw (insert_sorted, tied) (px, all)
  ]

  insert_sorted-IsSorted :
      (c : I → I → Ordering) (x : I) (ys : List I)
      → IsOrder c
      → IsSorted c ys
      → IsSorted c (insert_sorted c x ys)
  unfolding insert_sorted
  insert_sorted-IsSorted c x [] o h = (tt, tt)
  insert_sorted-IsSorted c x (y ∷ ys) o h = elim (Bool-cases (is_less (c y x))) [
    | inl less ↦
        rw (insert_sorted, less)
          (
            All-insert_sorted _ c x ys (o.asymmetric y x less) h.0,
            insert_sorted-IsSorted c x ys o h.1,
          )
    | inr tied ↦
        rw (insert_sorted, tied)
          ((tied, All-map_implies _ _ ys (λ z le. o.transitive x y z tied le) h.0), h)
  ]

  sort_stable-IsSorted :
      (c : I → I → Ordering) (xs : List I) → IsOrder c → IsSorted c (sort_stable c xs)
  unfolding sort_stable
  sort_stable-IsSorted c [] o = tt
  sort_stable-IsSorted c (x ∷ xs) o =
      insert_sorted-IsSorted c x (sort_stable c xs) o (sort_stable-IsSorted c xs o)

  -- Items that pass are tied.
  abbrev pub IsTied : (I → I → Ordering) → (I → Bool) → Type ℓ
  IsTied c p = (x y : I) → p x ≡ true → p y ≡ true → is_less (c x y) ≡ false

  keep_all-insert_sorted :
      (c : I → I → Ordering) (p : I → Bool) (x : I) (ys : List I)
      → IsTied c p
      → keep_all p (insert_sorted c x ys) ≡ keep_all p (x ∷ ys)
  unfolding insert_sorted
  keep_all-insert_sorted c p x [] tied = refl
  keep_all-insert_sorted c p x (y ∷ ys) tied =
      ground (arith, keep_all-insert_sorted c p x ys tied, tied y x)

  keep_all-sort_stable :
      (c : I → I → Ordering) (p : I → Bool) (xs : List I)
      → IsTied c p
      → keep_all p (sort_stable c xs) ≡ keep_all p xs
  unfolding sort_stable
  keep_all-sort_stable c p [] tied = refl
  keep_all-sort_stable c p (x ∷ xs) tied = ground (
    arith,
    keep_all-insert_sorted c p x (sort_stable c xs) tied,
    keep_all-sort_stable c p xs tied,
  )

  length-insert_sorted :
      (c : I → I → Ordering) (p : I → Bool) (x : I) (ys : List I)
      → length (keep_all p (insert_sorted c x ys)) ≡ length (keep_all p (x ∷ ys))
  unfolding insert_sorted
  length-insert_sorted c p x [] = refl
  length-insert_sorted c p x (y ∷ ys) = ground (arith, length-insert_sorted c p x ys)

  length-sort_stable :
      (c : I → I → Ordering) (p : I → Bool) (xs : List I)
      → length (keep_all p (sort_stable c xs)) ≡ length (keep_all p xs)
  unfolding sort_stable
  length-sort_stable c p [] = refl
  length-sort_stable c p (x ∷ xs) =
      ground (arith, length-insert_sorted c p x (sort_stable c xs), length-sort_stable c p xs)

  items_of-map :
      (xs : List I)
      → (items_of (map (λ x. ok x) xs) ≡ xs) × (error_of (map (λ (x : I). ok x) xs) ≡ none)
  items_of-map [] = (refl, refl)
  items_of-map (x ∷ xs) = (ap (λ r. x ∷ r) (items_of-map xs).0, (items_of-map xs).1)

  -- What the items are in order, and that they are the same as before.
  pub record IsOrdered (c : I → I → Ordering) (before after : List I) : Type ℓ where
    pub sorted : IsSorted c after
    pub stable : (p : I → Bool) → IsTied c p → keep_all p after ≡ keep_all p before
    pub same_items : (p : I → Bool) → length (keep_all p after) ≡ length (keep_all p before)

  -- OrderByFunc hands out the error alone if there is one, and otherwise the items in the order of
  -- the comparison, the same ones as often, and tied ones in the order in which they came.
  pub order_by_func-IsOrdered :
      (c : I → I → Ordering) (items : Sequence I)
      → IsOrder c
      → (error_of (order_by_func items c) ≡ error_of items)
        × (error_of items ≡ none → IsOrdered c (items_of items) (items_of (order_by_func items c)))
        × (error_of items ≢ none → items_of (order_by_func items c) ≡ [])
  unfolding order_by_func
  order_by_func-IsOrdered c items o =
      let collected = collect-exact items in
      elim (Option-cases (error_of items)) [
        | inr (err, fails) ↦
            let code : order_by_func items c ≡ fail err ∷ [] = ground arith in
            rw (code, fails) (refl, λ none_fails. ground arith, λ _. refl)
        | inl succeeds ↦
            let sorted_items = sort_stable c (items_of items) in
            let code : order_by_func items c ≡ map (λ x. ok x) sorted_items = ground arith in
            rw (code, (items_of-map sorted_items).0, (items_of-map sorted_items).1, succeeds)
              (
                refl,
                λ _. record {
                  sorted = sort_stable-IsSorted c (items_of items) o;
                  stable = λ p tied. keep_all-sort_stable c p (items_of items) tied;
                  same_items = λ p. length-sort_stable c p (items_of items);
                },
                λ some_fails. absurd (some_fails refl),
              )
      ]

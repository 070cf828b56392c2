-- ===== src/View/Live.antt =====
-- What the order of a view lists: the keys that are at the position of their entry.
use architecturekit_golang.Base.{
  ℕ, zero, suc, ◌+◌, ◌≤◌, ◌<◌, ◌≡◌, refl, inl, inr, none, some, List, [], ◌∷◌, ◌++◌, arith, ◌==◌,
  if◌then◌else◌, Bool-cases, Option-cases, Eq, nat_eq, beq_refl, length, get_elem?, text_has_eq,
  Dict, lookup, assign, remove, lookup-assign, lookup-remove,
}
use architecturekit_golang.View.Items.{Entry}
use architecturekit_golang.View.Order.{live}

module _ {ℓ κ} {K : Type ℓ} {A : Type κ} ⦃e : Eq K⦄ where
  -- The pairs of a list with the value of one key replaced.
  unfoldable pub replace : K → A → List (K × A) → List (K × A)
  replace k a [] = []
  replace k a ((j, b) ∷ xs) =
      let rest = replace k a xs in if e.beq k j then (j, a) ∷ rest else (j, b) ∷ rest

module _ {ℓ} {K I : Type ℓ} ⦃e : Eq K⦄ where
  pub live-append :
      (p : ℕ) (ks : List K) (k : K) (en : Entry I) (m : Dict K (Entry I))
      → lookup k m ≡ none
      → en.position ≡ p + length ks
      → live p (ks ++ k ∷ []) (assign k en m) ≡ live p ks m ++ (k, en) ∷ []
  unfolding live
  live-append p [] k en m h at = ground (arith, lookup-assign k k en m, beq_refl k)
  live-append p (j ∷ ks) k en m h at =
      ground (arith, lookup-assign k j en m, e.beq_iff k j, live-append (suc p) ks k en m h)

  pub live-snoc :
      (p : ℕ) (ks : List K) (k : K) (en : Entry I) (m : Dict K (Entry I))
      → lookup k m ≡ some en
      → en.position ≡ p + length ks
      → live p (ks ++ k ∷ []) m ≡ live p ks m ++ (k, en) ∷ []
  unfolding live
  live-snoc p [] k en m h at = ground arith
  live-snoc p (j ∷ ks) k en m h at = ground (arith, live-snoc (suc p) ks k en m h)

  pub live-assign :
      (p : ℕ) (ks : List K) (k : K) (before after : Entry I) (m : Dict K (Entry I))
      → lookup k m ≡ some before
      → after.position ≡ before.position
      → live p ks (assign k after m) ≡ replace k after (live p ks m)
  unfolding live replace
  live-assign p [] k before after m h at = refl
  live-assign p (j ∷ ks) k before after m h at = ground (
    arith,
    lookup-assign k j after m,
    e.beq_iff k j,
    live-assign (suc p) ks k before after m h at,
  )

  pub live-remove :
      (p : ℕ) (ks : List K) (k : K) (m : Dict K (Entry I))
      → live p ks (remove k m) ≡ remove k (live p ks m)
  unfolding live remove
  live-remove p [] k m = refl
  live-remove p (j ∷ ks) k m =
      ground (arith, lookup-remove k j m, e.beq_iff k j, e.beq_iff j k, live-remove (suc p) ks k m)

  -- A key that an entry places within the list is listed with that entry.
  pub lookup-live :
      (p i : ℕ) (ks : List K) (k : K) (en : Entry I) (m : Dict K (Entry I))
      → lookup k m ≡ some en
      → en.position ≡ p + i
      → get_elem? ks i ≡ some k
      → lookup k (live p ks m) ≡ some en
  unfolding live lookup
  lookup-live p i [] k en m h at there = ground arith
  lookup-live p zero (j ∷ ks) k en m h at there =
      let same : j ≡ k = ground arith in ground (arith, e.beq_iff j k)
  lookup-live p (suc i) (j ∷ ks) k en m h at there =
      ground (arith, e.beq_iff j k, lookup-live (suc p) i ks k en m h)

  pub lookup-live_absent :
      (p : ℕ) (ks : List K) (k : K) (m : Dict K (Entry I))
      → lookup k m ≡ none
      → lookup k (live p ks m) ≡ none
  unfolding live lookup
  lookup-live_absent p [] k m h = refl
  lookup-live_absent p (j ∷ ks) k m h =
      ground (arith, e.beq_iff j k, lookup-live_absent (suc p) ks k m h)

  length-remove-le : (k : K) (m : Dict K (Entry I)) → length (remove k m) ≤ length m
  unfolding remove
  length-remove-le k [] = omega arith
  length-remove-le k ((j, en) ∷ m) = ground (arith, length-remove-le k m)

  length-remove-lt :
      (k : K) (en : Entry I) (m : Dict K (Entry I))
      → lookup k m ≡ some en
      → length (remove k m) < length m
  unfolding remove lookup
  length-remove-lt k en [] h = ground arith
  length-remove-lt k en ((j, x) ∷ m) h =
      ground (arith, length-remove-lt k en m, length-remove-le k m)

  live-remove_past :
      (p : ℕ) (ks : List K) (k : K) (en : Entry I) (m : Dict K (Entry I))
      → lookup k m ≡ some en
      → en.position < p
      → live p ks (remove k m) ≡ live p ks m
  unfolding live
  live-remove_past p [] k en m h past = refl
  live-remove_past p (j ∷ ks) k en m h past =
      ground (arith, lookup-remove k j m, e.beq_iff k j, live-remove_past (suc p) ks k en m h)

  -- No key is listed twice, so at most as many are listed as there are entries.
  pub length-live-le :
      (p : ℕ) (ks : List K) (m : Dict K (Entry I)) → length (live p ks m) ≤ length m
  unfolding live
  length-live-le p [] m = omega arith
  length-live-le p (j ∷ ks) m = elim (Option-cases (lookup j m)) [
    | inl h ↦ ground (arith, length-live-le (suc p) ks m)
    | inr (en, h) ↦ elim (Bool-cases (en.position == p)) [
      | inl here ↦ ground (
        arith,
        length-live-le (suc p) ks (remove j m),
        live-remove_past (suc p) ks j en m h,
        length-remove-lt j en m h,
      )
      | inr there ↦ ground (arith, length-live-le (suc p) ks m)
    ]
  ]

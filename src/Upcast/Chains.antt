-- ===== src/Upcast/Chains.antt =====
-- What upcasting an event means, without a bound on the steps, and how `apply` of
-- architecturekit/upcast.go computes it.
use architecturekit_golang.Base.{
  ℕ, zero, suc, ◌≡◌, refl, subst, ◌↔◌, inl, inr, none, some, List, [], ◌∷◌, ◌++◌, arith,
  Option-cases, nat_eq, All, All-append, text_has_eq, lookup,
}
use architecturekit_golang.Failure.{Result, Result-cases, ok}
use architecturekit_golang.Stored.{StoredEvent}
use architecturekit_golang.Upcast.{
  Upcaster, Upcasters, max_upcast_steps, apply_each, apply_with_budget, apply,
}

module _ (by_type : Upcasters) where
  -- An event becomes a list of events in at most so many steps one after the other.
  mutual
    pub data Upcasts : ℕ → StoredEvent → List StoredEvent → Type 0 where
      keeps :
          {n : ℕ} {e : StoredEvent} {r : List StoredEvent}
          → lookup e.type by_type ≡ none
          → r ≡ e ∷ []
          → Upcasts n e r
      steps :
          {n m : ℕ} {e : StoredEvent} {r : List StoredEvent} (u : Upcaster)
          (produced : List StoredEvent)
          → lookup e.type by_type ≡ some u
          → u e ≡ ok produced
          → n ≡ suc m
          → UpcastsEach m produced r
          → Upcasts n e r

    pub data UpcastsEach : ℕ → List StoredEvent → List StoredEvent → Type 0 where
      all_done : {n : ℕ} {r : List StoredEvent} → r ≡ [] → UpcastsEach n [] r
      one_more :
          {n : ℕ} {e : StoredEvent} {es r : List StoredEvent} (first rest : List StoredEvent)
          → Upcasts n e first
          → UpcastsEach n es rest
          → r ≡ first ++ rest
          → UpcastsEach n (e ∷ es) r

  apply_each_sound :
      (f : StoredEvent → Result (List StoredEvent)) (n : ℕ)
      → ((e : StoredEvent) (r : List StoredEvent) → f e ≡ ok r → Upcasts n e r)
      → (es r : List StoredEvent) → apply_each f es ≡ ok r
      → UpcastsEach n es r
  unfolding apply_each
  apply_each_sound f n one [] r h = all_done (ground arith)
  apply_each_sound f n one (e ∷ es) r h = elim (Result-cases (f e)) [
    | inr (x, p) ↦ absurd (ground arith)
    | inl (first, p) ↦ elim (Result-cases (apply_each f es)) [
      | inr (x, q) ↦ absurd (ground arith)
      | inl (rest, q) ↦
          one_more first rest (one e first p) (apply_each_sound f n one es rest q) (ground arith)
    ]
  ]

  apply_with_budget_sound :
      (n : ℕ) (e : StoredEvent) (r : List StoredEvent)
      → apply_with_budget by_type n e ≡ ok r
      → Upcasts n e r
  unfolding apply_with_budget
  apply_with_budget_sound zero e r h = elim (Option-cases (lookup e.type by_type)) [
    | inl p ↦ keeps p (ground arith)
    | inr (u, p) ↦ absurd (ground arith)
  ]
  apply_with_budget_sound (suc n) e r h = elim (Option-cases (lookup e.type by_type)) [
    | inl p ↦ keeps p (ground arith)
    | inr (u, p) ↦ elim (Result-cases (u e)) [
      | inr (x, q) ↦ absurd (ground arith)
      | inl (produced, q) ↦ steps u produced p q refl (
          apply_each_sound (apply_with_budget by_type n) n (apply_with_budget_sound n) produced r
            (ground arith))
    ]
  ]

  apply_each_complete :
      (f : StoredEvent → Result (List StoredEvent)) (n : ℕ)
      → ((e : StoredEvent) (r : List StoredEvent) → Upcasts n e r → f e ≡ ok r)
      → {es r : List StoredEvent} → UpcastsEach n es r
      → apply_each f es ≡ ok r
  unfolding apply_each
  apply_each_complete f n one (all_done p) = rw p
  apply_each_complete f n one (one_more {e = e} first rest x xs p) =
      rw (one e first x, apply_each_complete f n one xs, p)

  apply_with_budget_complete :
      (n : ℕ) (e : StoredEvent) (r : List StoredEvent)
      → Upcasts n e r
      → apply_with_budget by_type n e ≡ ok r
  unfolding apply_with_budget
  apply_with_budget_complete zero e r (keeps p q) = ground arith
  apply_with_budget_complete (suc n) e r (keeps p q) = ground arith
  apply_with_budget_complete zero e r (steps u produced p q s each) = absurd (omega arith)
  apply_with_budget_complete (suc n) e r (steps {m = m} u produced p q s each) =
      let same : m ≡ n = omega arith in
      let done : apply_each (apply_with_budget by_type n) produced ≡ ok r =
        apply_each_complete (apply_with_budget by_type n) n (apply_with_budget_complete n)
          (subst (λ k. UpcastsEach k produced r) same each) in
      ground arith

  -- Upcasting an event yields exactly what running its upcasters, and those of what they produce,
  -- one after the other leads to in at most so many steps, in order, without an error.
  pub apply_with_budget_exact :
      (n : ℕ) (e : StoredEvent) (r : List StoredEvent)
      → (apply_with_budget by_type n e ≡ ok r) ↔ Upcasts n e r
  apply_with_budget_exact n e r = (apply_with_budget_sound n e r, apply_with_budget_complete n e r)

  abbrev pub IsCurrent : StoredEvent → Type 0
  IsCurrent e = lookup e.type by_type ≡ none

  mutual
    Upcasts-IsCurrent :
        {n : ℕ} {e : StoredEvent} {r : List StoredEvent} → Upcasts n e r → All IsCurrent r
    Upcasts-IsCurrent (keeps p q) = rw q (p, tt)
    Upcasts-IsCurrent (steps u produced p q s each) = UpcastsEach-IsCurrent each

    UpcastsEach-IsCurrent : {n : ℕ} {es r : List StoredEvent} → UpcastsEach n es r → All IsCurrent r
    UpcastsEach-IsCurrent (all_done p) = rw p tt
    UpcastsEach-IsCurrent (one_more first rest x xs p) =
        rw p (All-append IsCurrent first rest (Upcasts-IsCurrent x) (UpcastsEach-IsCurrent xs))

  -- No event that comes out of upcasting has an upcaster of its own.
  pub apply-IsCurrent :
      (e : StoredEvent) (r : List StoredEvent) → apply (some by_type) e ≡ ok r → All IsCurrent r
  unfolding apply
  apply-IsCurrent e r h = Upcasts-IsCurrent (apply_with_budget_sound max_upcast_steps e r h)

-- ===== src/View/Compacted.antt =====
-- What the loop of `compact` of architecturekit/in_memory_view.go keeps, round by round.
use architecturekit_golang.Base.{
  ℕ, zero, suc, ◌+◌, ◌≤◌, ◌≡◌, refl, sym, ◌∙◌, ◌⊎◌, inl, inr, false, some, List, [], ◌∷◌, ◌++◌,
  arith, ◌==◌, ==_iff, Bool-cases, Option-cases, Eq, nat_eq, length, get_elem?, length-append,
  get_elem?-append, get_elem?-last, text_has_eq, Dict, lookup, assign, IsDistinct, lookup-assign,
  length-assign_present, assign-IsDistinct,
}
use mathlib.Core.List.{append-nil}
use architecturekit_golang.View.Items.{Entry}
use architecturekit_golang.View.Order.{live, compact_step, compact_from}
use architecturekit_golang.View.Live.{length-live-le}
use architecturekit_golang.View.Compaction.{
  stamp_option, stamp_all, live_moved, moved, listing, compact_step_moves, compact_step_here,
  compact_step_skips,
}

-- The position behind a list that begins at a position.
abbrev ended {ℓ} : {K : Type ℓ} → ℕ → List K → ℕ
ended p [] = p
ended p (k ∷ ks) = ended (suc p) ks

module _ {ℓ} {K I : Type ℓ} ⦃e : Eq K⦄ where
  -- Every entry is at its position of the order.
  abbrev pub Placed : List K → Dict K (Entry I) → Type ℓ
  Placed order m =
      (k : K) (en : Entry I) → lookup k m ≡ some en → get_elem? order en.position ≡ some k

  -- Every entry is at its position of the new order, or of what is left of the old one.
  abbrev PlacedAt : ℕ → List K → Dict K (Entry I) × List K → Type ℓ
  PlacedAt p ks s =
      (k : K) (en : Entry I)
      → lookup k s.0 ≡ some en
      → (get_elem? s.1 en.position ≡ some k)
        ⊎ ((i : ℕ) × (en.position ≡ p + i) × (get_elem? ks i ≡ some k))

  record Keeps (p q : ℕ) (ks js : List K) (s t : Dict K (Entry I) × List K) : Type ℓ where
    listing : listing q js t ≡ listing p ks s
    lookups : (k : K) → stamp_option (lookup k t.0) ≡ stamp_option (lookup k s.0)
    size : length t.0 ≡ length s.0
    distinct : IsDistinct s.0 → IsDistinct t.0
    placed : PlacedAt p ks s → PlacedAt q js t
    total : length t.1 + length (live q js t.0) ≡ length s.1 + length (live p ks s.0)

  placed_here :
      (p : ℕ) (k : K) (en : Entry I) (ks fresh : List K) (m : Dict K (Entry I))
      → lookup k m ≡ some en
      → PlacedAt p (k ∷ ks) (m, fresh)
      → PlacedAt (suc p) ks (assign k (moved en fresh) m, fresh ++ k ∷ [])
  placed_here p k en ks fresh m h placed q x found = elim (Bool-cases (e.beq k q)) [
    | inl same ↦
        let k=q : k ≡ q = (e.beq_iff k q).0 same in
        let x_is : moved en fresh ≡ x = ground (arith, lookup-assign k q (moved en fresh) m) in
        inl (rw (← x_is, ← k=q) (get_elem?-last fresh k))
    | inr other ↦
        let old : lookup q m ≡ some x = ground (arith, lookup-assign k q (moved en fresh) m) in
        elim (placed q x old) [
          | inl at ↦ inl (get_elem?-append fresh (k ∷ []) x.position q at)
          | inr (zero, at, there) ↦ absurd (ground (arith, e.beq_iff k q))
          | inr (suc i, at, there) ↦ inr (i, omega arith, there)
        ]
  ]

  placed_skips :
      (p : ℕ) (k : K) (ks fresh : List K) (m : Dict K (Entry I))
      → ((en : Entry I) → lookup k m ≡ some en → (en.position == p) ≡ false)
      → PlacedAt p (k ∷ ks) (m, fresh)
      → PlacedAt (suc p) ks (m, fresh)
  placed_skips p k ks fresh m skip placed q x found = elim (placed q x found) [
    | inl at ↦ inl at
    | inr (zero, at, there) ↦
        let k=q : k ≡ q = ground arith in absurd (ground (arith, skip x (rw k=q found)))
    | inr (suc i, at, there) ↦ inr (i, omega arith, there)
  ]

  live_here :
      (p : ℕ) (k : K) (en : Entry I) (ks : List K) (m : Dict K (Entry I))
      → lookup k m ≡ some en
      → en.position ≡ p
      → live p (k ∷ ks) m ≡ (k, en) ∷ live (suc p) ks m
  unfolding live
  live_here p k en ks m h at = ground arith

  live_skips :
      (p : ℕ) (k : K) (ks : List K) (m : Dict K (Entry I))
      → ((en : Entry I) → lookup k m ≡ some en → (en.position == p) ≡ false)
      → live p (k ∷ ks) m ≡ live (suc p) ks m
  unfolding live
  live_skips p k ks m skip = elim (Option-cases (lookup k m)) [
    | inl h ↦ ground arith
    | inr (en, h) ↦ ground (arith, skip en h)
  ]

  step_here :
      (p : ℕ) (k : K) (en : Entry I) (ks fresh : List K) (m : Dict K (Entry I))
      → lookup k m ≡ some en
      → en.position ≡ p
      → length fresh ≤ p
      → Keeps p (suc p) (k ∷ ks) ks (m, fresh) (assign k (moved en fresh) m, fresh ++ k ∷ [])
  step_here p k en ks fresh m h at le = record {
    listing = compact_step_moves p k en ks fresh m h at le;
    lookups = λ q. ground (arith, lookup-assign k q (moved en fresh) m, e.beq_iff k q);
    size = length-assign_present k (moved en fresh) en m h;
    distinct = assign-IsDistinct k (moved en fresh) m;
    placed = placed_here p k en ks fresh m h;
    total =
        rw
          (
            live_here p k en ks m h at,
            live_moved (suc p) ks k en (moved en fresh) m h (inl (omega arith, omega arith)),
          )
          (omega (arith, length-append fresh (k ∷ [])));
  }

  step_skips :
      (p : ℕ) (k : K) (ks fresh : List K) (m : Dict K (Entry I))
      → ((en : Entry I) → lookup k m ≡ some en → (en.position == p) ≡ false)
      → Keeps p (suc p) (k ∷ ks) ks (m, fresh) (m, fresh)
  step_skips p k ks fresh m skip = record {
    listing = rw (live_skips p k ks m skip);
    lookups = λ q. refl;
    size = refl;
    distinct = λ d. d;
    placed = placed_skips p k ks fresh m skip;
    total = rw (live_skips p k ks m skip);
  }

  compact_step-Keeps :
      (p : ℕ) (k : K) (ks fresh : List K) (m : Dict K (Entry I))
      → length fresh ≤ p
      → Keeps p (suc p) (k ∷ ks) ks (m, fresh) (compact_step p k (m, fresh))
        × (length (compact_step p k (m, fresh)).1 ≤ suc p)
  compact_step-Keeps p k ks fresh m le = elim (Option-cases (lookup k m)) [
    | inl h ↦
        let skip : (en : Entry I) → lookup k m ≡ some en → (en.position == p) ≡ false =
          λ en found. cc in
        rw (compact_step_skips p k fresh m skip) (step_skips p k ks fresh m skip, omega arith)
    | inr (en, h) ↦ elim (Bool-cases (en.position == p)) [
      | inl here ↦ rw (compact_step_here p k en fresh m h here) (
        step_here p k en ks fresh m h ((==_iff _ _).0 here) le,
        omega (arith, length-append fresh (k ∷ [])),
      )
      | inr there ↦
          let skip : (x : Entry I) → lookup k m ≡ some x → (x.position == p) ≡ false =
            λ x found. ground arith in
          rw (compact_step_skips p k fresh m skip) (step_skips p k ks fresh m skip, omega arith)
    ]
  ]

  Keeps-trans :
      {p q r : ℕ} {ks js is : List K} {s t u : Dict K (Entry I) × List K}
      → Keeps p q ks js s t
      → Keeps q r js is t u
      → Keeps p r ks is s u
  Keeps-trans a b = record {
    listing = b.listing ∙ a.listing;
    lookups = λ k. b.lookups k ∙ a.lookups k;
    size = b.size ∙ a.size;
    distinct = λ d. b.distinct (a.distinct d);
    placed = λ h. b.placed (a.placed h);
    total = b.total ∙ a.total;
  }

  compact_from-Keeps :
      (p : ℕ) (ks : List K) (s : Dict K (Entry I) × List K)
      → length s.1 ≤ p
      → Keeps p (ended p ks) ks [] s (compact_from p ks s)
  unfolding compact_from
  compact_from-Keeps p [] s le = record {
    listing = refl;
    lookups = λ q. refl;
    size = refl;
    distinct = λ d. d;
    placed = λ h. h;
    total = refl;
  }
  compact_from-Keeps p (k ∷ ks) (m, fresh) le =
      let (step, le') = compact_step-Keeps p k ks fresh m le in
      Keeps-trans step (compact_from-Keeps (suc p) ks (compact_step p k (m, fresh)) le')

  -- What the whole loop leaves behind, from an order and its entries.
  pub record IsCompaction (order : List K) (m : Dict K (Entry I)) (t : Dict K (Entry I) × List K)
      : Type ℓ where
    pub listing : stamp_all (live 0 t.1 t.0) ≡ stamp_all (live 0 order m)
    pub lookups : (k : K) → stamp_option (lookup k t.0) ≡ stamp_option (lookup k m)
    pub size : length t.0 ≡ length m
    pub distinct : IsDistinct m → IsDistinct t.0
    pub placed : Placed order m → Placed t.1 t.0
    pub fits : length t.1 ≤ length t.0

  pub compact_from-IsCompaction :
      (order : List K) (m : Dict K (Entry I)) → IsCompaction order m (compact_from 0 order (m, []))
  compact_from-IsCompaction order m =
      let t = compact_from 0 order (m, []) in
      let keeps = compact_from-Keeps 0 order (m, []) (omega arith) in
      record {
        listing = sym (append-nil _) ∙ (unfold live in keeps.listing);
        lookups = keeps.lookups;
        size = keeps.size;
        distinct = keeps.distinct;
        placed = λ h. λ q en found.
            elim (keeps.placed (λ k x f. inr (x.position, omega arith, h k x f)) q en found) [
              | inl at ↦ at
              | inr (i, at, there) ↦ cc
            ];
        fits = unfold live in omega (arith, keeps.total, length-live-le 0 order m, keeps.size);
      }

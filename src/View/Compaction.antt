-- ===== src/View/Compaction.antt =====
-- What `compact` of architecturekit/in_memory_view.go keeps: which items the view lists, in which
-- order, and what it knows of each of them.
use architecturekit_golang.Base.{
  ℕ, suc, ◌+◌, ◌≤◌, ◌<◌, ◌≡◌, refl, ◌⊎◌, inl, inr, true, false, Option, none, some, List, [], ◌∷◌,
  ◌++◌, arith, ◌==◌, Option-cases, Eq, nat_eq, beq_refl, length, text_has_eq, Dict, lookup, assign,
  lookup-assign,
}
use mathlib.Core.List.{append_assoc}
use architecturekit_golang.View.Items.{Entry}
use architecturekit_golang.View.Order.{live, compact_step}
use architecturekit_golang.View.Live.{live-snoc}

-- An entry without its position, which is where the view keeps it and nothing else.
pub record Stamped {ℓ} (I : Type ℓ) : Type ℓ where
  pub item : I
  pub revision : ℕ
  pub part : ℕ

abbrev pub stamp {ℓ} : {I : Type ℓ} → Entry I → Stamped I
stamp en = record { item = en.item; revision = en.revision; part = en.part }

abbrev pub stamp_option {ℓ} : {I : Type ℓ} → Option (Entry I) → Option (Stamped I)
stamp_option none = none
stamp_option (some en) = some (stamp en)

module _ {ℓ} {K I : Type ℓ} where
  abbrev pub stamp_all : List (K × Entry I) → List (K × Stamped I)
  stamp_all [] = []
  stamp_all ((k, en) ∷ xs) = (k, stamp en) ∷ stamp_all xs

  pub stamp_all-append :
      (xs ys : List (K × Entry I)) → stamp_all (xs ++ ys) ≡ stamp_all xs ++ stamp_all ys
  stamp_all-append [] ys = refl
  stamp_all-append ((k, en) ∷ xs) ys = rw (stamp_all-append xs ys)

module _ {ℓ} {K I : Type ℓ} ⦃e : Eq K⦄ where
  -- Moving the entry of a key from one position to another changes nothing for a part of the order
  -- that holds neither of the two.
  pub live_moved :
      (p : ℕ) (ks : List K) (k : K) (before after : Entry I) (m : Dict K (Entry I))
      → lookup k m ≡ some before
      → ((before.position < p) × (after.position < p))
        ⊎ ((p + length ks ≤ before.position) × (p + length ks ≤ after.position))
      → live p ks (assign k after m) ≡ live p ks m
  unfolding live
  live_moved p [] k before after m h apart = refl
  live_moved p (j ∷ ks) k before after m h apart =
      ground
        (arith, lookup-assign k j after m, e.beq_iff k j, live_moved (suc p) ks k before after m h)

  abbrev pub moved : Entry I → List K → Entry I
  moved en fresh = record en { position = length fresh }

  -- What one round of the loop does to the entries and the new order, for a key and the rest of the
  -- order that begins at a position.
  abbrev pub listing : ℕ → List K → Dict K (Entry I) × List K → List (K × Stamped I)
  listing p ks (m, fresh) = stamp_all (live 0 fresh m) ++ stamp_all (live p ks m)

  pub compact_step_moves :
      (p : ℕ) (k : K) (en : Entry I) (ks fresh : List K) (m : Dict K (Entry I))
      → lookup k m ≡ some en
      → en.position ≡ p
      → length fresh ≤ p
      → listing (suc p) ks (assign k (moved en fresh) m, fresh ++ k ∷ [])
        ≡ listing p (k ∷ ks) (m, fresh)
  unfolding live
  compact_step_moves p k en ks fresh m h at le =
      let after = moved en fresh in
      let found : lookup k (assign k after m) ≡ some after =
        ground (arith, lookup-assign k k after m, beq_refl k) in
      rw
        (
          live-snoc 0 fresh k after (assign k after m) found (omega arith),
          live_moved 0 fresh k en after m h (inr (omega arith, omega arith)),
          live_moved (suc p) ks k en after m h (inl (omega arith, omega arith)),
          stamp_all-append (live 0 fresh m) ((k, after) ∷ []),
          append_assoc (stamp_all (live 0 fresh m)) ((k, stamp en) ∷ [])
              (stamp_all (live (suc p) ks m)),
        )
        (ground arith)

  pub compact_step_here :
      (p : ℕ) (k : K) (en : Entry I) (fresh : List K) (m : Dict K (Entry I))
      → lookup k m ≡ some en
      → (en.position == p) ≡ true
      → compact_step p k (m, fresh) ≡ (assign k (moved en fresh) m, fresh ++ k ∷ [])
  unfolding compact_step
  compact_step_here p k en fresh m h here = ground arith

  pub compact_step_skips :
      (p : ℕ) (k : K) (fresh : List K) (m : Dict K (Entry I))
      → ((en : Entry I) → lookup k m ≡ some en → (en.position == p) ≡ false)
      → compact_step p k (m, fresh) ≡ (m, fresh)
  unfolding compact_step
  compact_step_skips p k fresh m h = elim (Option-cases (lookup k m)) [
    | inl e ↦ ground arith
    | inr (en, e) ↦ ground (arith, h en e)
  ]

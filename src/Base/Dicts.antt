-- ===== src/Base/Dicts.antt =====
-- A Go map with `comparable` keys, as an association list.
use Prim.Native.Nat.{◌+◌}
use mathlib.Core.Path.{◌≡◌, refl}
use mathlib.Core.Option.{Option, none, some}
use mathlib.Core.List.{List, [], ◌∷◌}
use native.Mathlib.Omega.{arith}
use architecturekit_golang.Base.Tests.{Eq, if◌then◌else◌}
use architecturekit_golang.Base.Lists.{length}

abbrev pub Dict {ℓ κ} : Type ℓ → Type κ → Type (ℓ ⊔ κ)
Dict K V = List (K × V)

module _ {ℓ κ} {K : Type ℓ} {V : Type κ} ⦃e : Eq K⦄ where
  -- `v, ok := m[k]`
  unfoldable pub lookup : K → Dict K V → Option V
  lookup k [] = none
  lookup k ((j, v) ∷ m) = if e.beq j k then some v else lookup k m

  -- `m[k] = v`
  unfoldable pub assign : K → V → Dict K V → Dict K V
  assign k v [] = (k, v) ∷ []
  assign k v ((j, w) ∷ m) = if e.beq j k then (k, v) ∷ m else (j, w) ∷ assign k v m

  -- `delete(m, k)`
  unfoldable pub remove : K → Dict K V → Dict K V
  remove k [] = []
  remove k ((j, v) ∷ m) = let rest = remove k m in if e.beq j k then rest else (j, v) ∷ rest

  -- No key occurs twice.
  abbrev pub IsDistinct : Dict K V → Type κ
  IsDistinct [] = Unit
  IsDistinct ((k, v) ∷ m) = (lookup k m ≡ none) × IsDistinct m

  pub lookup-assign :
      (k j : K) (v : V) (m : Dict K V)
      → lookup j (assign k v m) ≡ (if e.beq k j then some v else lookup j m)
  unfolding lookup assign
  lookup-assign k j v [] = refl
  lookup-assign k j v ((i, w) ∷ m) =
      ground (arith, e.beq_iff k j, e.beq_iff i k, e.beq_iff i j, lookup-assign k j v m)

  pub lookup-remove :
      (k j : K) (m : Dict K V) → lookup j (remove k m) ≡ (if e.beq k j then none else lookup j m)
  unfolding lookup remove
  lookup-remove k j [] = ground arith
  lookup-remove k j ((i, w) ∷ m) =
      ground (arith, e.beq_iff k j, e.beq_iff i k, e.beq_iff i j, lookup-remove k j m)

  pub length-assign_absent :
      (k : K) (v : V) (m : Dict K V) → lookup k m ≡ none → length (assign k v m) ≡ length m + 1
  unfolding lookup assign
  length-assign_absent k v [] h = omega arith
  length-assign_absent k v ((i, w) ∷ m) h = ground (arith, length-assign_absent k v m)

  pub length-assign_present :
      (k : K) (v w : V) (m : Dict K V) → lookup k m ≡ some w → length (assign k v m) ≡ length m
  unfolding lookup assign
  length-assign_present k v w [] h = ground arith
  length-assign_present k v w ((i, x) ∷ m) h = ground (arith, length-assign_present k v w m)

  remove_absent : (k : K) (m : Dict K V) → lookup k m ≡ none → remove k m ≡ m
  unfolding lookup remove
  remove_absent k [] h = refl
  remove_absent k ((i, x) ∷ m) h = ground (arith, remove_absent k m)

  pub length-remove :
      (k : K) (v : V) (m : Dict K V)
      → IsDistinct m
      → lookup k m ≡ some v
      → length (remove k m) + 1 ≡ length m
  unfolding lookup remove
  length-remove k v [] d h = ground arith
  length-remove k v ((i, x) ∷ m) d h =
      ground (arith, length-remove k v m d.1, remove_absent k m, e.beq_iff i k)

  pub assign-IsDistinct : (k : K) (v : V) (m : Dict K V) → IsDistinct m → IsDistinct (assign k v m)
  unfolding lookup assign
  assign-IsDistinct k v [] d = (refl, tt)
  assign-IsDistinct k v ((i, x) ∷ m) d =
      ground
        (arith, assign-IsDistinct k v m d.1, lookup-assign k i v m, e.beq_iff i k, e.beq_iff k i)

  pub remove-IsDistinct : (k : K) (m : Dict K V) → IsDistinct m → IsDistinct (remove k m)
  unfolding lookup remove
  remove-IsDistinct k [] d = tt
  remove-IsDistinct k ((i, x) ∷ m) d =
      ground (arith, remove-IsDistinct k m d.1, lookup-remove k i m, e.beq_iff i k, e.beq_iff k i)

-- ===== src/View/Order.antt =====
-- The order of a view in memory, and its compaction: architecturekit/in_memory_view.go.
use architecturekit_golang.Base.{
  ℕ, suc, Bool, none, some, List, [], ◌∷◌, ◌++◌, ◌==◌, if◌then◌else◌, Eq, nat_eq, length,
  text_has_eq, Dict, lookup, assign,
}
use architecturekit_golang.View.Items.{Entry}

module _ {ℓ} {K I : Type ℓ} ⦃e : Eq K⦄ where
  -- The keys in order that are at the position of their entry, with their entries, from a position
  -- of the order on.
  unfoldable pub live : ℕ → List K → Dict K (Entry I) → List (K × Entry I)
  unfolding lookup
  live position [] entries = []
  live position (key ∷ order) entries =
      let rest = live (suc position) order entries in
      elim (lookup key entries) [
        | none ↦ rest
        | some entry ↦ if entry.position == position then (key, entry) ∷ rest else rest
      ]

  -- One round of the loop of `compact`, over the entries and the new order.
  unfoldable pub compact_step : ℕ → K → Dict K (Entry I) × List K → Dict K (Entry I) × List K
  unfolding lookup assign
  compact_step position key (entries, order) = elim (lookup key entries) [
    | none ↦ (entries, order)
    | some entry ↦
        if entry.position == position
        then (assign key (record entry { position = length order }) entries, order ++ key ∷ [])
        else (entries, order)
  ]

  unfoldable pub compact_from : ℕ → List K → Dict K (Entry I) × List K → Dict K (Entry I) × List K
  unfolding compact_step
  compact_from position [] state = state
  compact_from position (key ∷ keys) state =
      compact_from (suc position) keys (compact_step position key state)

module _ {ℓ} {K I : Type ℓ} where
  unfoldable pub keys_matching : (I → Bool) → List (K × Entry I) → List K
  keys_matching match [] = []
  keys_matching match ((key, entry) ∷ xs) =
      let rest = keys_matching match xs in if match entry.item then key ∷ rest else rest

-- ===== src/StateCache/Newest.antt =====
-- Which state the cache keeps for a subject.
use architecturekit_golang.Base.{
  ◌<◌, ◌≡◌, refl, ◌⊎◌, inl, inr, Bool, true, false, ◌&&◌, none, some, List, [], ◌∷◌, arith, leb,
  if◌then◌else◌, Bool-cases, Option-cases, Eq, nat_eq, length, Text, text_has_eq, lookup, assign,
  lookup-assign, lookup-remove,
}
use architecturekit_golang.StateCache.{
  StateShape, CacheEntry, StateCache, back, evict, cache_put, shape_equals, is_newer_or_same,
}
use architecturekit_golang.Revision.{reached, is_position, compare_revisions-reached}
use architecturekit_golang.StateCache.Recency.{back_known, back-none}

list_cases {ℓ} :
    {A : Type ℓ} (xs : List A) → (xs ≡ []) ⊎ ((x : A) × (rest : List A) × (xs ≡ x ∷ rest))
list_cases [] = inl refl
list_cases (x ∷ rest) = inr (x, rest, refl)

is_newer_or_same-reached :
    (id current : Text)
    → is_position id ≡ true
    → is_position current ≡ true
    → is_newer_or_same id current ≡ leb (reached current) (reached id)
unfolding is_newer_or_same
is_newer_or_same-reached id current h k = ground (arith, compare_revisions-reached id current)

module _ {ℓ} {I S : Type ℓ} where
  -- What a later command finds of the key.
  abbrev pub kept : (I → I → Bool) → StateShape I → S → Text → CacheEntry I S → CacheEntry I S
  kept is_same shape state id entry =
      if shape_equals is_same entry.shape shape && leb (reached entry.last_event_id) (reached id)
      then record entry { state = state; last_event_id = id }
      else entry

module _ {ℓ} {K I S : Type ℓ} ⦃e : Eq K⦄ where
  -- A state of a subject that is cached already replaces the cached one exactly if it has the same
  -- shape and was built from an event that is no earlier; no other subject's state changes.
  pub lookup-cache_put_cached :
      (is_same : I → I → Bool) (key j : K) (shape : StateShape I) (state : S) (id : Text)
      (c : StateCache K I S) (entry : CacheEntry I S)
      → lookup key c.entries ≡ some entry
      → is_position id ≡ true
      → is_position entry.last_event_id ≡ true
      → lookup j (cache_put is_same key shape state id c).entries
        ≡ (if e.beq key j then some (kept is_same shape state id entry) else lookup j c.entries)
  unfolding cache_put
  lookup-cache_put_cached is_same key j shape state id c entry found h k =
      elim (Bool-cases (is_newer_or_same id entry.last_event_id)) [
        | inl newer ↦ ground (
          arith,
          e.beq_iff key j,
          is_newer_or_same-reached id entry.last_event_id h k,
          lookup-assign key j (record entry { state = state; last_event_id = id }) c.entries,
        )
        | inr older ↦ ground (
          arith,
          e.beq_iff key j,
          is_newer_or_same-reached id entry.last_event_id h k,
          lookup-assign key j entry c.entries,
        )
      ]

  -- Whether the key is the one that has to go for one more.
  abbrev pub is_evicted : K → StateCache K I S → Bool
  is_evicted j c =
      leb c.max_subjects (length c.order)
      && elim (back c.order) [ none ↦ false | some oldest ↦ e.beq oldest j ]

  -- A state of a subject that is not cached is found afterwards, and so is every other state but
  -- the least recently used one of a full cache.
  pub lookup-cache_put_fresh :
      (is_same : I → I → Bool) (key j : K) (shape : StateShape I) (state : S) (id : Text)
      (c : StateCache K I S)
      → lookup key c.entries ≡ none
      → lookup key c.order ≡ none
      → 0 < c.max_subjects
      → lookup j (cache_put is_same key shape state id c).entries ≡ (
          if e.beq key j
          then some (record { shape = shape; state = state; last_event_id = id })
          else if is_evicted j c
          then none
          else lookup j c.entries)
  unfolding cache_put evict
  lookup-cache_put_fresh is_same key j shape state id c gone out fits =
      let entry : CacheEntry I S = record { shape = shape; state = state; last_event_id = id } in
      let put = lookup-assign key j entry c.entries in
      elim (list_cases c.order) [
        | inl empty ↦ ground (arith, put, e.beq_iff key j)
        | inr (x, rest, more) ↦ elim (Option-cases (back c.order)) [
          | inl none_last ↦ absurd (ground (arith, back-none c.order none_last))
          | inr (oldest, last) ↦ ground (
            arith,
            put,
            e.beq_iff key j,
            e.beq_iff oldest j,
            back_known c.order oldest last,
            lookup-remove oldest j (assign key entry c.entries),
          )
        ]
      ]

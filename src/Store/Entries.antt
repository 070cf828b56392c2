-- ===== src/Store/Entries.antt =====
-- What the state cache holds of a key after a put: architecturekit/state_cache.go.
use architecturekit_golang.Base.{
  ◌≡◌, refl, ◌⊎◌, inl, inr, Bool, true, some, ◌∷◌, arith, ltb, Bool-cases, Option-cases, Eq, nat_eq,
  beq_refl, length, Text, text_has_eq, lookup, assign, remove, lookup-assign, lookup-remove,
}
use architecturekit_golang.StateCache.{
  StateShape, CacheEntry, StateCache, shape_equals, cache_put, evict, is_newer_or_same, back,
}

module _ {ℓ} {K S : Type ℓ} ⦃e : Eq K⦄ (key : K) where
  evict_found :
      (c : StateCache K S S) (entry : CacheEntry S S)
      → lookup key (evict c).entries ≡ some entry
      → lookup key c.entries ≡ some entry
  unfolding evict
  evict_found c entry h = elim (Option-cases (back c.order)) [
    | inl empty ↦ let code : (evict c).entries ≡ c.entries = rw (evict, empty) refl in rw (← code) h
    | inr (oldest, last) ↦ elim (Bool-cases (ltb c.max_subjects (length c.order))) [
      | inr short ↦
          let code : (evict c).entries ≡ c.entries = rw (evict, last, short) refl in rw (← code) h
      | inl long ↦
          let code : (evict c).entries ≡ remove oldest c.entries = rw (evict, last, long) refl in
          let gone = lookup-remove oldest key c.entries in
          let there : lookup key (remove oldest c.entries) ≡ some entry = rw (← code) h in
          ground arith
    ]
  ]

module _ {ℓ} {K S : Type ℓ} ⦃e : Eq K⦄ (is_same : S → S → Bool) (key : K)
    (shape : StateShape S) where
  -- An entry of the key after a put is the one before, or the one put in its place.
  pub put_found :
      (state : S) (id : Text) (c : StateCache K S S) (entry : CacheEntry S S)
      → lookup key (cache_put is_same key shape state id c).entries ≡ some entry
      → (lookup key c.entries ≡ some entry)
        ⊎ ((entry.state ≡ state)
            × (entry.last_event_id ≡ id)
            × (shape_equals is_same entry.shape shape ≡ true))
  unfolding cache_put
  put_found state id c entry h = elim (Option-cases (lookup key c.entries)) [
    | inl gone ↦
        let new : CacheEntry S S = record { shape = shape; state = state; last_event_id = id } in
        let d : StateCache K S S = record c {
          entries = assign key new c.entries;
          order = (key, tt) ∷ c.order;
        } in
        let code : cache_put is_same key shape state id c ≡ evict d = rw (cache_put, gone) refl in
        let found = evict_found key d entry (rw (← code) h) in
        let put = lookup-assign key key new c.entries in
        let same = beq_refl key in
        let is_new : entry ≡ new = ground arith in inr (rw is_new (refl, refl, ground arith))
    | inr (old, found) ↦ elim (Bool-cases (shape_equals is_same old.shape shape)) [
      | inr other ↦
          let code : cache_put is_same key shape state id c ≡ c =
            rw (cache_put, found, other) refl in
          inl (rw (← code) h)
      | inl same ↦ elim (Bool-cases (is_newer_or_same id old.last_event_id)) [
        | inr older ↦
            let code : (cache_put is_same key shape state id c).entries ≡ assign key old c.entries =
              rw (cache_put, found, same, older) refl in
            let put = lookup-assign key key old c.entries in
            let self = beq_refl key in
            let there : lookup key (assign key old c.entries) ≡ some entry = rw (← code) h in
            inl (ground arith)
        | inl newer ↦
            let new : CacheEntry S S = record old { state = state; last_event_id = id } in
            let code : (cache_put is_same key shape state id c).entries ≡ assign key new c.entries =
              rw (cache_put, found, same, newer) refl in
            let put = lookup-assign key key new c.entries in
            let self = beq_refl key in
            let there : lookup key (assign key new c.entries) ≡ some entry = rw (← code) h in
            let is_new : entry ≡ new = ground arith in inr (rw is_new (refl, refl, same))
      ]
    ]
  ]

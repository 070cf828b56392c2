-- ===== src/StateCache/Recency.antt =====
-- The entries of the cache and their order.
use architecturekit_golang.Base.{
  ◌+◌, ◌≤◌, ◌≡◌, refl, inl, inr, Bool, true, false, Option, none, some, [], ◌∷◌, arith, ltb,
  Bool-cases, Option-cases, Eq, nat_eq, beq_refl, length, Text, text_has_eq, Dict, lookup, assign,
  IsDistinct, lookup-assign, lookup-remove, length-remove, assign-IsDistinct, remove-IsDistinct,
}
use architecturekit_golang.StateCache.{
  StateShape, CacheEntry, StateCache, back, move_to_front, cache_get, evict, cache_put,
  shape_equals,
}

abbrev pub is_known {ℓ} : {A : Type ℓ} → Option A → Bool
is_known none = false
is_known (some a) = true

module _ {ℓ} {K I S : Type ℓ} ⦃e : Eq K⦄ where
  -- The list holds the keys of the map, each of them once, and no more of them than configured.
  pub record IsValid (c : StateCache K I S) : Type ℓ where
    pub distinct : IsDistinct c.entries
    pub distinct_order : IsDistinct c.order
    pub same_keys : (k : K) → is_known (lookup k c.order) ≡ is_known (lookup k c.entries)
    pub bounded : length c.order ≤ c.max_subjects

module _ {ℓ} {K : Type ℓ} ⦃e : Eq K⦄ where
  pub back_known :
      (order : Dict K (Unit {0})) (oldest : K)
      → back order ≡ some oldest
      → lookup oldest order ≡ some tt
  unfolding lookup
  back_known [] oldest h = ground arith
  back_known ((k, u) ∷ []) oldest h = ground (arith, beq_refl k)
  back_known ((k, u) ∷ y ∷ order) oldest h = ground (arith, back_known (y ∷ order) oldest h)

  pub back-none : (order : Dict K (Unit {0})) → back order ≡ none → length order ≡ 0
  back-none [] h = refl
  back-none ((k, u) ∷ []) h = ground arith
  back-none (x ∷ y ∷ order) h = absurd (ground (arith, back-none (y ∷ order) h))

module _ {ℓ} {K I S : Type ℓ} ⦃e : Eq K⦄ where
  moved_fits :
      (c : StateCache K I S) (key : K) (entry : CacheEntry I S)
      → lookup key c.entries ≡ some entry
      → IsValid c
      → length (move_to_front key c.order) ≤ c.max_subjects
  unfolding move_to_front
  moved_fits c key entry found h =
      let known : is_known (lookup key c.order) ≡ true = ground (arith, h.same_keys key) in
      let b = h.bounded in
      elim (Option-cases (lookup key c.order)) [
        | inl gone ↦ ground arith
        | inr (u, at) ↦ omega (arith, length-remove key u c.order h.distinct_order at)
      ]

  touch_IsValid :
      (c : StateCache K I S) (key : K) (entry entry' : CacheEntry I S)
      → lookup key c.entries ≡ some entry
      → IsValid c
      → IsValid
          (record c { entries = assign key entry' c.entries; order = move_to_front key c.order })
  unfolding move_to_front lookup
  touch_IsValid c key entry entry' found h = record {
    distinct = assign-IsDistinct key entry' c.entries h.distinct;
    distinct_order = (
      ground (arith, lookup-remove key key c.order, beq_refl key),
      remove-IsDistinct key c.order h.distinct_order,
    );
    same_keys = λ k.
        ground
          (arith, h.same_keys k, lookup-assign key k entry' c.entries, lookup-remove key k c.order);
    bounded = moved_fits c key entry found h;
  }

  evict-IsValid :
      (c : StateCache K I S)
      → IsDistinct c.entries
      → IsDistinct c.order
      → ((k : K) → is_known (lookup k c.order) ≡ is_known (lookup k c.entries))
      → length c.order ≤ c.max_subjects + 1
      → IsValid (evict c)
  unfolding evict
  evict-IsValid c d o same fits = elim (Option-cases (back c.order)) [
    | inl gone ↦
        rw (evict, gone)
          (record {
            distinct = d;
            distinct_order = o;
            same_keys = same;
            bounded = omega (arith, back-none c.order gone);
          })
    | inr (oldest, last) ↦ elim (Bool-cases (ltb c.max_subjects (length c.order))) [
      | inr short ↦
          rw (evict, last, short)
            (record { distinct = d; distinct_order = o; same_keys = same; bounded = ground arith })
      | inl long ↦
          rw (evict, last, long)
            (record {
              distinct = remove-IsDistinct oldest c.entries d;
              distinct_order = remove-IsDistinct oldest c.order o;
              same_keys = λ k.
                  ground (
                    arith,
                    same k,
                    lookup-remove oldest k c.entries,
                    lookup-remove oldest k c.order,
                  );
              bounded =
                  omega (arith, length-remove oldest tt c.order o (back_known c.order oldest last));
            })
    ]
  ]

  fresh_IsValid :
      (c : StateCache K I S) (key : K) (entry : CacheEntry I S)
      → lookup key c.entries ≡ none
      → IsValid c
      → IsValid
          (evict (record c { entries = assign key entry c.entries; order = (key, tt) ∷ c.order }))
  unfolding lookup
  fresh_IsValid c key entry gone h =
      evict-IsValid (record c { entries = assign key entry c.entries; order = (key, tt) ∷ c.order })
        (assign-IsDistinct key entry c.entries h.distinct)
        (ground (arith, h.same_keys key), h.distinct_order)
        (λ k. ground (arith, h.same_keys k, lookup-assign key k entry c.entries))
        (let b = h.bounded in omega arith)

  -- Getting a state keeps the list of the cache in step with its map, and within the limit.
  pub cache_get-IsValid : (key : K) (c : StateCache K I S) → IsValid c → IsValid (cache_get key c).0
  unfolding cache_get lookup move_to_front
  cache_get-IsValid key c h = elim (Option-cases (lookup key c.entries)) [
    | inl gone ↦ rw (cache_get, gone) h
    | inr (entry, found) ↦
        rw (cache_get, found)
          (record {
            distinct = h.distinct;
            distinct_order = (
              ground (arith, lookup-remove key key c.order, beq_refl key),
              remove-IsDistinct key c.order h.distinct_order,
            );
            same_keys = λ k. ground (
              arith,
              h.same_keys k,
              h.same_keys key,
              lookup-remove key k c.order,
              e.beq_iff key k,
            );
            bounded = moved_fits c key entry found h;
          })
  ]

  -- Putting a state keeps the list of the cache in step with its map, each key once, and within
  -- the limit, whatever it evicts.
  pub cache_put-IsValid :
      (is_same : I → I → Bool) (key : K) (shape : StateShape I) (state : S) (last_event_id : Text)
      (c : StateCache K I S)
      → IsValid c
      → IsValid (cache_put is_same key shape state last_event_id c)
  unfolding cache_put
  cache_put-IsValid is_same key shape state last_event_id c h =
      let result = cache_put is_same key shape state last_event_id c in
      elim (Option-cases (lookup key c.entries)) [
        | inl gone ↦ rw (cache_put, gone) (fresh_IsValid c key _ gone h)
        | inr (entry, found) ↦ elim (Bool-cases (shape_equals is_same entry.shape shape)) [
          | inr other ↦ rw (cache_put, found, other) h
          | inl same ↦ rw (cache_put, found, same) (touch_IsValid c key entry _ found h)
        ]
      ]

  -- Putting a state, and getting one, keeps the list and the map of the cache in step, and the cache
  -- within its limit.
  pub cache-IsValid :
      (is_same : I → I → Bool) (key : K) (shape : StateShape I) (state : S) (last_event_id : Text)
      (c : StateCache K I S)
      → IsValid c
      → IsValid (cache_put is_same key shape state last_event_id c) × IsValid (cache_get key c).0
  cache-IsValid is_same key shape state last_event_id c h =
      (cache_put-IsValid is_same key shape state last_event_id c h, cache_get-IsValid key c h)

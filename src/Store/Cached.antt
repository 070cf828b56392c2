-- ===== src/Store/Cached.antt =====
-- Reading the state of a subject with and without the state cache: `fold` of
-- architecturekit/store.go.
use architecturekit_golang.Base.{
  ◌≡◌, refl, sym, ap, ◌∙◌, inl, inr, Bool, true, false, Option, none, some, List, [], ◌++◌,
  Bool-cases, Option-cases, Eq, nat_eq, append_nil, Text, text_has_eq, is_empty, lookup,
}
use architecturekit_golang.Failure.{Failure, Result, Result-cases, ok, fail}
use architecturekit_golang.Stored.{StoredEvent}
use architecturekit_golang.ReadOptions.{exclusive}
use architecturekit_golang.State.{State, copy_of_initial, copy_of, is_copyable}
use architecturekit_golang.StateCache.{StateShape, CacheEntry, StateCache, shape_equals, cache_get}
use architecturekit_golang.Store.{
  Read, fold_from, fold_uncached, fold, bound_after, latest_of, keep,
}
use architecturekit_golang.Store.Entries.{put_found}
use architecturekit_golang.Store.Log.{arrive, ReadsAll, fold_from-append, fold_from-last_id}

module _ {ℓ} {K S : Type ℓ} ⦃e : Eq K⦄ where
  -- A cached state of the key is the state after the first events, up to the one that it names.
  pub record IsFaithful (check : StoredEvent → Option Failure) (is_same : S → S → Bool) (key : K)
      (shape : StateShape S) (s : State S) (initial : S) (events : List StoredEvent)
      (cache : StateCache K S S) : Type ℓ where
    pub same_shape :
        (entry : CacheEntry S S)
        → lookup key cache.entries ≡ some entry
        → shape_equals is_same entry.shape shape ≡ true
    pub is_state :
        (entry : CacheEntry S S)
        → lookup key cache.entries ≡ some entry
        → (before : List StoredEvent) × (after : List StoredEvent) × (events ≡ before ++ after)
          × (is_empty entry.last_event_id ≡ false)
          × (fold_from check s (arrive before) initial [] ≡ ok (entry.state, entry.last_event_id))

module _ {ℓ} {K S : Type ℓ} ⦃e : Eq K⦄ (check : StoredEvent → Option Failure)
    (is_same : S → S → Bool) (key : K) (shape : StateShape S) (s : State S) (initial : S)
    (events : List StoredEvent) where
  Faithful : StateCache K S S → Type ℓ
  Faithful cache = IsFaithful check is_same key shape s initial events cache

  keep-Faithful :
      (c : StateCache K S S)
      → ((state : S) → copy_of s state ≡ state)
      → Faithful c
      → Faithful (keep is_same key shape s c (fold_from check s (arrive events) initial [])).0
  unfolding Faithful
  keep-Faithful c copies h =
      let run = fold_from check s (arrive events) initial [] in
      elim (Result-cases run) [
        | inr (err, fails) ↦ rw fails h
        | inl ((state, id), done) ↦ elim (Bool-cases (is_empty id)) [
          | inl empty ↦ rw (done, empty) h
          | inr some_id ↦
              rw (done, some_id)
                (record {
                  same_shape = λ entry found.
                      elim (put_found is_same key shape (copy_of s state) id c entry found) [
                        | inl old ↦ h.same_shape entry old
                        | inr (is_state, is_id, same) ↦ same
                      ];
                  is_state = λ entry found.
                      elim (put_found is_same key shape (copy_of s state) id c entry found) [
                        | inl old ↦ h.is_state entry old
                        | inr (is_state, is_id, same) ↦ (
                          events,
                          [],
                          sym (append_nil events),
                          rw is_id some_id,
                          rw (is_id, is_state, copies state) done,
                        )
                      ];
                })
        ]
      ]

  keep_result :
      (c : StateCache K S S) (run : Result (S × Text)) → (keep is_same key shape s c run).1 ≡ run
  keep_result c (fail err) = refl
  keep_result c (ok (state, id)) = refl

  no_start : (subject : Text) → is_empty s.from_latest ≡ true → latest_of subject s none ≡ none
  unfolding latest_of
  no_start subject first = rw first refl

  fold_uncached_reads :
      (read : Read) (subject : Text)
      → copy_of_initial s ≡ ok initial
      → is_empty s.from_latest ≡ true
      → ReadsAll read events
      → fold_uncached check read subject s ≡ fold_from check s (arrive events) initial []
  unfolding fold_uncached
  fold_uncached_reads read subject starts first reads =
      rw (fold_uncached, starts, no_start subject first, reads.without_bound) refl

  fold_not_copyable :
      (read : Read) (subject : Text) (cache : StateCache K S S)
      → copy_of_initial s ≡ ok initial
      → is_empty s.from_latest ≡ true
      → ReadsAll read events
      → is_copyable s ≡ false
      → fold check read is_same key subject shape s cache
        ≡ (cache, fold_from check s (arrive events) initial [])
  unfolding fold
  fold_not_copyable read subject cache starts first reads not_copyable =
      rw (fold, starts, not_copyable, no_start subject first, reads.without_bound) refl

  fold_missing :
      (read : Read) (subject : Text) (cache : StateCache K S S)
      → copy_of_initial s ≡ ok initial
      → is_empty s.from_latest ≡ true
      → ReadsAll read events
      → is_copyable s ≡ true
      → cache_get key cache ≡ (cache, none)
      → fold check read is_same key subject shape s cache
        ≡ keep is_same key shape s cache (fold_from check s (arrive events) initial [])
  unfolding fold
  fold_missing read subject cache starts first reads copyable missing =
      let run = fold_from check s (arrive events) initial [] in
      rw
        (fold, starts, copyable, ap (λ x. x.1) missing, no_start subject first, reads.without_bound)
        (ap (λ x. keep is_same key shape s x.0 run) missing)

  fold_cached :
      (read : Read) (subject : Text) (cache moved : StateCache K S S) (entry : CacheEntry S S)
      (after : List StoredEvent)
      → copy_of_initial s ≡ ok initial
      → is_copyable s ≡ true
      → cache_get key cache ≡ (moved, some entry)
      → shape_equals is_same entry.shape shape ≡ true
      → is_empty entry.last_event_id ≡ false
      → ((state : S) → copy_of s state ≡ state)
      → read (some (record { id = entry.last_event_id; bound_type = exclusive })) none
        ≡ arrive after
      → fold check read is_same key subject shape s cache
        ≡ keep is_same key shape s moved
            (fold_from check s (arrive after) entry.state entry.last_event_id)
  unfolding fold bound_after latest_of
  fold_cached read subject cache moved entry after starts copyable found same some_id copies reads =
      let run = fold_from check s (arrive after) entry.state entry.last_event_id in
      rw
        (
          fold,
          starts,
          copyable,
          ap (λ x. x.1) found,
          same,
          bound_after,
          some_id,
          reads,
          copies entry.state,
        )
        (ap (λ x. keep is_same key shape s x.0 run) found)

  get_missing :
      (cache : StateCache K S S)
      → lookup key cache.entries ≡ none
      → cache_get key cache ≡ (cache, none)
  unfolding cache_get
  get_missing cache gone = rw (cache_get, gone) refl

  get_found :
      (cache : StateCache K S S) (entry : CacheEntry S S)
      → lookup key cache.entries ≡ some entry
      → cache_get key cache ≡ ((cache_get key cache).0, some entry)
  unfolding cache_get
  get_found cache entry found = rw (cache_get, found) refl

  moved_Faithful :
      (cache : StateCache K S S) (entry : CacheEntry S S)
      → lookup key cache.entries ≡ some entry
      → Faithful cache
      → Faithful (cache_get key cache).0
  unfolding Faithful cache_get
  moved_Faithful cache entry found h =
      rw (cache_get, found) (record { same_shape = h.same_shape; is_state = h.is_state })

  -- Reading the state of a subject with a cache returns what reading it without one does, and
  -- leaves a faithful cache. The cache is faithful before, Clone copies the value, and the state
  -- does not start from a latest event.
  pub fold-fold_uncached :
      (read : Read) (subject : Text) (cache : StateCache K S S)
      → copy_of_initial s ≡ ok initial
      → ((state : S) → copy_of s state ≡ state)
      → is_empty s.from_latest ≡ true
      → ReadsAll read events
      → IsFaithful check is_same key shape s initial events cache
      → ((fold check read is_same key subject shape s cache).1 ≡ fold_uncached check read subject s)
        × IsFaithful check is_same key shape s initial events
            (fold check read is_same key subject shape s cache).0
  unfolding Faithful
  fold-fold_uncached read subject cache starts copies first reads h =
      let run = fold_from check s (arrive events) initial [] in
      let uncached = fold_uncached_reads read subject starts first reads in
      elim (Bool-cases (is_copyable s)) [
        | inr not_copyable ↦
            rw (fold_not_copyable read subject cache starts first reads not_copyable)
              (sym uncached, h)
        | inl copyable ↦ elim (Option-cases (lookup key cache.entries)) [
          | inl gone ↦
              rw
                (fold_missing read subject cache starts first reads copyable
                  (get_missing cache gone))
                (keep_result cache run ∙ sym uncached, keep-Faithful cache copies h)
          | inr (entry, found) ↦
              let moved = (cache_get key cache).0 in
              let (before, after, split, some_id, is_state) = h.is_state entry found in
              let same_run : fold_from check s (arrive after) entry.state entry.last_event_id
                  ≡ run =
                sym (rw (split, fold_from-append check s before after initial [], is_state) refl) in
              let ends = sym (
                fold_from-last_id check s before initial entry.state [] entry.last_event_id
                  is_state) in
              rw
                (
                  fold_cached read subject cache moved entry after starts copyable
                      (get_found cache entry found) (h.same_shape entry found) some_id copies
                      (reads.after_bound before after entry.last_event_id split ends some_id),
                  same_run,
                )
                (
                  keep_result moved run ∙ sym uncached,
                  keep-Faithful moved copies (moved_Faithful cache entry found h),
                )
        ]
      ]

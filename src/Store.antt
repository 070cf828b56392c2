-- ===== src/Store.antt =====
-- Reading the state of a subject: `fold` and `verify` of architecturekit/store.go. What the client
-- returns is a parameter: a read of the subject is a function of the bound and the start that it
-- is asked for.
pub mod Log
pub mod Entries
pub mod Cached
pub mod Execution
pub mod Written
pub mod Schemas
pub mod Comparison
pub mod Registered
pub mod Collected
pub mod Reading
pub mod Replayed
pub mod Loaded
pub mod Retries
use architecturekit_golang.Base.{
  Bool, not, Option, none, some, List, [], ◌∷◌, arith, if◌then◌else◌, Eq, nat_eq, Text, text_has_eq,
  is_empty,
}
use architecturekit_golang.Failure.{
  permanent, unverified, Failure, Result, ok, fail, ◌>>=◌, wrapping,
}
use architecturekit_golang.Stored.{StoredEvent, Element, arrives, breaks}
use architecturekit_golang.ReadOptions.{Bound, exclusive, LatestEvent, read_everything}
use architecturekit_golang.State.{State, evolve_by_stored, copy_of_initial, copy_of, is_copyable}
use architecturekit_golang.StateCache.{StateShape, StateCache, shape_equals, cache_get, cache_put}
use architecturekit_golang.Failure.Database.{read_failure}

-- The settings that `verify` reads, and the checks of the client.
pub record Verification : Type 0 where
  pub has_key : Bool
  pub skips_hashes : Bool
  pub verify_signature : StoredEvent → Option Failure
  pub verify_hash : StoredEvent → Option Failure

-- `verify`
unfoldable pub verify : Verification → StoredEvent → Option Failure
verify v event =
    elim (if v.has_key
      then v.verify_signature event
      else if not v.skips_hashes
      then v.verify_hash event
      else none) [ none ↦ none | some err ↦ some (wrapping unverified) ]

-- `boundAfter` of architecturekit/projection.go.
unfoldable pub bound_after : Text → Option Bound
bound_after event_id =
    if is_empty event_id then none else some (record { id = event_id; bound_type = exclusive })

-- `options.FromLatestEvent`
unfoldable pub latest_of {ℓ} : {S : Type ℓ} → Text → State S → Option Bound → Option LatestEvent
latest_of subject s (some bound) = none
latest_of subject s none =
    if is_empty s.from_latest
    then none
    else some (record { subject = subject; type = s.from_latest; if_missing = read_everything })

abbrev pub Read : Type 0
Read = Option Bound → Option LatestEvent → List Element

module _ {ℓ} {S : Type ℓ} where
  -- The loop of `fold` over the events, with the ID of the last one.
  unfoldable pub fold_from :
      (StoredEvent → Option Failure) → State S → List Element → S → Text → Result (S × Text)
  unfolding evolve_by_stored read_failure
  fold_from check s [] current last = ok (current, last)
  fold_from check s (breaks err ctx_err ∷ elements) current last = fail (read_failure ctx_err err)
  fold_from check s (arrives event ∷ elements) current last = elim (check event) [
    | some err ↦ fail err
    | none ↦ evolve_by_stored s current event >>= λ next. fold_from check s elements next event.id
  ]

  -- `fold` without a cached state.
  unfoldable pub fold_uncached :
      (StoredEvent → Option Failure) → Read → Text → State S → Result (S × Text)
  unfolding fold_from copy_of_initial latest_of
  fold_uncached check read subject s = copy_of_initial s >>= λ current.
      fold_from check s (read none (latest_of subject s none)) current []

module _ {ℓ} {K S : Type ℓ} ⦃e : Eq K⦄ where
  -- The last statements of `fold`, with a cache.
  abbrev pub keep :
      (S → S → Bool)
      → K
      → StateShape S
      → State S
      → StateCache K S S
      → Result (S × Text)
      → StateCache K S S × Result (S × Text)
  keep is_same key shape s cache (fail err) = (cache, fail err)
  keep is_same key shape s cache (ok (current, last)) = (
    if is_empty last then cache else cache_put is_same key shape (copy_of s current) last cache,
    ok (current, last),
  )

  -- `fold` with a cache, for a state of the given shape.
  unfoldable pub fold :
      (StoredEvent → Option Failure)
      → Read
      → (S → S → Bool)
      → K
      → Text
      → StateShape S
      → State S
      → StateCache K S S
      → StateCache K S S × Result (S × Text)
  unfolding copy_of_initial is_copyable cache_get shape_equals copy_of latest_of bound_after
      fold_from fold_uncached cache_put
  fold check read is_same key subject shape s cache = elim (copy_of_initial s) [
    | fail err ↦ (cache, fail err)
    | ok current ↦
        if not (is_copyable s)
        then (cache, fold_from check s (read none (latest_of subject s none)) current [])
        else (let (cache', found) = cache_get key cache in
            elim found [
              | none ↦
                  keep is_same key shape s cache'
                    (fold_from check s (read none (latest_of subject s none)) current [])
              | some entry ↦
                  if not (shape_equals is_same entry.shape shape)
                  then (cache', fail (wrapping permanent))
                  else (let bound = bound_after entry.last_event_id in
                      keep is_same key shape s cache' (
                        fold_from check s (read bound (latest_of subject s bound))
                          (copy_of s entry.state) entry.last_event_id))
            ])
  ]

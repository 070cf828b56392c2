-- ===== src/Tests/Caches.antt =====
-- The state cache, of numbers by number.
use architecturekit_golang.Base.{
  ℕ, ◌≡◌, refl, Bool, none, some, [], ◌∷◌, arith, ◌==◌, nat_eq, codes, text_has_eq, lookup,
}
use architecturekit_golang.StateCache.{
  StateShape, CacheEntry, StateCache, new_state_cache, cache_get, cache_put,
}
use architecturekit_golang.StateCache.Recency.{
  IsValid, cache_get-IsValid, cache_put-IsValid, cache-IsValid,
}
use architecturekit_golang.StateCache.Newest.{kept, lookup-cache_put_cached, lookup-cache_put_fresh}
use architecturekit_golang.Revision.{is_position, parse_revision}

abbrev is_same : ℕ → ℕ → Bool
is_same x y = x == y

abbrev shape : StateShape ℕ
shape = record {
  source = 1;
  initial = 0;
  evolved = codes "a" ∷ [];
  ignored = [];
  upcasted = [];
  from_latest = [];
}

abbrev empty_cache : StateCache ℕ ℕ ℕ
empty_cache = new_state_cache 1

empty_cache-IsValid : IsValid empty_cache
unfolding lookup
empty_cache-IsValid = record {
  distinct = tt;
  distinct_order = tt;
  same_keys = λ k. refl;
  bounded = omega arith;
}

abbrev full_cache : StateCache ℕ ℕ ℕ
full_cache = record {
  max_subjects = 1;
  entries = (5, record { shape = shape; state = 50; last_event_id = codes "3" }) ∷ [];
  order = (5, tt) ∷ [];
}

abbrev cached : CacheEntry ℕ ℕ
cached = record { shape = shape; state = 50; last_event_id = codes "3" }

cache_put-IsValid_on_sample : IsValid (cache_put is_same 5 shape 50 (codes "3") empty_cache)
cache_put-IsValid_on_sample =
    cache_put-IsValid is_same 5 shape 50 (codes "3") empty_cache empty_cache-IsValid

cache_get-IsValid_on_sample :
    IsValid (cache_get 5 (cache_put is_same 5 shape 50 (codes "3") empty_cache)).0
cache_get-IsValid_on_sample =
    cache_get-IsValid 5 (cache_put is_same 5 shape 50 (codes "3") empty_cache)
      (cache_put-IsValid is_same 5 shape 50 (codes "3") empty_cache empty_cache-IsValid)

lookup-cache_put_cached_on_sample :
    lookup 5 (cache_put is_same 5 shape 40 (codes "2") full_cache).entries
    ≡ some (kept is_same shape 40 (codes "2") cached)
unfolding lookup is_position parse_revision
lookup-cache_put_cached_on_sample =
    lookup-cache_put_cached is_same 5 5 shape 40 (codes "2") full_cache cached refl refl refl

lookup-cache_put_fresh_on_sample :
    lookup 5 (cache_put is_same 6 shape 60 (codes "2") full_cache).entries ≡ none
unfolding lookup
lookup-cache_put_fresh_on_sample =
    lookup-cache_put_fresh is_same 6 5 shape 60 (codes "2") full_cache refl refl (omega arith)

cache-IsValid_example :
    IsValid (cache_put is_same 5 shape 50 (codes "3") empty_cache)
    × IsValid (cache_get 5 empty_cache).0
cache-IsValid_example = cache-IsValid is_same 5 shape 50 (codes "3") empty_cache empty_cache-IsValid

-- ===== src/StateCache.antt =====
-- The cache of the states of the most recently used subjects: architecturekit/state_cache.go. The
-- lock makes `get` and `put` one step each. An element of the list is named by the key of its
-- entry, and the front of the list comes first.
pub mod Recency
pub mod Newest
use architecturekit_golang.Base.{
  ℕ, Ordering, Bool, true, false, not, ◌&&◌, Option, none, some, List, [], ◌∷◌, arith, ltb, ◌==◌,
  if◌then◌else◌, Eq, nat_eq, length, Text, text_eq, text_has_eq, Dict, lookup, assign, remove,
}
use architecturekit_golang.Revision.{compare_revisions}
use architecturekit_golang.Failure.{Result, ok, fail}

-- `source` is the address of the `*State` that the shape was built from.
pub record StateShape {ℓ} (I : Type ℓ) : Type ℓ where
  pub source : ℕ
  pub initial : I
  pub evolved : List Text
  pub ignored : List Text
  pub upcasted : List Text
  pub from_latest : Text

-- `slices.Equal` on texts.
abbrev pub texts_equal : List Text → List Text → Bool
texts_equal [] [] = true
texts_equal (x ∷ xs) (y ∷ ys) = text_eq x y && texts_equal xs ys
texts_equal _ _ = false

-- `equals`, with `isSame` on the initial values.
unfoldable pub shape_equals {ℓ} : {I : Type ℓ} → (I → I → Bool) → StateShape I → StateShape I → Bool
shape_equals is_same s other =
    if s.source == other.source
    then true
    else is_same s.initial other.initial
      && texts_equal s.evolved other.evolved
      && texts_equal s.ignored other.ignored
      && texts_equal s.upcasted other.upcasted
      && text_eq s.from_latest other.from_latest

pub record CacheEntry {ℓ} (I S : Type ℓ) : Type ℓ where
  pub shape : StateShape I
  pub state : S
  pub last_event_id : Text

pub record StateCache {ℓ} (K I S : Type ℓ) : Type ℓ where
  pub max_subjects : ℕ
  pub entries : Dict K (CacheEntry I S)
  pub order : Dict K (Unit {0})

-- `newStateCache`
abbrev pub new_state_cache {ℓ} : {K I S : Type ℓ} → ℕ → StateCache K I S
new_state_cache max_subjects = record { max_subjects = max_subjects; entries = []; order = [] }

-- `list.Back`
abbrev pub back {ℓ} : {K : Type ℓ} → Dict K (Unit {0}) → Option K
back [] = none
back ((k, u) ∷ []) = some k
back (x ∷ y ∷ order) = back (y ∷ order)

-- `isNewer, err := CompareRevisions(id, current); err == nil && isNewer >= 0`
abbrev is_no_less : Result Ordering → Bool
is_no_less (ok Ordering.lt) = false
is_no_less (ok _) = true
is_no_less (fail err) = false

unfoldable pub is_newer_or_same : Text → Text → Bool
is_newer_or_same id current = is_no_less (compare_revisions id current)

-- `list.MoveToFront`
unfoldable pub move_to_front {ℓ} :
    {K : Type ℓ} ⦃e : Eq K⦄ → K → Dict K (Unit {0}) → Dict K (Unit {0})
unfolding remove
move_to_front key order = (key, tt) ∷ remove key order

module _ {ℓ} {K I S : Type ℓ} ⦃e : Eq K⦄ where
  -- `get`
  unfoldable pub cache_get : K → StateCache K I S → StateCache K I S × Option (CacheEntry I S)
  unfolding lookup move_to_front
  cache_get key c = elim (lookup key c.entries) [
    | none ↦ (c, none)
    | some entry ↦ (record c { order = move_to_front key c.order }, some entry)
  ]

  -- The last statement of `put`.
  unfoldable pub evict : StateCache K I S → StateCache K I S
  unfolding remove
  evict c = elim (back c.order) [
    | none ↦ c
    | some oldest ↦
        if ltb c.max_subjects (length c.order)
        then record c { entries = remove oldest c.entries; order = remove oldest c.order }
        else c
  ]

  -- `put`
  unfoldable pub cache_put :
      (I → I → Bool) → K → StateShape I → S → Text → StateCache K I S → StateCache K I S
  unfolding lookup assign shape_equals is_newer_or_same move_to_front evict
  cache_put is_same key shape state last_event_id c = elim (lookup key c.entries) [
    | some entry ↦
        if not (shape_equals is_same entry.shape shape)
        then c
        else (let entry' : CacheEntry I S =
              if is_newer_or_same last_event_id entry.last_event_id
              then record entry { state = state; last_event_id = last_event_id }
              else entry in
            record c { entries = assign key entry' c.entries; order = move_to_front key c.order })
    | none ↦
        let entry : CacheEntry I S = record {
          shape = shape;
          state = state;
          last_event_id = last_event_id;
        } in
        evict (record c { entries = assign key entry c.entries; order = (key, tt) ∷ c.order })
  ]

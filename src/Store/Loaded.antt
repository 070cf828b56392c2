-- ===== src/Store/Loaded.antt =====
-- `Load` of architecturekit/store.go with the state cache of the store.
use architecturekit_golang.Base.{
  ◌≡◌, ap, Bool, true, Option, List, Eq, nat_eq, Text, text_has_eq, is_empty,
}
use architecturekit_golang.Failure.{Failure, ok}
use architecturekit_golang.Stored.{StoredEvent}
use architecturekit_golang.State.{State, copy_of_initial, copy_of}
use architecturekit_golang.StateCache.{StateShape, StateCache}
use architecturekit_golang.Store.Log.{ReadsAll}
use architecturekit_golang.Store.Cached.{IsFaithful, fold-fold_uncached}
use architecturekit_golang.Store.Reading.{ReadEvents, read_subject, state_of, load_uncached, load}

module _ {ℓ} {K S : Type ℓ} ⦃e : Eq K⦄ (check : StoredEvent → Option Failure)
    (is_same : S → S → Bool) (key : K) (shape : StateShape S) (s : State S) (initial : S)
    (events : List StoredEvent) where
  -- Load with a faithful cache returns what it returns without one.
  load-load_uncached :
      (read_events : ReadEvents) (subject : Text) (cache : StateCache K S S)
      → copy_of_initial s ≡ ok initial
      → ((state : S) → copy_of s state ≡ state)
      → is_empty s.from_latest ≡ true
      → ReadsAll (read_subject read_events subject) events
      → IsFaithful check is_same key shape s initial events cache
      → (load check read_events is_same key shape cache s subject).1
        ≡ load_uncached check read_events s subject
  unfolding load load_uncached
  load-load_uncached read_events subject cache starts copies first reads h =
      ap state_of
        (fold-fold_uncached check is_same key shape s initial events
          (read_subject read_events subject) subject cache starts copies first reads h).0

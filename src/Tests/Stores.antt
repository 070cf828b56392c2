-- ===== src/Tests/Stores.antt =====
-- A state that counts the events of a subject, read with and without a cache.
use architecturekit_golang.Base.{
  ℕ, ap, ◌∙◌, All, Bool-cases, inl, inr, text_eq_iff, ◌+◌, ◌≡◌, refl, Bool, true, false, Option,
  none, some, List, [], ◌∷◌, ◌++◌, arith, ◌==◌, if◌then◌else◌, nat_eq, Text, codes, text_eq,
  text_has_eq, is_empty, lookup,
}
use architecturekit_golang.Failure.{Failure, ok}
use architecturekit_golang.Stored.{StoredEvent}
use architecturekit_golang.State.{
  since_latest, State, Rule, replay_stored, copy_of_initial, copy_of, evolve_by_stored,
}
use architecturekit_golang.StateCache.{StateShape, StateCache, CacheEntry, shape_equals}
use architecturekit_golang.Upcast.{apply}
use architecturekit_golang.Store.{Read, fold, fold_uncached, fold_from}
use architecturekit_golang.Store.Log.{arrive, last_id, ReadsAll}
use architecturekit_golang.Store.Reading.{ReadEvents, Subjects, exact_subject, load_uncached}
use architecturekit_golang.Store.Reading
use architecturekit_golang.Store.Replayed.{
  IsHistory, IsOther, handed_out, latest_or_all, latest_or_all_missing, latest_or_all_found,
  load-replay_stored,
}
use architecturekit_golang.Store.Cached.{IsFaithful, fold-fold_uncached}

abbrev event_of : Text → StoredEvent
event_of id = record { id = id; source = []; subject = codes "/a"; type = codes "t"; payload = [] }

abbrev count_rule : Rule ℕ
count_rule n payload = ok (n + 1)

abbrev counting : State ℕ
counting = record {
  initial = 0;
  rules = (codes "t", count_rule) ∷ [];
  ignored = [];
  upcasters = none;
  from_latest = [];
  clone = none;
  is_value = true;
  shares_initial = false;
}

abbrev shape : StateShape ℕ
shape = record {
  source = 1;
  initial = 0;
  evolved = codes "t" ∷ [];
  ignored = [];
  upcasted = [];
  from_latest = [];
}

abbrev events : List StoredEvent
events = event_of (codes "1") ∷ event_of (codes "4") ∷ []

abbrev first_event : StoredEvent
first_event = event_of (codes "1")

abbrev second_event : StoredEvent
second_event = event_of (codes "4")

-- The events after an ID, or all of them.
abbrev after_id : Text → List StoredEvent → List StoredEvent
after_id id [] = []
after_id id (event ∷ rest) =
    let later = after_id id rest in if text_eq event.id id then rest else later

abbrev read : Read
read none latest = arrive events
read (some bound) latest = arrive (after_id bound.id events)

abbrev passes : StoredEvent → Option Failure
passes event = none

abbrev is_same : ℕ → ℕ → Bool
is_same x y = x == y

-- The cache holds the state after the first event.
abbrev cache : StateCache ℕ ℕ ℕ
cache = record {
  max_subjects = 2;
  entries = (5, record { shape = shape; state = 1; last_event_id = codes "1" }) ∷ [];
  order = (5, tt) ∷ [];
}

abbrev cached : CacheEntry ℕ ℕ
cached = record { shape = shape; state = 1; last_event_id = codes "1" }

cache-IsFaithful : IsFaithful passes is_same 5 shape counting 0 events cache
unfolding lookup fold_from shape_equals evolve_by_stored apply text_eq
cache-IsFaithful = record {
  same_shape = λ entry found. let is_entry : entry ≡ cached = ground arith in rw is_entry refl;
  is_state = λ entry found.
      let is_entry : entry ≡ cached = ground arith in
      (first_event ∷ [], second_event ∷ [], refl, rw is_entry refl, rw is_entry refl);
}

after_first :
    (before after : List StoredEvent) (id : Text)
    → events ≡ before ++ after
    → last_id [] before ≡ id
    → is_empty id ≡ false
    → arrive (after_id id events) ≡ arrive after
unfolding text_eq
after_first [] after id split ends some_id = absurd (ground arith)
after_first (x ∷ []) after id split ends some_id =
    let x_is : first_event ≡ x = ground arith in
    let after_is : second_event ∷ [] ≡ after = ground arith in rw (← ends, ← x_is, ← after_is) refl
after_first (x ∷ y ∷ []) after id split ends some_id =
    let y_is : second_event ≡ y = ground arith in
    let after_is : [] ≡ after = ground arith in rw (← ends, ← y_is, ← after_is) refl
after_first (x ∷ y ∷ z ∷ before) after id split ends some_id = absurd (ground arith)

read-ReadsAll : ReadsAll read events
read-ReadsAll = record { without_bound = refl; after_bound = after_first }

fold-fold_uncached_example :
    ((fold passes read is_same 5 (codes "/a") shape counting cache).1
      ≡ fold_uncached passes read (codes "/a") counting)
    × IsFaithful passes is_same 5 shape counting 0 events
        (fold passes read is_same 5 (codes "/a") shape counting cache).0
unfolding copy_of_initial copy_of
fold-fold_uncached_example =
    fold-fold_uncached passes is_same 5 shape counting 0 events read (codes "/a") cache refl
      (λ state. refl) refl read-ReadsAll cache-IsFaithful

-- A database with the two events, which reads from the latest one of a type on.
abbrev read_events : ReadEvents
read_events subject options = elim options.from_latest [
  | none ↦ arrive events
  | some latest ↦ arrive (latest_or_all latest.type events)
]

since_latest-none :
    (type : Text) (history : List StoredEvent)
    → All (IsOther type) history
    → since_latest type history ≡ none
unfolding since_latest
since_latest-none type [] others = refl
since_latest-none type (event ∷ history) others =
    let other : text_eq event.type type ≡ false = elim (Bool-cases (text_eq event.type type)) [
      | inl same ↦ absurd (others.0 ((text_eq_iff event.type type).0 same))
      | inr other ↦ other
    ] in
    rw (since_latest, since_latest-none type history others.1, other) refl

since_latest-some :
    (type : Text) (before : List StoredEvent) (latest : StoredEvent) (after : List StoredEvent)
    → latest.type ≡ type
    → All (IsOther type) after
    → since_latest type (before ++ latest ∷ after) ≡ some (latest ∷ after)
unfolding since_latest
since_latest-some type [] latest after is_type others =
    rw (since_latest, since_latest-none type after others, (text_eq_iff latest.type type).1 is_type)
      refl
since_latest-some type (event ∷ before) latest after is_type others =
    rw (since_latest, since_latest-some type before latest after is_type others) refl

read_events-IsHistory : IsHistory read_events (codes "/a") events
read_events-IsHistory = record {
  all_events = refl;
  since_event = λ type before latest after split is_type others. ap arrive (
      latest_or_all_found type events (latest ∷ after)
        (ap (since_latest type) split ∙ since_latest-some type before latest after is_type others));
  without_event = λ type others.
      ap arrive (latest_or_all_missing type events (since_latest-none type events others));
}

-- The state that starts from the latest event of its type.
abbrev counting_latest : State ℕ
counting_latest = record counting { from_latest = codes "t" }

abbrev subjects : Subjects
subjects = record { subject = codes "/a"; recursive = false }

read_plain_events : Reading.read passes read_events subjects [] ≡ some (handed_out events)
unfolding Reading.read
read_plain_events = refl

load-replay_stored_example :
    load_uncached passes read_events counting_latest (codes "/a")
    ≡ replay_stored counting_latest events
unfolding exact_subject
load-replay_stored_example =
    load-replay_stored passes counting_latest read_events (codes "/a") subjects events refl
      read_events-IsHistory read_plain_events

-- Load starts from the second event.
load_counts : load_uncached passes read_events counting_latest (codes "/a") ≡ ok 1
unfolding load_uncached text_eq since_latest
load_counts = refl

-- ===== src/Tests/Running.antt =====
-- A transactional projection that counts events over a run with two sessions.
use architecturekit_golang.Base.{
  ℕ, text_eq, if◌then◌else◌, ◌+◌, ◌≡◌, refl, sym, ◌∙◌, ◌≢◌, false, Option, none, some, List, [],
  ◌∷◌, ◌++◌, arith, nat_eq, All, Text, codes, text_has_eq,
}
use architecturekit_golang.Failure.{transient, sentinel, ok, has_panic}
use architecturekit_golang.Stored.{StoredEvent, Element, arrives, breaks}
use architecturekit_golang.ReadOptions.{Bound}
use architecturekit_golang.Store.{bound_after}
use architecturekit_golang.Projection.Status.{ProjectionRun, start}
use architecturekit_golang.Projection.Drive.{succeeded, checkpoint_at, drive}
use architecturekit_golang.Projection.Transactions.{
  TransactionalTarget, TransactionalWriter, transactional_writer, IsAtomic,
}
use architecturekit_golang.Projection.Folding.{events_of}
use architecturekit_golang.Projection.Running.{
  Stream, Session, ReconnectSettings, run, run_from, catch_up,
}
use architecturekit_golang.Projection.Sessions.{reached, reached-none}
use architecturekit_golang.Projection.Once.{Serves, IsServed, IsUpTo, run-IsUpTo, All-prefix}
use architecturekit_golang.Projection.Reliable.{IsReliable}
use architecturekit_golang.Projection.Complete.{ReadsWhole, ObservesAll, HasAll, run-HasAll}

abbrev event_of : Text → StoredEvent
event_of id = record { id = id; source = []; subject = codes "/a"; type = codes "t"; payload = [] }

abbrev count_event : ℕ → StoredEvent → ℕ
count_event n event = n + 1

abbrev counter : TransactionalTarget (ℕ × Text) ℕ
counter = record {
  checkpoint = λ s. (s, checkpoint_at s.1);
  begin = λ s. (s, ok s.0);
  apply = λ t event. (t + 1, succeeded);
  commit = λ s t id. ((t, id), none);
  rollback = λ s t. (s, succeeded);
}

counter-IsAtomic : IsAtomic counter (λ s. s) (λ t. t) count_event
counter-IsAtomic = record {
  checkpoint_keeps = λ s. refl;
  checkpoint_finds = λ s id h. ground arith;
  begin_keeps = λ s. refl;
  begins_from = λ s t h. ground arith;
  applies = λ t event h. refl;
  commits = λ s t id h. refl;
  commit_refused = λ s t id err h. ground arith;
  rollback_keeps = λ s t. refl;
}

abbrev log : List StoredEvent
log = event_of (codes "0") ∷ event_of (codes "1") ∷ []

abbrev HasId : StoredEvent → Type 0
HasId event = event.id ≢ []

identified : All HasId log
identified = (λ h. ground arith, (λ h. ground arith, tt))

-- The elements for a read from the beginning, and none for any other.
abbrev only_first : List Element → Option Bound → Stream
only_first elements none = record { elements = elements; ctx_err = none }
only_first elements (some bound) = record { elements = []; ctx_err = none }

only_first-nothing :
    (elements : List Element) (id : Text) (after : List StoredEvent)
    → id ≢ []
    → events_of (only_first elements (bound_after id)).elements ++ after ≡ after
unfolding bound_after
only_first-nothing elements [] after h = absurd (h refl)
only_first-nothing elements (c ∷ id) after h = refl

only_first-Serves :
    (elements : List Element) (more : List StoredEvent)
    → events_of elements ++ more ≡ log
    → Serves log (only_first elements)
unfolding bound_after
only_first-Serves elements more e [] after h = (more, e ∙ sym h)
only_first-Serves elements more e (x ∷ before) after h =
    let named : All HasId (x ∷ before) = All-prefix HasId (x ∷ before) after log h identified in
    (
      after,
      only_first-nothing elements (reached x.id before) after
          (reached-none before named.1 x.id named.0),
    )

-- The first session reads one event and breaks off, and the second one finds nothing new.
abbrev broken : List Element
broken = arrives (event_of (codes "0")) ∷ breaks (sentinel transient) none ∷ []

abbrev session_of : List Element → Session
session_of elements = record {
  read = only_first elements;
  observe = only_first [];
  now = 3;
  live_for = 0;
  is_over = false;
  is_over_waiting = false;
}

abbrev sessions : List Session
sessions = session_of broken ∷ session_of [] ∷ []

sessions-IsServed : All (IsServed log) sessions
sessions-IsServed = (
  (only_first-Serves broken (event_of (codes "1") ∷ []) refl, only_first-Serves [] log refl),
  ((only_first-Serves [] log refl, only_first-Serves [] log refl), tt),
)

abbrev fresh_writer : TransactionalWriter (ℕ × Text) ℕ
fresh_writer = record { durable = (0, []); tx = none }

abbrev settings : ReconnectSettings
settings = record { initial_delay = 100; max_delay = 1000 }

abbrev progress : ProjectionRun
progress = start (codes "counter") (codes "/a") 0

fresh-IsUpTo :
    IsUpTo counter (λ s. s) (λ t. t) count_event counter-IsAtomic log identified 0 fresh_writer
fresh-IsUpTo = record { applied = []; left = log; in_order = refl; in_step = refl }

run-IsUpTo_example :
    IsUpTo counter
      (λ s. s)
      (λ t. t)
      count_event
      counter-IsAtomic
      log
      identified
      0
      (run
        (transactional_writer counter)
        (λ event. none)
        1
        settings
        sessions
        fresh_writer
        progress).target
run-IsUpTo_example =
    run-IsUpTo counter (λ s. s) (λ t. t) count_event counter-IsAtomic log identified 0
      (λ event. none) 1 settings sessions fresh_writer progress sessions-IsServed fresh-IsUpTo

counted :
    (run
      (transactional_writer counter)
      (λ event. none)
      1
      settings
      sessions
      fresh_writer
      progress).target.durable
    ≡ (1, codes "0")
unfolding run run_from transactional_writer catch_up drive bound_after has_panic
counted = refl

counter-IsReliable : IsReliable counter (λ event. none)
counter-IsReliable = record {
  verifies = λ event. refl;
  finds = λ s. (s.1, refl);
  begins = λ s. (s.0, refl);
  applies = λ t event. refl;
  commits = λ s t id. refl;
}

-- What comes after an ID, before the stream breaks off.
abbrev observed_after : Text → List Element
observed_after id =
    if text_eq id (codes "0")
    then arrives (event_of (codes "1")) ∷ breaks (sentinel transient) none ∷ []
    else breaks (sentinel transient) none ∷ []

abbrev observed : Option Bound → Stream
observed none = record {
  elements =
      arrives (event_of (codes "0"))
      ∷ arrives (event_of (codes "1"))
      ∷ breaks (sentinel transient) none
      ∷ [];
  ctx_err = none;
}
observed (some bound) = record { elements = observed_after bound.id; ctx_err = none }

-- A session that reads the first event, observes the second one, and breaks off.
abbrev live_session : Session
live_session = record {
  read = only_first (arrives (event_of (codes "0")) ∷ []);
  observe = observed;
  now = 3;
  live_for = 20;
  is_over = false;
  is_over_waiting = false;
}

live_session-ReadsWhole : ReadsWhole live_session
live_session-ReadsWhole none = (tt, refl)
live_session-ReadsWhole (some bound) = (tt, refl)

live_session-ObservesAll : ObservesAll log live_session
unfolding bound_after text_eq
live_session-ObservesAll [] after e = sym e
live_session-ObservesAll (x ∷ []) after e =
    let x_is : event_of (codes "0") ≡ x = ground arith in
    let after_is : event_of (codes "1") ∷ [] ≡ after = ground arith in rw (← x_is, ← after_is) refl
live_session-ObservesAll (x ∷ y ∷ []) after e =
    let y_is : event_of (codes "1") ≡ y = ground arith in
    let after_is : [] ≡ after = ground arith in rw (← y_is, ← after_is) refl
live_session-ObservesAll (x ∷ y ∷ z ∷ before) after e = absurd (ground arith)

run-HasAll_example :
    HasAll counter
      (λ s. s)
      (λ t. t)
      count_event
      counter-IsAtomic
      log
      identified
      0
      (λ event. none)
      counter-IsReliable
      (run
        (transactional_writer counter)
        (λ event. none)
        2
        settings
        (live_session ∷ [])
        fresh_writer
        progress).target
run-HasAll_example =
    run-HasAll counter (λ s. s) (λ t. t) count_event counter-IsAtomic log identified 0
      (λ event. none) counter-IsReliable 2 settings live_session fresh_writer progress
      (only_first-Serves (arrives (event_of (codes "0")) ∷ []) (event_of (codes "1") ∷ []) refl)
      live_session-ReadsWhole live_session-ObservesAll fresh-IsUpTo

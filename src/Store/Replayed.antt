-- ===== src/Store/Replayed.antt =====
-- `Load` and `Read` of architecturekit/store.go beside `ReplayStored` of architecturekit/state.go.
use architecturekit_golang.Base.{
  ◌≡◌, ◌∙◌, ◌≢◌, ◌⊎◌, ◌++◌, text_eq_iff, refl, sym, subst, ap, inl, inr, false, Option, none, some,
  List, [], ◌∷◌, arith, Bool-cases, Option-cases, nat_eq, All, Text, text_eq, text_has_eq, is_empty,
  if◌then◌else◌,
}
use architecturekit_golang.Failure.{Failure, Result, Result-cases, ok, ◌>>=◌}
use architecturekit_golang.Stored.{StoredEvent}
use architecturekit_golang.ReadOptions.{read_everything, read_settings_of, check_bounds}
use architecturekit_golang.State.{
  State, evolve_by_stored, copy_of_initial, since_latest, replay_from, replay_stored,
}
use architecturekit_golang.Subject.{starts_with, slash}
use architecturekit_golang.Store.{fold_from, fold_uncached, latest_of}
use architecturekit_golang.Store.Log.{arrive}
use architecturekit_golang.Store.Reading.{
  Subjects, exact_subject, subjects_of, ReadEvents, read_from, read_checked, read, require_subjects,
  read_subject, state_of, load_uncached,
}

-- What a read hands out that ends without an error.
abbrev pub handed_out : List StoredEvent → List (Result StoredEvent)
handed_out [] = []
handed_out (event ∷ events) = ok event ∷ handed_out events

abbrev pub latest_or_all : Text → List StoredEvent → List StoredEvent
latest_or_all type history = elim (since_latest type history) [
  | none ↦ history
  | some latest ↦ latest
]

pub latest_or_all_missing :
    (type : Text) (history : List StoredEvent)
    → since_latest type history ≡ none
    → latest_or_all type history ≡ history
latest_or_all_missing type history missing = rw (latest_or_all, missing) refl

pub latest_or_all_found :
    (type : Text) (history latest : List StoredEvent)
    → since_latest type history ≡ some latest
    → latest_or_all type history ≡ latest
latest_or_all_found type history latest found = rw (latest_or_all, found) refl

-- The events that a state is built from.
abbrev replayed_events : Text → List StoredEvent → List StoredEvent
replayed_events from_latest history =
    if is_empty from_latest then history else latest_or_all from_latest history

abbrev pub IsOther : Text → StoredEvent → Type 0
IsOther type event = event.type ≢ type

-- What the documentation of the database says of a read of one subject that holds the history: it
-- returns all events in order, or those from the latest one of a type on, if there is one.
pub record IsHistory (read_events : ReadEvents) (subject : Text) (history : List StoredEvent)
    : Type 0 where
  pub all_events : read_subject read_events subject none none ≡ arrive history
  pub since_event :
      (type : Text) (before : List StoredEvent) (latest : StoredEvent) (after : List StoredEvent)
      → history ≡ before ++ latest ∷ after
      → latest.type ≡ type
      → All (IsOther type) after
      → read_subject read_events subject none
          (some (record { subject = subject; type = type; if_missing = read_everything }))
        ≡ arrive (latest ∷ after)
  pub without_event :
      (type : Text)
      → All (IsOther type) history
      → read_subject read_events subject none
          (some (record { subject = subject; type = type; if_missing = read_everything }))
        ≡ arrive history

-- Where the history from the latest event of a type on begins, if it has one.
abbrev LatestSplit : Text → List StoredEvent → Type 0
LatestSplit type history =
    (before : List StoredEvent) × (latest : StoredEvent) × (after : List StoredEvent) × (history
      ≡ before ++ latest ∷ after)
    × (latest.type ≡ type)
    × All (IsOther type) after
    × (since_latest type history ≡ some (latest ∷ after))

since_latest-cases :
    (type : Text) (history : List StoredEvent)
    → (All (IsOther type) history × (since_latest type history ≡ none)) ⊎ LatestSplit type history
unfolding since_latest
since_latest-cases type [] = inl (tt, refl)
since_latest-cases type (event ∷ history) = elim (since_latest-cases type history) [
  | inr (before, latest, after, split, is_type, others, found) ↦ inr (
    event ∷ before,
    latest,
    after,
    ap (λ xs. event ∷ xs) split,
    is_type,
    others,
    rw (since_latest, found) refl,
  )
  | inl (others, missing) ↦ elim (Bool-cases (text_eq event.type type)) [
    | inl same ↦ inr (
      [],
      event,
      history,
      refl,
      (text_eq_iff event.type type).0 same,
      others,
      rw (since_latest, missing, same) refl,
    )
    | inr other ↦ inl (
      (λ same. ground (arith, (text_eq_iff event.type type).1 same), others),
      rw (since_latest, missing, other) refl,
    )
  ]
]

history-latest :
    (read_events : ReadEvents) (subject type : Text) (history : List StoredEvent)
    → IsHistory read_events subject history
    → read_subject read_events subject none
        (some (record { subject = subject; type = type; if_missing = read_everything }))
      ≡ arrive (latest_or_all type history)
history-latest read_events subject type history h = elim (since_latest-cases type history) [
  | inl (others, missing) ↦
      h.without_event type others ∙ ap arrive (sym (latest_or_all_missing type history missing))
  | inr (before, latest, after, split, is_type, others, found) ↦
      h.since_event type before latest after split is_type others
      ∙ ap arrive (sym (latest_or_all_found type history (latest ∷ after) found))
]

module _ (check : StoredEvent → Option Failure) where
  read_plain :
      (read_events : ReadEvents) (subject : Text)
      → is_empty subject ≡ false
      → read check read_events (record { subject = subject; recursive = false }) []
        ≡ some (read_from check (read_subject read_events subject none none))
  unfolding read require_subjects read_settings_of read_checked check_bounds
  read_plain read_events subject given = rw (read, require_subjects, given) refl

  Passes : StoredEvent → Type 0
  Passes event = check event ≡ none

  handed_out-Passes :
      (history : List StoredEvent)
      → read_from check (arrive history) ≡ handed_out history
      → All Passes history
  unfolding read_from Passes
  handed_out-Passes [] h = tt
  handed_out-Passes (event ∷ history) h = elim (Option-cases (check event)) [
    | inl passes ↦ (passes, handed_out-Passes history (ground arith))
    | inr (err, fails) ↦ absurd (ground arith)
  ]

  since_latest-Passes :
      (type : Text) (history latest : List StoredEvent)
      → All Passes history
      → since_latest type history ≡ some latest
      → All Passes latest
  unfolding since_latest
  since_latest-Passes type [] latest h found = absurd (ground arith)
  since_latest-Passes type (event ∷ history) latest h found =
      elim (Option-cases (since_latest type history)) [
        | inr (later, is_later) ↦ since_latest-Passes type history latest h.1 (ground arith)
        | inl last ↦ elim (Bool-cases (text_eq event.type type)) [
          | inl same ↦ let it_is : event ∷ history ≡ latest = ground arith in rw (← it_is) h
          | inr other ↦ absurd (ground arith)
        ]
      ]

module _ {ℓ} {S : Type ℓ} (check : StoredEvent → Option Failure) (s : State S) where
  fold_from-replay_from :
      (history : List StoredEvent) (current : S) (last : Text)
      → All (Passes check) history
      → state_of (fold_from check s (arrive history) current last) ≡ replay_from s current history
  unfolding fold_from replay_from Passes
  fold_from-replay_from [] current last h = refl
  fold_from-replay_from (event ∷ history) current last h =
      elim (Result-cases (evolve_by_stored s current event)) [
        | inr (err, fails) ↦ rw (fold_from, replay_from, h.0, fails) refl
        | inl (next, evolves) ↦
            rw (fold_from, replay_from, h.0, evolves)
              (fold_from-replay_from history next event.id h.1)
      ]

  latest_of-arrives :
      (read_events : ReadEvents) (subject : Text) (history : List StoredEvent)
      → IsHistory read_events subject history
      → read_subject read_events subject none (latest_of subject s none)
        ≡ arrive (replayed_events s.from_latest history)
  unfolding latest_of
  latest_of-arrives read_events subject history h = elim (Bool-cases (is_empty s.from_latest)) [
    | inl first ↦ rw (latest_of, first) h.all_events
    | inr latest ↦
        rw (latest_of, latest) (history-latest read_events subject s.from_latest history h)
  ]

  replayed_events-Passes :
      (history : List StoredEvent)
      → All (Passes check) history
      → All (Passes check) (replayed_events s.from_latest history)
  replayed_events-Passes history h = elim (Bool-cases (is_empty s.from_latest)) [
    | inl first ↦ rw first h
    | inr latest ↦ elim (Option-cases (since_latest s.from_latest history)) [
      | inl missing ↦
          subst (All (Passes check))
            (sym (rw latest (latest_or_all_missing s.from_latest history missing))) h
      | inr (later, found) ↦
          subst (All (Passes check))
            (sym (rw latest (latest_or_all_found s.from_latest history later found)))
            (since_latest-Passes check s.from_latest history later h found)
    ]
  ]

  replay_stored_events :
      (history : List StoredEvent)
      → (copy_of_initial s >>= λ current.
          replay_from s current (replayed_events s.from_latest history))
        ≡ replay_stored s history
  unfolding replay_stored
  replay_stored_events history = elim (Result-cases (copy_of_initial s)) [
    | inr (err, fails) ↦ rw (replay_stored, fails) refl
    | inl (current, copied) ↦ elim (Bool-cases (is_empty s.from_latest)) [
      | inl first ↦ rw (replay_stored, copied, first) refl
      | inr latest ↦ elim (Option-cases (since_latest s.from_latest history)) [
        | inl missing ↦
            rw (replay_stored, copied, latest, missing)
              (ap (replay_from s current) (latest_or_all_missing s.from_latest history missing))
        | inr (later, found) ↦
            rw (replay_stored, copied, latest, found)
              (ap (replay_from s current) (latest_or_all_found s.from_latest history later found))
      ]
    ]
  ]

  load_uncached-Passes :
      (read_events : ReadEvents) (subject : Text) (history : List StoredEvent)
      → IsHistory read_events subject history
      → All (Passes check) history
      → load_uncached check read_events s subject ≡ replay_stored s history
  unfolding load_uncached fold_uncached
  load_uncached-Passes read_events subject history h passes =
      elim (Result-cases (copy_of_initial s)) [
        | inr (err, fails) ↦
            rw (load_uncached, fold_uncached, ← replay_stored_events history, fails) refl
        | inl (current, copied) ↦
            rw
              (
                load_uncached,
                fold_uncached,
                ← replay_stored_events history,
                copied,
                latest_of-arrives read_events subject history h,
              )
              (fold_from-replay_from _ current [] (replayed_events-Passes history passes))
      ]

  exact_subject_is :
      (subject : Text) (subjects : Subjects)
      → exact_subject subject ≡ some subjects
      → (subjects ≡ record { subject = subject; recursive = false }) × (is_empty subject ≡ false)
  unfolding exact_subject subjects_of
  exact_subject_is [] subjects h = absurd (ground arith)
  exact_subject_is (c ∷ subject) subjects h = elim (Bool-cases (starts_with slash (c ∷ subject))) [
    | inl slashed ↦ (ground arith, refl)
    | inr other ↦ absurd (ground arith)
  ]

  -- Loading the state of a subject without a state cache returns what ReplayStored makes of the events that Read hands out
  -- for exactly that subject. Read has no options and meets no error, and the database returns the
  -- same events when it is asked again, from the latest of a type on where the state starts from one.
  pub load-replay_stored :
      (read_events : ReadEvents) (subject : Text) (subjects : Subjects) (history : List StoredEvent)
      → exact_subject subject ≡ some subjects
      → IsHistory read_events subject history
      → read check read_events subjects [] ≡ some (handed_out history)
      → load_uncached check read_events s subject ≡ replay_stored s history
  load-replay_stored read_events subject subjects history exact h reads =
      let (same_subjects, given) = exact_subject_is subject subjects exact in
      let plain = read_plain check read_events subject given in
      let same : read_from check (arrive history) ≡ handed_out history =
        ground (arith, plain, same_subjects, h.all_events) in
      load_uncached-Passes read_events subject history h (handed_out-Passes check history same)

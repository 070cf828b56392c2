-- ===== src/View/Waiting.antt =====
-- `Revision` and `WaitFor` of architecturekit/in_memory_view.go, beside `Seen`.
use architecturekit_golang.Base.{
  ◌≤◌, ◌⊎◌, ◌==◌, ◌≡◌, refl, inl, inr, Bool, true, false, Option, none, some, List, [], ◌∷◌, arith,
  Bool-cases, Eq, nat_eq, leb, if◌then◌else◌, All, Text, text_has_eq, Ordering,
}
use architecturekit_golang.Failure.{Failure, ok, fail}
use architecturekit_golang.Revision.{
  compare_revisions, reached, is_position, compare_revisions-reached, is_newer, advance,
  advance-max,
}
use architecturekit_golang.View.{View, seen}

-- What `WaitFor` waits for: a change of the view, with its revision after it, or the end of the
-- context.
pub data Wake : Type 0 where
  changed_to : Text → Wake
  context_done : Failure → Wake

-- Whether the first result of `CompareRevisions` is at least 0.
abbrev is_at_least : Ordering → Bool
is_at_least Ordering.lt = false
is_at_least _ = true

-- The loop of `WaitFor` over the current revision and what follows, where `none` waits on.
unfoldable pub wait_for : Text → Text → List Wake → Option (Option Failure)
unfolding compare_revisions
wait_for revision current [] = elim (compare_revisions current revision) [
  | fail err ↦ some (some err)
  | ok order ↦ if is_at_least order then some none else none
]
wait_for revision current (changed_to next ∷ wakes) =
    let rest = wait_for revision next wakes in
    elim (compare_revisions current revision) [
      | fail err ↦ some (some err)
      | ok order ↦ if is_at_least order then some none else rest
    ]
wait_for revision current (context_done err ∷ wakes) = elim (compare_revisions current revision) [
  | fail refusal ↦ some (some refusal)
  | ok order ↦ if is_at_least order then some none else some (some err)
]

abbrev pub IsPosition : Text → Type 0
IsPosition id = is_position id ≡ true

module _ {ℓ} {K I V : Type ℓ} ⦃e : Eq K⦄ ⦃ev : Eq V⦄ where
  -- The view after it has seen some events, and the wake-ups on the way: whoever waits does so for the
  -- channel that was the current one when the revision was read, and that one is closed once `changed`,
  -- which counts the channels, has moved on.
  abbrev pub seen_all : List Text → View K I V → View K I V
  seen_all [] v = v
  seen_all (event_id ∷ events) v = seen_all events (seen event_id v)

  abbrev pub changes : List Text → View K I V → List Wake
  changes [] v = []
  changes (event_id ∷ events) v =
      let rest = changes events (seen event_id v) in
      if (seen event_id v).changed == v.changed
      then rest
      else changed_to (seen event_id v).revision ∷ rest

  -- An event that moves the revision closes the channel, and any other one leaves the view alone.
  seen-changed :
      (event_id : Text) (v : View K I V)
      → (((seen event_id v).changed == v.changed) ≡ false) ⊎ (seen event_id v ≡ v)
  unfolding seen
  seen-changed event_id v = elim (Bool-cases (is_newer event_id v.revision)) [
    | inl newer ↦ inl (rw (seen, newer) (ground arith))
    | inr older ↦ inr (rw (seen, older) refl)
  ]

  seen_advances :
      (event_id : Text) (v : View K I V) → (seen event_id v).revision ≡ advance event_id v.revision
  unfolding seen advance
  seen_advances event_id v = elim (Bool-cases (is_newer event_id v.revision)) [
    | inl newer ↦ rw (seen, advance, newer) refl
    | inr older ↦ rw (seen, advance, older) refl
  ]

  seen-IsPosition :
      (event_id : Text) (v : View K I V)
      → IsPosition event_id
      → IsPosition v.revision
      → IsPosition (seen event_id v).revision
        × (reached v.revision ≤ reached (seen event_id v).revision)
  seen-IsPosition event_id v id_is revision_is =
      let (highest, position) = advance-max event_id v.revision revision_is id_is in
      ground (arith, seen_advances event_id v)

  seen_all-rises :
      (events : List Text) (v : View K I V)
      → All IsPosition events
      → IsPosition v.revision
      → reached v.revision ≤ reached (seen_all events v).revision
  seen_all-rises [] v all revision_is = omega arith
  seen_all-rises (event_id ∷ events) v all revision_is =
      let (position, rises) = seen-IsPosition event_id v all.0 revision_is in
      let rest = seen_all-rises events (seen event_id v) all.1 position in
      omega (arith, rises, rest)

  -- While a view sees events whose IDs are revisions, WaitFor has returned nil after them if the view
  -- has reached the given revision then, and waits on if it has not.
  pub wait_for-returns :
      (revision : Text) (events : List Text) (v : View K I V)
      → is_position revision ≡ true
      → All IsPosition events
      → IsPosition v.revision
      → wait_for revision v.revision (changes events v) ≡ (
          if leb (reached revision) (reached (seen_all events v).revision) then some none else none)
  unfolding wait_for
  wait_for-returns revision [] v h all revision_is =
      ground (arith, compare_revisions-reached v.revision revision)
  wait_for-returns revision (event_id ∷ events) v h all revision_is =
      let (position, rises) = seen-IsPosition event_id v all.0 revision_is in
      elim (seen-changed event_id v) [
        | inr same ↦
            let counts : (v.changed == v.changed) ≡ true = ground arith in
            rw (seen_all, same, counts) (wait_for-returns revision events v h all.1 revision_is)
        | inl moves ↦
            let rest = wait_for-returns revision events (seen event_id v) h all.1 position in
            let later = seen_all-rises events (seen event_id v) all.1 position in
            rw moves
              (ground (arith, compare_revisions-reached v.revision revision, rest, later, rises))
      ]

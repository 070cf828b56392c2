-- ===== src/Revision/Highest.antt =====
-- `RevisionOf` of architecturekit/revision.go.
use architecturekit_golang.Base.{
  ◌≤◌, ◌≡◌, refl, sym, ◌∙◌, ◌⊎◌, inl, inr, true, List, [], ◌∷◌, arith, nat_eq, All, Exists, Text,
  text_has_eq,
}
use architecturekit_golang.Stored.{StoredEvent}
use architecturekit_golang.Revision.Order.{
  reached, is_position, advance, advance-cases, advance-le, advance-is_position,
}

-- The loop of `RevisionOf`, from the highest ID so far.
unfoldable pub highest_from : Text → List StoredEvent → Text
unfolding advance
highest_from highest [] = highest
highest_from highest (event ∷ events) = highest_from (advance event.id highest) events

unfoldable pub revision_of : List StoredEvent → Text
unfolding highest_from
revision_of events = highest_from [] events

abbrev pub HasId : Text → StoredEvent → Type 0
HasId id event = event.id ≡ id

-- What the highest ID is, among the events and the one to start from.
abbrev IsHighest : Text → List StoredEvent → Text → Type 0
IsHighest start events highest =
    (is_position highest ≡ true)
    × (reached start ≤ reached highest)
    × All (λ e. reached e.id ≤ reached highest) events
    × ((highest ≡ start) ⊎ Exists (HasId highest) events)

IsHighest-cons :
    (start : Text) (event : StoredEvent) (events : List StoredEvent) (highest : Text)
    → is_position start ≡ true
    → IsHighest (advance event.id start) events highest
    → IsHighest start (event ∷ events) highest
IsHighest-cons start event events highest h (p, up, all, which) =
    let (first, rest) = advance-le event.id start h in
    (
      p,
      omega arith,
      (omega arith, all),
      elim which [
        | inl e ↦ elim (advance-cases event.id start) [
          | inl newer ↦ inr (inl (sym (e ∙ newer)))
          | inr older ↦ inl (e ∙ older)
        ]
        | inr x ↦ inr (inr x)
      ],
    )

highest_from-IsHighest :
    (highest : Text) (events : List StoredEvent)
    → is_position highest ≡ true
    → IsHighest highest events (highest_from highest events)
unfolding highest_from
highest_from-IsHighest highest [] h = (h, omega arith, tt, inl refl)
highest_from-IsHighest highest (event ∷ events) h =
    IsHighest-cons highest event events (highest_from (advance event.id highest) events) h (
      highest_from-IsHighest (advance event.id highest) events
        (advance-is_position event.id highest h))

-- RevisionOf is the highest event ID among written events: no event lies beyond it, and it is
-- empty or the ID of one of the events, so it is always a position that can be waited for.
pub revision_of_highest :
    (events : List StoredEvent)
    → (is_position (revision_of events) ≡ true)
      × All (λ e. reached e.id ≤ reached (revision_of events)) events
      × ((revision_of events ≡ []) ⊎ Exists (HasId (revision_of events)) events)
unfolding revision_of
revision_of_highest events =
    let (p, up, all, which) = highest_from-IsHighest [] events (unfold is_position in refl) in
    (p, all, which)

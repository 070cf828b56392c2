-- ===== src/Revision/Tracking.antt =====
-- `trackedProjection` of architecturekit/revision.go, and `Seen` of a view, which
-- architecturekit/in_memory_view.go implements.
use architecturekit_golang.Base.{
  ◌≤◌, ◌≡◌, refl, ◌≢◌, true, Option, none, some, List, [], ◌∷◌, arith, nat_eq, All, Text,
  text_has_eq,
}
use architecturekit_golang.Failure.{Failure}
use architecturekit_golang.Stored.{StoredEvent}
use architecturekit_golang.Revision.Order.{advance, advance-max, reached, is_position}

unfoldable pub see_all : Text → List Text → List Text
unfolding advance
see_all event_id [] = []
see_all event_id (revision ∷ sinks) = advance event_id revision ∷ see_all event_id sinks

-- The projection has failed, or the views record the event.
unfoldable pub finish_tracking {ℓ} :
    {W : Type ℓ} → Text → List Text → W × Option Failure → W × List Text × Option Failure
unfolding see_all
finish_tracking event_id sinks (w, some failure) = (w, sinks, some failure)
finish_tracking event_id sinks (w, none) = (w, see_all event_id sinks, none)

-- `Apply` of a tracked projection over a state W: the revisions of the views move only once the
-- projection has applied the event.
unfoldable pub tracked_apply {ℓ} :
    {W : Type ℓ}
    → (W → StoredEvent → W × Option Failure)
    → W
    → List Text
    → StoredEvent
    → W × List Text × Option Failure
unfolding finish_tracking
tracked_apply apply w sinks event = finish_tracking event.id sinks (apply w event)

abbrev HasReached : Text → Text → Type 0
HasReached event_id revision = reached event_id ≤ reached revision

see_all-HasReached :
    (event_id : Text) (sinks : List Text)
    → is_position event_id ≡ true
    → All (λ r. is_position r ≡ true) sinks
    → All (HasReached event_id) (see_all event_id sinks)
unfolding see_all
see_all-HasReached event_id [] h ps = tt
see_all-HasReached event_id (r ∷ sinks) h ps =
    (omega (arith, (advance-max event_id r ps.0 h).0), see_all-HasReached event_id sinks h ps.1)

-- What tracking leaves behind, for a result of the projection and of the tracked projection.
abbrev pub IsTracked {ℓ} :
    {W : Type ℓ} → Text → List Text → W × Option Failure → W × List Text × Option Failure → Type ℓ
IsTracked event_id sinks applied tracked =
    (tracked.0 ≡ applied.0)
    × (tracked.2 ≡ applied.1)
    × (applied.1 ≡ none → All (HasReached event_id) tracked.1)
    × (applied.1 ≢ none → tracked.1 ≡ sinks)

finish_tracking-IsTracked {ℓ} :
    {W : Type ℓ} (event_id : Text) (sinks : List Text) (applied : W × Option Failure)
    → is_position event_id ≡ true
    → All (λ r. is_position r ≡ true) sinks
    → IsTracked event_id sinks applied (finish_tracking event_id sinks applied)
unfolding finish_tracking
finish_tracking-IsTracked event_id sinks (w, none) h ps =
    (refl, refl, λ _. see_all-HasReached event_id sinks h ps, λ n. absurd (n refl))
finish_tracking-IsTracked event_id sinks (w, some f) h ps = (refl, refl, λ e. cc, λ _. refl)

-- A tracked projection does to its state and returns what the projection does. Once it has applied
-- an event, every view has reached it, also if the projection ignores the event; if it fails, no
-- view has moved.
pub tracked_apply-IsTracked {ℓ} :
    {W : Type ℓ} (apply : W → StoredEvent → W × Option Failure) (w : W) (sinks : List Text)
    (event : StoredEvent)
    → is_position event.id ≡ true
    → All (λ r. is_position r ≡ true) sinks
    → IsTracked event.id sinks (apply w event) (tracked_apply apply w sinks event)
unfolding tracked_apply
tracked_apply-IsTracked apply w sinks event h ps =
    finish_tracking-IsTracked event.id sinks (apply w event) h ps

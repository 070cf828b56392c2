-- ===== src/Revision/Written.antt =====
-- `WaitForWritten` of architecturekit/revision.go.
use architecturekit_golang.Base.{
  ℕ, zero, suc, ◌≡◌, refl, ◌↔◌, ◌⊎◌, inl, inr, Bool, true, All, All-map_implies, Exists, ◌≤◌, ◌&&◌,
  Option, none, some, List, [], ◌∷◌, arith, if◌then◌else◌, nat_eq, Text, text_has_eq,
}
use architecturekit_golang.Failure.{
  not_caught_up, deadline_exceeded, Failure, is, wrapping, wrapping_cause,
}
use architecturekit_golang.Stored.{StoredEvent}
use architecturekit_golang.Revision.Highest.{revision_of, revision_of_highest, HasId}
use architecturekit_golang.Revision.Order.{reached, is_position}

-- What a call ends with: a panic for a mistake in the code, or the error that it returns.
pub data Outcome : Type 0 where
  panics : Outcome
  returns : Option Failure → Outcome

-- What the call meets while it waits: what `WaitFor` of the view returns for a revision, the error
-- of the caller's context afterwards, and whether the context with the timeout has ended.
pub record Waiting : Type 0 where
  pub wait_for : Text → Option Failure
  pub ctx_err : Option Failure
  pub waiting_ended : Bool

-- The `switch` over the error of the view.
unfoldable pub waiting_verdict : Option Failure → Option Failure → Bool → Option Failure
waiting_verdict none ctx_err waiting_ended = none
waiting_verdict (some err) (some ctx_err) waiting_ended =
    some (wrapping_cause not_caught_up ctx_err)
waiting_verdict (some err) none waiting_ended =
    if waiting_ended && is deadline_exceeded err
    then some (wrapping not_caught_up)
    else some (wrapping_cause not_caught_up err)

-- A view that is nil is `none`, and a timeout is 0 if it is not positive.
unfoldable pub wait_for_written : Option Waiting → List StoredEvent → ℕ → Outcome
unfolding waiting_verdict
wait_for_written none written timeout = panics
wait_for_written (some w) written zero = panics
wait_for_written (some w) [] (suc timeout) = returns none
wait_for_written (some w) (event ∷ events) (suc timeout) =
    returns (waiting_verdict (w.wait_for (revision_of (event ∷ events))) w.ctx_err w.waiting_ended)

-- Every error of WaitForWritten wraps ErrNotCaughtUp.
pub wait_for_written-not_caught_up :
    (view : Option Waiting) (written : List StoredEvent) (timeout : ℕ) (err : Failure)
    → wait_for_written view written timeout ≡ returns (some err)
    → is not_caught_up err ≡ true
unfolding wait_for_written is
wait_for_written-not_caught_up none written timeout err h = ground arith
wait_for_written-not_caught_up (some w) written zero err h = ground arith
wait_for_written-not_caught_up (some w) [] (suc timeout) err h = ground arith
wait_for_written-not_caught_up (some w) (event ∷ events) (suc timeout) err h = ground arith

-- WaitForWritten returns nil exactly if no events were written or the view has reached the
-- revision of the events, for a view that is not nil and a timeout that is positive.
pub wait_for_written-returns_none :
    (w : Waiting) (written : List StoredEvent) (timeout : ℕ)
    → (wait_for_written (some w) written (suc timeout) ≡ returns none)
      ↔ ((written ≡ []) ⊎ (w.wait_for (revision_of written) ≡ none))
unfolding wait_for_written
wait_for_written-returns_none w [] timeout = (λ _. inl refl, λ _. refl)
wait_for_written-returns_none w (event ∷ events) timeout = (λ h. ground arith, λ h. ground arith)

Exists-All :
    (id revision : Text) (written : List StoredEvent)
    → Exists (HasId id) written
    → All (λ event. reached event.id ≤ reached revision) written
    → reached id ≤ reached revision
Exists-All id revision [] one all = absurd one
Exists-All id revision (event ∷ events) (inl same) all = rw (← same) all.0
Exists-All id revision (event ∷ events) (inr one) all = Exists-All id revision events one all.1

-- What the interface Revisioned says of WaitFor, for a view that is at a revision in the end: it
-- returns nil exactly for a revision that the view has reached.
abbrev pub WaitsFor : Text → Waiting → Type 0
WaitsFor revision w =
    (wanted : Text)
    → is_position wanted ≡ true
    → (w.wait_for wanted ≡ none) ↔ (reached wanted ≤ reached revision)

highest-le :
    (revision : Text) (written : List StoredEvent)
    → reached (revision_of written) ≤ reached revision
    → All (λ event. reached event.id ≤ reached revision) written
highest-le revision written h =
    let (position, beyond, which) = revision_of_highest written in
    All-map_implies (λ (event : StoredEvent). reached event.id ≤ reached (revision_of written)) _
      written (λ event le. omega (arith, le, h)) beyond

le-highest :
    (revision : Text) (written : List StoredEvent)
    → All (λ event. reached event.id ≤ reached revision) written
    → reached (revision_of written) ≤ reached revision
unfolding reached
le-highest revision written all =
    let (position, beyond, which) = revision_of_highest written in
    elim which [
      | inl empty ↦ rw empty (omega arith)
      | inr one ↦ Exists-All (revision_of written) revision written one all
    ]

-- WaitForWritten, for a view that is not nil and a timeout that is positive, returns nil exactly if
-- the view has reached every written event in the end, and every error that it returns for any view
-- and timeout wraps ErrNotCaughtUp. WaitFor of the view returns nil exactly for a revision that the
-- view has reached.
pub wait_for_written_exact :
    (w : Waiting) (revision : Text) (written : List StoredEvent) (timeout : ℕ)
    → WaitsFor revision w
    → ((wait_for_written (some w) written (suc timeout) ≡ returns none)
        ↔ All (λ event. reached event.id ≤ reached revision) written)
      × ((view : Option Waiting) (limit : ℕ) (err : Failure)
          → wait_for_written view written limit ≡ returns (some err)
          → is not_caught_up err ≡ true)
unfolding wait_for_written
wait_for_written_exact w revision [] timeout waits =
    ((λ h. tt, λ h. refl), λ view limit err h. wait_for_written-not_caught_up view [] limit err h)
wait_for_written_exact w revision (event ∷ events) timeout waits =
    let written = event ∷ events in
    let exact = wait_for_written-returns_none w written timeout in
    let contract = waits (revision_of written) (revision_of_highest written).0 in
    (
      (
        λ h. elim (exact.0 h) [
          | inl empty ↦ absurd (ground arith)
          | inr nil ↦ highest-le revision written (contract.0 nil)
        ],
        λ all. exact.1 (inr (contract.1 (le-highest revision written all))),
      ),
      λ view limit err h. wait_for_written-not_caught_up view written limit err h,
    )

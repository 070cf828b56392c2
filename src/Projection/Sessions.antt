-- ===== src/Projection/Sessions.antt =====
-- The last event ID that `drive` hands out, and the checkpoint that `catchUp` goes on from:
-- architecturekit/projection.go.
use architecturekit_golang.Base.{
  ℕ, ◌+◌, ◌≡◌, refl, ◌≢◌, inl, inr, Bool, true, false, Option, none, List, [], ◌∷◌, ◌++◌, arith,
  ltb, if◌then◌else◌, Bool-cases, Option-cases, nat_eq, All, Text, text_has_eq, is_empty,
}
use architecturekit_golang.Failure.{Failure}
use architecturekit_golang.Stored.{StoredEvent, Element, arrives, breaks}
use architecturekit_golang.Projection.Drive.{
  ProjectionWriter, Driven, drive, drive_from, drive_event, batch_event, apply_to, opened,
  finish_drive,
}
use architecturekit_golang.Projection.Folding.{events_of, folded}

-- The checkpoint after some events.
abbrev pub reached : Text → List StoredEvent → Text
reached from [] = from
reached from (event ∷ events) = reached event.id events

pub reached-folded {ℓ} :
    {D : Type ℓ} (step : D → StoredEvent → D) (from : D × Text) (events : List StoredEvent)
    → (folded step from events).1 ≡ reached from.1 events
reached-folded step from [] = refl
reached-folded step from (event ∷ events) = reached-folded step (step from.0 event, event.id) events

pub reached-append :
    (from : Text) (xs ys : List StoredEvent)
    → reached from (xs ++ ys) ≡ reached (reached from xs) ys
reached-append from [] ys = refl
reached-append from (x ∷ xs) ys = reached-append x.id xs ys

pub reached-none :
    (events : List StoredEvent)
    → All (λ e. e.id ≢ []) events
    → (from : Text) → from ≢ []
    → reached from events ≢ []
reached-none [] all from h = h
reached-none (event ∷ events) all from h = reached-none events all.1 event.id all.0

unless_empty : (s from : Text) → s ≢ [] → (if is_empty s then from else s) ≡ s
unless_empty [] from h = absurd (h refl)
unless_empty (c ∷ s) from h = refl

-- What `lastEventID` is once catching up has fallen back to the checkpoint.
pub reached-or_checkpoint :
    (from : Text) (events : List StoredEvent)
    → All (λ e. e.id ≢ []) events
    → (if is_empty (reached [] events) then from else reached [] events) ≡ reached from events
reached-or_checkpoint from [] all = refl
reached-or_checkpoint from (event ∷ events) all =
    unless_empty _ from (reached-none events all.1 event.id all.0)

module _ {ℓ} {W : Type ℓ} where
  -- Without an error, the last event ID is that of the last event.
  abbrev pub EndsAt : Text → Driven W → Type 0
  EndsAt id driven = driven.failure ≡ none → driven.last_event_id ≡ id

  batch_event-EndsAt :
      (writer : ProjectionWriter W) (size : ℕ) (rest : Option Text → Text → ℕ → Bool → W → Driven W)
      (event : StoredEvent) (reported : Option Text) (last : Text) (in_batch : ℕ) (w : W)
      (id : Text)
      → ((reported' : Option Text) (n : ℕ) (o : Bool) (w' : W)
          → EndsAt id (rest reported' event.id n o w'))
      → EndsAt id (batch_event writer size rest event reported last in_batch w)
  unfolding batch_event
  batch_event-EndsAt writer size rest event reported last in_batch w id h =
      let tried = apply_to writer w event in
      let committed = writer.commit tried.0 event.id in
      elim (Option-cases tried.1) [
        | inr (err, refused) ↦ rw (batch_event, refused) (λ none_failed. ground arith)
        | inl applied ↦ elim (Bool-cases (ltb (in_batch + 1) size)) [
          | inl waits ↦ rw (batch_event, applied, waits) (h _ _ _ _)
          | inr full ↦ elim (Option-cases committed.1) [
            | inr (err, refused) ↦
                rw (batch_event, applied, full, refused) (λ none_failed. ground arith)
            | inl commits ↦ rw (batch_event, applied, full, commits) (h _ _ _ _)
          ]
        ]
      ]

  drive_event-EndsAt :
      (writer : ProjectionWriter W) (verify : StoredEvent → Option Failure) (size : ℕ)
      (rest : Option Text → Text → ℕ → Bool → W → Driven W) (event : StoredEvent)
      (reported : Option Text) (last : Text) (in_batch : ℕ) (is_open : Bool) (w : W) (id : Text)
      → ((reported' : Option Text) (n : ℕ) (o : Bool) (w' : W)
          → EndsAt id (rest reported' event.id n o w'))
      → EndsAt id (drive_event writer verify size rest event reported last in_batch is_open w)
  unfolding drive_event batch_event
  drive_event-EndsAt writer verify size rest event reported last in_batch is_open w id h =
      elim (Option-cases (verify event)) [
        | inr (err, refused) ↦ rw (drive_event, refused) (λ none_failed. ground arith)
        | inl genuine ↦ elim (Option-cases (opened writer is_open w).1) [
          | inr (err, not_begun) ↦
              rw (drive_event, genuine, not_begun) (λ none_failed. ground arith)
          | inl begun ↦
              rw (drive_event, genuine, begun)
                (batch_event-EndsAt writer size rest event reported last in_batch _ id h)
        ]
      ]

  drive_from-EndsAt :
      (writer : ProjectionWriter W) (verify : StoredEvent → Option Failure) (size : ℕ)
      (ctx_err : Option Failure) (elements : List Element) (reported : Option Text) (last : Text)
      (in_batch : ℕ) (is_open : Bool) (w : W)
      → EndsAt
          (reached last (events_of elements))
          (drive_from writer verify size ctx_err elements reported last in_batch is_open w)
  unfolding drive_from finish_drive
  drive_from-EndsAt writer verify size ctx_err [] reported last in_batch false w = λ h. refl
  drive_from-EndsAt writer verify size ctx_err [] reported last in_batch true w =
      elim (Option-cases (writer.commit w last).1) [
        | inr (err, refused) ↦ rw (drive_from, finish_drive, refused) (λ none_failed. ground arith)
        | inl commits ↦ rw (drive_from, finish_drive, commits) (λ none_failed. refl)
      ]
  drive_from-EndsAt writer verify size ctx_err (breaks err ctx_then ∷ elements) reported last
        in_batch is_open w =
      λ h. ground arith
  drive_from-EndsAt writer verify size ctx_err (arrives event ∷ elements) reported last in_batch
        is_open w =
      drive_event-EndsAt writer verify size (drive_from writer verify size ctx_err elements) event
        reported last in_batch is_open w _
        (λ r n o w'. drive_from-EndsAt writer verify size ctx_err elements r event.id n o w')

  pub drive-EndsAt :
      (writer : ProjectionWriter W) (verify : StoredEvent → Option Failure) (size : ℕ)
      (ctx_err : Option Failure) (elements : List Element) (w : W)
      → EndsAt (reached [] (events_of elements)) (drive writer verify size ctx_err elements w)
  unfolding drive
  drive-EndsAt writer verify size ctx_err elements w =
      drive_from-EndsAt writer verify size ctx_err elements none [] 0 false w

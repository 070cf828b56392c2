-- ===== src/Projection/Reliable.antt =====
-- How `drive` of architecturekit/projection.go ends if nothing of the application fails.
use architecturekit_golang.Base.{
  ℕ, ◌+◌, ◌≡◌, refl, ap, ◌∙◌, inl, inr, Bool, true, false, Option, none, some, List, [], ◌∷◌, arith,
  ltb, if◌then◌else◌, Bool-cases, nat_eq, Text, text_has_eq,
}
use architecturekit_golang.Failure.{Failure, ok}
use architecturekit_golang.Stored.{StoredEvent, Element, arrives, breaks}
use architecturekit_golang.Projection.Drive.{
  Driven, succeeded, checkpoint_at, drive, drive_from, drive_event, batch_event, apply_to, opened,
  finish_drive, rolled_back, ends_with,
}
use architecturekit_golang.Projection.Transactions.{
  TransactionalTarget, TransactionalWriter, writes, transactional_writer, tx_begin, tx_apply,
  tx_commit, IsAtomic,
}
use architecturekit_golang.Projection.Folding.{events_of, folded}

-- An application whose functions never fail, for events that are genuine.
pub record IsReliable {ℓ} {S T : Type ℓ} (target : TransactionalTarget S T)
    (verify : StoredEvent → Option Failure) : Type ℓ where
  pub verifies : (event : StoredEvent) → verify event ≡ none
  pub finds : (s : S) → (id : Text) × ((target.checkpoint s).1 ≡ checkpoint_at id)
  pub begins : (s : S) → (t : T) × ((target.begin s).1 ≡ ok t)
  pub applies : (t : T) (event : StoredEvent) → (target.apply t event).1 ≡ succeeded
  pub commits : (s : S) (t : T) (id : Text) → (target.commit s t id).1 ≡ none

-- A stream that does not break off.
abbrev pub IsWhole : List Element → Type 0
IsWhole [] = Unit
IsWhole (arrives event ∷ elements) = IsWhole elements
IsWhole (breaks err ctx_err ∷ elements) = ⊥

module _ {ℓ} {S T D : Type ℓ} (target : TransactionalTarget S T) (durable : S → D × Text)
    (content : T → D) (step : D → StoredEvent → D) (atomic : IsAtomic target durable content step)
    (verify : StoredEvent → Option Failure) (reliable : IsReliable target verify) where
  -- There is a transaction if a batch is open.
  abbrev HasTx : Bool → TransactionalWriter S T → Type ℓ
  HasTx true w = (t : T) × (w.tx ≡ some t)
  HasTx false w = Unit

  -- A batch is open, with the transaction that it is applied to.
  opened-HasTx :
      (is_open : Bool) (w : TransactionalWriter S T)
      → HasTx is_open w
      → (t : T) × (s : S) × (opened (transactional_writer target) is_open w
          ≡ (writes s (some t), none))
        × (is_open ≡ false → (durable s ≡ durable w.durable) × (content t ≡ (durable w.durable).0))
  unfolding opened transactional_writer tx_begin
  opened-HasTx true w (t, has_tx) = (t, w.durable, rw (← has_tx) refl, λ p. absurd (ground arith))
  opened-HasTx false w h =
      let (t, begins) = reliable.begins w.durable in
      (
        t,
        (target.begin w.durable).0,
        rw (tx_begin, begins) refl,
        λ p. (atomic.begin_keeps w.durable, atomic.begins_from w.durable t begins),
      )

  -- The world of the loop after an event.
  abbrev Rest : Type ℓ
  Rest = Option Text → Text → ℕ → Bool → TransactionalWriter S T → Driven (TransactionalWriter S T)

  -- What a round of the loop goes on with if nothing fails.
  abbrev goes_on :
      ℕ → Rest → StoredEvent → Option Text → ℕ → S → T → Driven (TransactionalWriter S T)
  goes_on size rest event reported in_batch s t =
      if ltb (in_batch + 1) size
      then rest reported event.id (in_batch + 1) true (writes s (some (target.apply t event).0))
      else rest (some event.id) event.id 0 false
          (writes (target.commit s (target.apply t event).0 event.id).0 none)

  batch_event-reliable :
      (size : ℕ) (rest : Rest) (event : StoredEvent) (reported : Option Text) (last : Text)
      (in_batch : ℕ) (s : S) (t : T)
      → batch_event
          (transactional_writer target)
          size
          rest
          event
          reported
          last
          in_batch
          (writes s (some t))
        ≡ goes_on size rest event reported in_batch s t
  unfolding batch_event apply_to transactional_writer tx_apply tx_commit
  batch_event-reliable size rest event reported last in_batch s t =
      rw
        (
          batch_event,
          apply_to,
          reliable.applies t event,
          reliable.commits s (target.apply t event).0 event.id,
        )
        refl

  -- An event is applied, and either waits in the batch or is committed.
  drive_event-reliable :
      (size : ℕ) (rest : Rest) (event : StoredEvent) (reported : Option Text) (last : Text)
      (in_batch : ℕ) (is_open : Bool) (w : TransactionalWriter S T)
      → HasTx is_open w
      → (s : S) × (t : T) × (drive_event
            (transactional_writer target)
            verify
            size
            rest
            event
            reported
            last
            in_batch
            is_open
            w
          ≡ goes_on size rest event reported in_batch s t)
        × (is_open ≡ false
            → durable (target.commit s (target.apply t event).0 event.id).0
              ≡ (step (durable w.durable).0 event, event.id))
  unfolding drive_event
  drive_event-reliable size rest event reported last in_batch is_open w h =
      let (t, s, begun, from) = opened-HasTx is_open w h in
      (
        s,
        t,
        rw (drive_event, reliable.verifies event)
              (ap
                (λ (p : TransactionalWriter S T × Option Failure). elim p.1 [
                  | some err ↦ ends_with reported last (p.0, err)
                  | none ↦
                      batch_event (transactional_writer target) size rest event reported last
                        in_batch p.0
                ])
                begun)
            ∙ batch_event-reliable size rest event reported last in_batch s t,
        λ p.
            let (kept, starts) = from p in
            atomic.commits s (target.apply t event).0 event.id
              (reliable.commits s (target.apply t event).0 event.id)
            ∙ ap (λ d. (d, event.id))
                (atomic.applies t event (reliable.applies t event) ∙ ap (λ d. step d event) starts),
      )

  -- A stream that does not break off is driven to its end without an error.
  drive_from-whole :
      (size : ℕ) (elements : List Element) (reported : Option Text) (last : Text) (in_batch : ℕ)
      (is_open : Bool) (w : TransactionalWriter S T)
      → IsWhole elements
      → HasTx is_open w
      → (drive_from
          (transactional_writer target)
          verify
          size
          none
          elements
          reported
          last
          in_batch
          is_open
          w).failure
        ≡ none
  unfolding drive_from finish_drive transactional_writer tx_commit
  drive_from-whole size [] reported last in_batch false w whole h = refl
  drive_from-whole size [] reported last in_batch true w whole (t, has_tx) =
      rw (drive_from, finish_drive, has_tx, reliable.commits w.durable t last) refl
  drive_from-whole size (breaks err ctx_err ∷ elements) reported last in_batch is_open w whole h =
      absurd whole
  drive_from-whole size (arrives event ∷ elements) reported last in_batch is_open w whole h =
      let rest = drive_from (transactional_writer target) verify size none elements in
      let (s, t, e, commits) =
        drive_event-reliable size rest event reported last in_batch is_open w h in
      ap (λ (driven : Driven (TransactionalWriter S T)). driven.failure) e
      ∙ (elim (Bool-cases (ltb (in_batch + 1) size)) [
        | inl waits ↦ rw waits (
            drive_from-whole size elements reported event.id (in_batch + 1) true
              (writes s (some (target.apply t event).0)) whole ((target.apply t event).0, refl))
        | inr full ↦ rw full (
            drive_from-whole size elements (some event.id) event.id 0 false
              (writes (target.commit s (target.apply t event).0 event.id).0 none) whole tt)
      ])

  -- One event after the other, all events of a stream are durable, even if it breaks off then.
  drive_from-singly :
      (ctx_err : Option Failure) (elements : List Element) (reported : Option Text) (last : Text)
      (w : TransactionalWriter S T)
      → durable
          (drive_from
            (transactional_writer target)
            verify
            1
            ctx_err
            elements
            reported
            last
            0
            false
            w).target.durable
        ≡ folded step (durable w.durable) (events_of elements)
  unfolding drive_from finish_drive rolled_back
  drive_from-singly ctx_err [] reported last w = refl
  drive_from-singly ctx_err (breaks err ctx_then ∷ elements) reported last w = refl
  drive_from-singly ctx_err (arrives event ∷ elements) reported last w =
      let rest = drive_from (transactional_writer target) verify 1 ctx_err elements in
      let (s, t, e, commits) = drive_event-reliable 1 rest event reported last 0 false w tt in
      ap (λ (driven : Driven (TransactionalWriter S T)). durable driven.target.durable) e
      ∙ (drive_from-singly ctx_err elements (some event.id) event.id
            (writes (target.commit s (target.apply t event).0 event.id).0 none)
          ∙ ap (λ from. folded step from (events_of elements)) (commits refl))

  pub drive-whole :
      (size : ℕ) (elements : List Element) (w : TransactionalWriter S T)
      → IsWhole elements
      → (drive (transactional_writer target) verify size none elements w).failure ≡ none
  unfolding drive
  drive-whole size elements w whole = drive_from-whole size elements none [] 0 false w whole tt

  pub drive-singly :
      (ctx_err : Option Failure) (elements : List Element) (w : TransactionalWriter S T)
      → durable (drive (transactional_writer target) verify 1 ctx_err elements w).target.durable
        ≡ folded step (durable w.durable) (events_of elements)
  unfolding drive
  drive-singly ctx_err elements w = drive_from-singly ctx_err elements none [] w

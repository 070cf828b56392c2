-- ===== src/Projection/Batches.antt =====
-- A batch of events in `drive`, from `applyTo` on, with a `transactionalWriter`:
-- architecturekit/projection.go.
use architecturekit_golang.Base.{
  ℕ, ◌+◌, ◌≡◌, refl, sym, ap, ◌∙◌, ◌⊎◌, inl, inr, Bool, true, false, Option, none, some, List, [],
  ◌∷◌, ◌++◌, arith, ltb, Bool-cases, Option-cases, nat_eq, append_assoc, Text, text_has_eq,
}
use architecturekit_golang.Failure.{Failure, apply_failure, panic_error}
use architecturekit_golang.Stored.{StoredEvent}
use architecturekit_golang.Projection.Drive.{
  named_failure, Ended, succeeded, failed, panicked, Driven, apply_to, rolled_back, ends_with,
  batch_event,
}
use architecturekit_golang.Projection.Transactions.{
  TransactionalTarget, TransactionalWriter, tx_apply, tx_commit, tx_rollback, transactional_writer,
  IsAtomic, after_rollback, writes,
}
use architecturekit_golang.Projection.Folding.{folded, folded-append, IsInStep, none_applied}

module _ {ℓ} {S T D : Type ℓ} (target : TransactionalTarget S T) (durable : S → D × Text)
    (content : T → D) (step : D → StoredEvent → D)
    (atomic : IsAtomic target durable content step) where
  after_rollback-durable : (t : T) (r : S × Ended) → (after_rollback t r).0.durable ≡ r.0
  after_rollback-durable t (s, succeeded) = refl
  after_rollback-durable t (s, failed err) = refl
  after_rollback-durable t (s, panicked value) = refl

  -- A rollback makes nothing durable.
  pub durable-rolled_back :
      (is_open : Bool) (w : TransactionalWriter S T) (err : Failure)
      → durable (rolled_back (transactional_writer target) is_open w err).0.durable
        ≡ durable w.durable
  unfolding rolled_back transactional_writer tx_rollback
  durable-rolled_back false w err = refl
  durable-rolled_back true w err = elim (Option-cases w.tx) [
    | inl no_tx ↦ rw no_tx refl
    | inr (t, tx) ↦ rw tx (
        ap durable (after_rollback-durable t (target.rollback w.durable t))
        ∙ atomic.rollback_keeps w.durable t)
  ]

  -- A transaction is open that is ahead of what is durable by the pending events.
  pub record IsBatch (from : D × Text) (pending : List StoredEvent) (w : TransactionalWriter S T)
      : Type ℓ where
    pub tx : T
    pub is_tx : w.tx ≡ some tx
    pub ahead : content tx ≡ (folded step from pending).0
    pub behind : durable w.durable ≡ from

  applied_batch :
      (from : D × Text) (pending : List StoredEvent) (w : TransactionalWriter S T)
      (event : StoredEvent) (t : T)
      → content t ≡ (folded step from pending).0
      → durable w.durable ≡ from
      → (target.apply t event).1 ≡ succeeded
      → IsBatch from (pending ++ event ∷ []) (writes w.durable (some (target.apply t event).0))
  applied_batch from pending w event t ahead behind done = record {
    tx = (target.apply t event).0;
    is_tx = refl;
    ahead =
        atomic.applies t event done
        ∙ ap (λ d. step d event) ahead
        ∙ sym (ap (λ x. x.0) (folded-append step from pending (event ∷ [])));
    behind = behind;
  }

  -- After a commit, the durable state is the transaction's, and the others follow.
  committed_then :
      (from : D × Text) (pending events : List StoredEvent) (event : StoredEvent)
      (w w' : TransactionalWriter S T) (driven : Driven (TransactionalWriter S T))
      → (b : IsBatch from (pending ++ event ∷ []) w) → durable w'.durable ≡ (content b.tx, event.id)
      → IsInStep durable step (durable w'.durable) events driven
      → IsInStep durable step from ((pending ++ event ∷ []) ++ events) driven
  committed_then from pending events event w w' driven b now h =
      let last_is : (folded step from (pending ++ event ∷ [])).1 ≡ event.id =
        ap (λ x. x.1) (folded-append step from pending (event ∷ [])) in
      let now_is : durable w'.durable ≡ folded step from (pending ++ event ∷ []) =
        now ∙ ground (arith, b.ahead) in
      record {
        applied = (pending ++ event ∷ []) ++ h.applied;
        left = h.left;
        in_order =
            append_assoc (pending ++ event ∷ []) h.applied h.left
            ∙ ap (λ x. (pending ++ event ∷ []) ++ x) h.in_order;
        in_step =
            h.in_step
            ∙ ap (λ x. folded step x h.applied) now_is
            ∙ sym (folded-append step from (pending ++ event ∷ []) h.applied);
        complete = h.complete;
      }

  pub by_code :
      {from : D × Text} {events : List StoredEvent} {code : Driven (TransactionalWriter S T)}
      (driven : Driven (TransactionalWriter S T))
      → code ≡ driven
      → IsInStep durable step from events driven
      → IsInStep durable step from events code
  by_code driven p h = rw p h

  ended_cases :
      (x : Ended)
      → (x ≡ succeeded)
        ⊎ ((err : Text → Failure) × ((id : Text) → named_failure id x ≡ some (err id)))
  ended_cases succeeded = inl refl
  ended_cases (failed err) = inr (λ id. apply_failure id err, λ id. refl)
  ended_cases (panicked value) = inr (λ id. apply_failure id (panic_error value), λ id. refl)

  pub batch_event-IsInStep :
      (batch_size : ℕ)
      (rest : Option Text
        → Text
        → ℕ
        → Bool
        → TransactionalWriter S T
        → Driven (TransactionalWriter S T))
      (from : D × Text) (pending events : List StoredEvent) (event : StoredEvent)
      (reported : Option Text) (last : Text) (in_batch : ℕ) (w : TransactionalWriter S T)
      → IsBatch from pending w
      → ((w' : TransactionalWriter S T)
          → IsBatch from (pending ++ event ∷ []) w'
          → IsInStep durable step from
              ((pending ++ event ∷ []) ++ events)
              (rest reported event.id (in_batch + 1) true w'))
      → ((w' : TransactionalWriter S T)
          → IsInStep durable step
              (durable w'.durable)
              events
              (rest (some event.id) event.id 0 false w'))
      → IsInStep durable step from
          ((pending ++ event ∷ []) ++ events)
          (batch_event (transactional_writer target) batch_size rest event reported last in_batch w)
  unfolding batch_event transactional_writer tx_apply tx_commit apply_to applied_batch
  batch_event-IsInStep batch_size rest from pending events event reported last in_batch w b goes_on
        closes =
      let t' = (target.apply b.tx event).0 in
      let w' = writes w.durable (some t') in
      let code =
        batch_event (transactional_writer target) batch_size rest event reported last in_batch w in
      let has_tx = b.is_tx in
      let all = (pending ++ event ∷ []) ++ events in
      elim (ended_cases (target.apply b.tx event).1) [
        | inr (err, names) ↦
            by_code
              (ends_with reported last
                (rolled_back (transactional_writer target) true w' (err event.id)))
              (ground (arith, names event.id))
              (none_applied durable step from all _ _
                (durable-rolled_back true w' (err event.id) ∙ b.behind) refl)
        | inl done ↦
            let b' = applied_batch from pending w event b.tx b.ahead b.behind done in
            elim (Bool-cases (ltb (in_batch + 1) batch_size)) [
              | inl more ↦
                  by_code (rest reported event.id (in_batch + 1) true w') (ground arith)
                    (goes_on w' b')
              | inr full ↦ elim (Option-cases (target.commit w.durable t' event.id).1) [
                | inr (err, refused) ↦
                    by_code
                      (ends_with reported event.id
                        (writes (target.commit w.durable t' event.id).0 none, err))
                      (ground arith)
                      (none_applied durable step from all _ err
                        (atomic.commit_refused w.durable t' event.id err refused ∙ b.behind) refl)
                | inl commits ↦
                    let w'' = writes (target.commit w.durable t' event.id).0 none in
                    by_code (rest (some event.id) event.id 0 false w'') (ground arith) (
                      committed_then from pending events event w' w'' _ b'
                        (atomic.commits w.durable t' event.id commits) (closes w''))
              ]
            ]
      ]

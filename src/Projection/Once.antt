-- ===== src/Projection/Once.antt =====
-- Data and checkpoint of a transactional projection over all sessions of a run: `run` with a
-- `transactionalWriter` of architecturekit/projection.go.
use architecturekit_golang.Base.{
  ℕ, ◌≡◌, refl, sym, ap, ◌∙◌, subst, ◌≢◌, inl, inr, Option, none, List, [], ◌∷◌, ◌++◌, arith,
  Option-cases, nat_eq, All, append_assoc, append_nil, Text, text_has_eq,
}
use architecturekit_golang.Failure.{Failure}
use architecturekit_golang.ReadOptions.{Bound}
use architecturekit_golang.Store.{bound_after}
use architecturekit_golang.Stored.{StoredEvent, Element}
use architecturekit_golang.Projection.Status.{ProjectionRun}
use architecturekit_golang.Projection.Drive.{
  CheckpointRead, checkpoint_at, checkpoint_fails, checkpoint_panics, Driven, drive,
}
use architecturekit_golang.Projection.Transactions.{
  TransactionalTarget, TransactionalWriter, transactional_writer, tx_checkpoint, IsAtomic,
}
use architecturekit_golang.Projection.Folding.{events_of, folded, folded-append}
use architecturekit_golang.Projection.InStep.{drive-IsInStep}
use architecturekit_golang.Projection.Kept.{after_session_kept}
use architecturekit_golang.Projection.Running.{
  Stream, Session, ReconnectSettings, checkpoint_text, checkpoint_panic, catch_up, catch_up_from,
  follow, run_session, run_from, run, or_checkpoint, goes_on_after,
}
use architecturekit_golang.Projection.Sessions.{
  reached, reached-folded, reached-append, reached-or_checkpoint, EndsAt, drive-EndsAt,
}

-- Whatever events come after a checkpoint, the database answers a bound after it with the first of
-- them.
abbrev pub Serves : List StoredEvent → (Option Bound → Stream) → Type 0
Serves log respond =
    (before after : List StoredEvent)
    → before ++ after ≡ log
    → (more : List StoredEvent) × (events_of (respond (bound_after (reached [] before))).elements
          ++ more
        ≡ after)

-- Both ways of reading in a session answer like this.
abbrev pub IsServed : List StoredEvent → Session → Type 0
IsServed log session = Serves log session.read × Serves log session.observe

module _ {ℓ} {A : Type ℓ} (P : A → Type 0) where
  All-right : (xs ys : List A) → All P (xs ++ ys) → All P ys
  All-right [] ys all = all
  All-right (x ∷ xs) ys all = All-right xs ys all.1

  All-left : (xs ys : List A) → All P (xs ++ ys) → All P xs
  All-left [] ys all = tt
  All-left (x ∷ xs) ys all = (all.0, All-left xs ys all.1)

All-suffix {ℓ} :
    {A : Type ℓ} (P : A → Type 0) (xs ys zs : List A) → xs ++ ys ≡ zs → All P zs → All P ys
All-suffix P xs ys zs e all = All-right P xs ys (subst (All P) (sym e) all)

pub All-prefix {ℓ} :
    {A : Type ℓ} (P : A → Type 0) (xs ys zs : List A) → xs ++ ys ≡ zs → All P zs → All P xs
All-prefix P xs ys zs e all = All-left P xs ys (subst (All P) (sym e) all)

module _ {ℓ} {S T D : Type ℓ} (target : TransactionalTarget S T) (durable : S → D × Text)
    (content : T → D) (step : D → StoredEvent → D) (atomic : IsAtomic target durable content step)
    (log : List StoredEvent) (identified : All (λ event. event.id ≢ []) log) (empty : D) where
  -- The durable data and checkpoint are those after the first events of the log.
  pub record IsUpTo (w : TransactionalWriter S T) : Type ℓ where
    pub applied : List StoredEvent
    pub left : List StoredEvent
    pub in_order : applied ++ left ≡ log
    pub in_step : durable w.durable ≡ folded step (empty, []) applied

  same_durable :
      (w w' : TransactionalWriter S T)
      → durable w'.durable ≡ durable w.durable
      → IsUpTo w
      → IsUpTo w'
  same_durable w w' same up = record {
    applied = up.applied;
    left = up.left;
    in_order = up.in_order;
    in_step = same ∙ up.in_step;
  }

  pub checkpoint-IsUpTo :
      (w : TransactionalWriter S T) → IsUpTo w → IsUpTo (tx_checkpoint target w).0
  unfolding tx_checkpoint
  checkpoint-IsUpTo w up = same_durable w _ (atomic.checkpoint_keeps w.durable) up

  -- Driving goes on in the log, to the end of what the stream hands out if there is no error.
  record GoesOn (from : List StoredEvent) (elements : List Element)
      (driven : Driven (TransactionalWriter S T)) : Type ℓ where
    up_to : IsUpTo driven.target
    all_of_it : driven.failure ≡ none → up_to.applied ≡ from ++ events_of elements

  drive-GoesOn :
      (verify : StoredEvent → Option Failure) (size : ℕ) (ctx_err : Option Failure)
      (elements : List Element) (more : List StoredEvent) (w : TransactionalWriter S T)
      (up : IsUpTo w)
      → events_of elements ++ more ≡ up.left
      → GoesOn up.applied elements
          (drive (transactional_writer target) verify size ctx_err elements w)
  drive-GoesOn verify size ctx_err elements more w up e =
      let d = drive-IsInStep target durable content step atomic verify size ctx_err elements w in
      record {
        up_to = record {
          applied = up.applied ++ d.applied;
          left = d.left ++ more;
          in_order =
              append_assoc up.applied d.applied (d.left ++ more)
              ∙ (ap (λ xs. up.applied ++ xs)
                    (sym (append_assoc d.applied d.left more)
                      ∙ (ap (λ xs. xs ++ more) d.in_order ∙ e))
                  ∙ up.in_order);
          in_step =
              d.in_step
              ∙ (ap (λ s. folded step s d.applied) up.in_step
                  ∙ sym (folded-append step (empty, []) up.applied d.applied));
        };
        all_of_it = λ h.
            let all : d.applied ≡ events_of elements =
              sym (append_nil d.applied)
              ∙ (ap (λ xs. d.applied ++ xs) (sym (d.complete h)) ∙ d.in_order) in
            ap (λ xs. up.applied ++ xs) all;
      }

  -- Catching up goes on in the log, and reports the ID of the event it has come to.
  pub record CatchesUp (driven : Driven (TransactionalWriter S T)) : Type ℓ where
    pub up_to : IsUpTo driven.target
    pub arrived : driven.failure ≡ none → driven.last_event_id ≡ reached [] up_to.applied

  or_checkpoint-CatchesUp :
      (from : List StoredEvent) (elements : List Element)
      (driven : Driven (TransactionalWriter S T))
      → All (λ event. event.id ≢ []) (events_of elements)
      → EndsAt (reached [] (events_of elements)) driven
      → GoesOn from elements driven
      → CatchesUp (or_checkpoint (reached [] from) driven)
  or_checkpoint-CatchesUp from elements driven named ends goes = record {
    up_to = goes.up_to;
    arrived = λ h.
        ap (λ f. goes_on_after f (reached [] from) driven.last_event_id) h
        ∙ (ap (λ last. goes_on_after none (reached [] from) last) (ends h)
            ∙ (reached-or_checkpoint (reached [] from) (events_of elements) named
                ∙ (sym (reached-append [] from (events_of elements))
                    ∙ ap (reached []) (sym (goes.all_of_it h)))));
  }

  catch_up_from-CatchesUp :
      (verify : StoredEvent → Option Failure) (size : ℕ) (read : Option Bound → Stream)
      (w : TransactionalWriter S T) (found : CheckpointRead)
      → Serves log read
      → (up : IsUpTo w) → ((id : Text) → found ≡ checkpoint_at id → id ≡ reached [] up.applied)
      → CatchesUp (catch_up_from (transactional_writer target) verify size read w found)
  catch_up_from-CatchesUp verify size read w (checkpoint_fails id err) serves up at = record {
    up_to = up;
    arrived = λ h. ground arith;
  }
  catch_up_from-CatchesUp verify size read w (checkpoint_panics value) serves up at = record {
    up_to = up;
    arrived = λ h. ground arith;
  }
  catch_up_from-CatchesUp verify size read w (checkpoint_at id) serves up at =
      let same = at id refl in
      let (more, e) = serves up.applied up.left up.in_order in
      let stream = read (bound_after (reached [] up.applied)) in
      let events = events_of stream.elements in
      let named =
        All-prefix _ events more up.left e
          (All-suffix _ up.applied up.left log up.in_order identified) in
      subst
        (λ c.
          CatchesUp
            (catch_up_from (transactional_writer target) verify size read w (checkpoint_at c)))
        (sym same)
        (or_checkpoint-CatchesUp up.applied stream.elements _ named
          (drive-EndsAt (transactional_writer target) verify size stream.ctx_err stream.elements w)
          (drive-GoesOn verify size stream.ctx_err stream.elements more w up e))

  pub catch_up-CatchesUp :
      (verify : StoredEvent → Option Failure) (size : ℕ) (read : Option Bound → Stream)
      (w : TransactionalWriter S T)
      → Serves log read
      → IsUpTo w
      → CatchesUp (catch_up (transactional_writer target) verify size read w)
  unfolding catch_up transactional_writer tx_checkpoint
  catch_up-CatchesUp verify size read w serves up =
      let up' = checkpoint-IsUpTo w up in
      catch_up_from-CatchesUp verify size read (tx_checkpoint target w).0
        (target.checkpoint w.durable).1 serves up'
        (λ id at.
          atomic.checkpoint_finds w.durable id at
          ∙ (ap (λ s. s.1) (sym (atomic.checkpoint_keeps w.durable) ∙ up'.in_step)
              ∙ reached-folded step (empty, []) up'.applied))

  follow-IsUpTo :
      (verify : StoredEvent → Option Failure) (size : ℕ) (session : Session)
      (w : TransactionalWriter S T) (progress : ProjectionRun)
      → IsServed log session
      → IsUpTo w
      → IsUpTo (follow (transactional_writer target) verify size session w progress).target
  unfolding follow
  follow-IsUpTo verify size session w progress serves up =
      let caught = catch_up-CatchesUp verify size session.read w serves.0 up in
      let caught_up = catch_up (transactional_writer target) verify size session.read w in
      elim (Option-cases caught_up.failure) [
        | inr (err, fails) ↦ rw (follow, fails) caught.up_to
        | inl succeeds ↦
            let (more, e) = serves.1 caught.up_to.applied caught.up_to.left caught.up_to.in_order in
            let stream = session.observe (bound_after (reached [] caught.up_to.applied)) in
            let goes =
              drive-GoesOn verify 1 stream.ctx_err stream.elements more caught_up.target
                caught.up_to e in
            rw (follow, succeeds, caught.arrived succeeds) goes.up_to
      ]

  run_from-IsUpTo :
      (verify : StoredEvent → Option Failure) (size : ℕ) (settings : ReconnectSettings)
      (sessions : List Session) (w : TransactionalWriter S T) (progress : ProjectionRun)
      (delay attempt : ℕ)
      → All (IsServed log) sessions
      → IsUpTo w
      → IsUpTo
          (run_from
            (transactional_writer target)
            verify
            size
            settings
            sessions
            w
            progress
            delay
            attempt).target
  unfolding run_from run_session transactional_writer
  run_from-IsUpTo verify size settings [] w progress delay attempt served up = up
  run_from-IsUpTo verify size settings (session ∷ sessions) w progress delay attempt served up =
      let found = tx_checkpoint target w in
      let up' = checkpoint-IsUpTo w up in
      elim (Option-cases (checkpoint_panic found.1)) [
        | inr (failure, panics) ↦ rw (run_from, run_session, panics) up'
        | inl goes_on ↦
            rw (run_from, run_session, goes_on)
              (after_session_kept target IsUpTo checkpoint-IsUpTo settings session
                (run_from (transactional_writer target) verify size settings sessions)
                (checkpoint_text found.1)
                (follow (transactional_writer target) verify size session found.0 progress) delay
                attempt
                (λ w' progress' delay' attempt' up''.
                  run_from-IsUpTo verify size settings sessions w' progress' delay' attempt'
                    served.1 up'')
                (follow-IsUpTo verify size session found.0 progress served.0 up'))
      ]

  -- Whatever fails or panics, and however often the stream breaks off and the run reconnects, data
  -- and checkpoint of a transactional projection are at the end those after some first events of the
  -- log, each of these applied exactly once and in order. They were so when the run began, the events have
  -- IDs, the database answers a lower bound with events right after it, and the application keeps
  -- what the documentation of Tx asks for.
  pub run-IsUpTo :
      (verify : StoredEvent → Option Failure) (size : ℕ) (settings : ReconnectSettings)
      (sessions : List Session) (w : TransactionalWriter S T) (progress : ProjectionRun)
      → All (IsServed log) sessions
      → IsUpTo w
      → IsUpTo (run (transactional_writer target) verify size settings sessions w progress).target
  unfolding run
  run-IsUpTo verify size settings sessions w progress served up =
      run_from-IsUpTo verify size settings sessions w progress settings.initial_delay 0 served up

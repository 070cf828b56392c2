-- ===== src/Projection/Complete.antt =====
-- A session of `run`, architecturekit/projection.go, in which nothing of the application fails.
use architecturekit_golang.Base.{
  ℕ, ◌≡◌, refl, sym, ap, ◌∙◌, ◌≢◌, Option, none, List, [], ◌∷◌, ◌++◌, nat_eq, All, Text,
  text_has_eq,
}
use architecturekit_golang.Failure.{Failure}
use architecturekit_golang.ReadOptions.{Bound}
use architecturekit_golang.Store.{bound_after}
use architecturekit_golang.Stored.{StoredEvent}
use architecturekit_golang.Projection.Status.{ProjectionRun}
use architecturekit_golang.Projection.Transactions.{
  TransactionalTarget, TransactionalWriter, transactional_writer, tx_checkpoint, IsAtomic,
}
use architecturekit_golang.Projection.Folding.{events_of, folded, folded-append}
use architecturekit_golang.Projection.Sessions.{reached}
use architecturekit_golang.Projection.Running.{
  Session, ReconnectSettings, checkpoint_text, checkpoint_panic, catch_up, catch_up_from, follow,
  run_session, run_from, run,
}
use architecturekit_golang.Projection.Reliable.{IsReliable, IsWhole, drive-whole, drive-singly}
use architecturekit_golang.Projection.Kept.{after_session_kept}
use architecturekit_golang.Projection.Once.{Serves, IsUpTo, checkpoint-IsUpTo, catch_up-CatchesUp}

-- The answers to reading do not break off, whatever they are asked for.
abbrev pub ReadsWhole : Session → Type 0
ReadsWhole session =
    (bound : Option Bound)
    → IsWhole (session.read bound).elements × ((session.read bound).ctx_err ≡ none)

-- Whatever events come after a checkpoint, observing hands them all out, before it breaks off.
abbrev pub ObservesAll : List StoredEvent → Session → Type 0
ObservesAll log session =
    (before after : List StoredEvent)
    → before ++ after ≡ log
    → events_of (session.observe (bound_after (reached [] before))).elements ≡ after

module _ {ℓ} {S T D : Type ℓ} (target : TransactionalTarget S T) (durable : S → D × Text)
    (content : T → D) (step : D → StoredEvent → D) (atomic : IsAtomic target durable content step)
    (log : List StoredEvent) (identified : All (λ event. event.id ≢ []) log) (empty : D)
    (verify : StoredEvent → Option Failure) (reliable : IsReliable target verify) where
  -- All events of the log are applied.
  abbrev pub HasAll : TransactionalWriter S T → Type ℓ
  HasAll w = durable w.durable ≡ folded step (empty, []) log

  checkpoint-HasAll : (w : TransactionalWriter S T) → HasAll w → HasAll (tx_checkpoint target w).0
  unfolding tx_checkpoint
  checkpoint-HasAll w h = atomic.checkpoint_keeps w.durable ∙ h

  catch_up-whole :
      (size : ℕ) (session : Session) (w : TransactionalWriter S T)
      → ReadsWhole session
      → (catch_up (transactional_writer target) verify size session.read w).failure ≡ none
  unfolding catch_up transactional_writer tx_checkpoint
  catch_up-whole size session w whole =
      let (id, found) = reliable.finds w.durable in
      let stream = session.read (bound_after id) in
      let (unbroken, goes_on) = whole (bound_after id) in
      rw (catch_up, tx_checkpoint, found, catch_up_from, goes_on)
        (drive-whole target durable content step atomic verify reliable size stream.elements
          (tx_checkpoint target w).0 unbroken)

  follow-HasAll :
      (size : ℕ) (session : Session) (w : TransactionalWriter S T) (progress : ProjectionRun)
      → Serves log session.read
      → ReadsWhole session
      → ObservesAll log session
      → IsUpTo target durable content step atomic log identified empty w
      → HasAll (follow (transactional_writer target) verify size session w progress).target
  unfolding follow
  follow-HasAll size session w progress serves whole observes up =
      let caught_up = catch_up (transactional_writer target) verify size session.read w in
      let caught =
        catch_up-CatchesUp target durable content step atomic log identified empty verify size
          session.read w serves up in
      let succeeds = catch_up-whole size session w whole in
      let applied = caught.up_to.applied in
      let stream = session.observe (bound_after (reached [] applied)) in
      let all = observes applied caught.up_to.left caught.up_to.in_order in
      rw (follow, succeeds, caught.arrived succeeds)
        (drive-singly target durable content step atomic verify reliable stream.ctx_err
            stream.elements caught_up.target
          ∙ (ap (λ from. folded step from (events_of stream.elements)) caught.up_to.in_step
              ∙ (sym (folded-append step (empty, []) applied (events_of stream.elements))
                  ∙ ap (folded step (empty, []))
                      (ap (λ after. applied ++ after) all ∙ caught.up_to.in_order))))

  -- A session in which reading does not break off, observing hands out the events that come after those
  -- that were read, and the application does not fail leaves a transactional projection with all events
  -- of the log applied, each exactly once and in order, even if observing breaks off after that. Data
  -- and checkpoint were those after some first events when the session began, the events have IDs, the
  -- database answers a lower bound with events right after it, and the application keeps what the
  -- documentation of Tx asks for.
  pub run-HasAll :
      (size : ℕ) (settings : ReconnectSettings) (session : Session) (w : TransactionalWriter S T)
      (progress : ProjectionRun)
      → Serves log session.read
      → ReadsWhole session
      → ObservesAll log session
      → IsUpTo target durable content step atomic log identified empty w
      → HasAll
          (run (transactional_writer target) verify size settings (session ∷ []) w progress).target
  unfolding run run_from run_session transactional_writer tx_checkpoint
  run-HasAll size settings session w progress serves whole observes up =
      let found = tx_checkpoint target w in
      let (id, at) = reliable.finds w.durable in
      let goes_on : checkpoint_panic found.1 ≡ none = rw (tx_checkpoint, at) refl in
      rw (run, run_from, run_session, goes_on)
        (after_session_kept target HasAll checkpoint-HasAll settings session
          (run_from (transactional_writer target) verify size settings []) (checkpoint_text found.1)
          (follow (transactional_writer target) verify size session found.0 progress)
          settings.initial_delay 0 (λ w' progress' delay attempt h. h)
          (follow-HasAll size session found.0 progress serves whole observes
            (checkpoint-IsUpTo target durable content step atomic log identified empty w up)))

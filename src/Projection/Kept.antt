-- ===== src/Projection/Kept.antt =====
-- What holds of a transactional writer after a session still holds where `run` of
-- architecturekit/projection.go goes on.
use architecturekit_golang.Base.{
  ℕ, inl, inr, Option, Bool-cases, Option-cases, nat_eq, Text, text_has_eq,
}
use architecturekit_golang.Failure.{Failure}
use architecturekit_golang.Projection.Status.{ProjectionRun}
use architecturekit_golang.Projection.Transactions.{
  TransactionalTarget, TransactionalWriter, transactional_writer, tx_checkpoint,
}
use architecturekit_golang.Projection.Running.{
  Session, ReconnectSettings, Followed, Rest, checkpoint_panic, escaped_panic, ends_run, reconnect,
  after_disruption, after_session,
}

module _ {ℓ} {S T : Type ℓ} (target : TransactionalTarget S T)
    (P : TransactionalWriter S T → Type ℓ)
    (keeps : (w : TransactionalWriter S T) → P w → P (tx_checkpoint target w).0) where
  abbrev pub HoldsRest : Rest (TransactionalWriter S T) → Type ℓ
  HoldsRest rest =
      (w : TransactionalWriter S T) (progress : ProjectionRun) (delay attempt : ℕ)
      → P w
      → P (rest w progress delay attempt).target

  after_disruption_kept :
      (settings : ReconnectSettings) (session : Session) (rest : Rest (TransactionalWriter S T))
      (before : Text) (live_for : ℕ) (err : Option Failure) (w : TransactionalWriter S T)
      (progress : ProjectionRun) (delay attempt : ℕ)
      → HoldsRest rest
      → P w
      → P
          (after_disruption
            (transactional_writer target)
            settings
            session
            rest
            before
            live_for
            err
            w
            progress
            delay
            attempt).target
  unfolding after_disruption reconnect transactional_writer
  after_disruption_kept settings session rest before live_for err w progress delay attempt h up =
      let found = tx_checkpoint target w in
      let up' = keeps w up in
      elim (Option-cases (checkpoint_panic found.1)) [
        | inr (failure, panics) ↦ rw (after_disruption, panics) up'
        | inl goes_on ↦ elim (Bool-cases session.is_over_waiting) [
          | inl over ↦ rw (after_disruption, goes_on, reconnect, over) up'
          | inr waits ↦ rw (after_disruption, goes_on, reconnect, waits) (h found.0 _ _ _ up')
        ]
      ]

  pub after_session_kept :
      (settings : ReconnectSettings) (session : Session) (rest : Rest (TransactionalWriter S T))
      (before : Text) (followed : Followed (TransactionalWriter S T)) (delay attempt : ℕ)
      → HoldsRest rest
      → P followed.target
      → P
          (after_session
            (transactional_writer target)
            settings
            session
            rest
            before
            followed
            delay
            attempt).target
  unfolding after_session
  after_session_kept settings session rest before followed delay attempt h up =
      elim (Option-cases (escaped_panic followed.failure)) [
        | inr (failure, escaped) ↦ rw (after_session, escaped) up
        | inl none_escaped ↦ elim (Bool-cases session.is_over) [
          | inl over ↦ rw (after_session, none_escaped, over) up
          | inr goes_on ↦ elim (Bool-cases (ends_run followed.failure)) [
            | inl ends ↦ rw (after_session, none_escaped, goes_on, ends) up
            | inr passes ↦
                rw (after_session, none_escaped, goes_on, passes)
                  (after_disruption_kept settings session rest before followed.live_for
                    followed.failure followed.target _ delay attempt h up)
          ]
        ]
      ]

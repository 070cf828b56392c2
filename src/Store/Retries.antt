-- ===== src/Store/Retries.antt =====
-- Trying a command again after a conflict: the loop of `Execute` of architecturekit/store.go.
use architecturekit_golang.Base.{
  ℕ, zero, suc, ◌≤◌, ◌≡◌, refl, ◌⊎◌, inl, inr, Bool, true, false, not, ◌||◌, Option, none, some,
  List, [], ◌∷◌, arith, if◌then◌else◌, Bool-cases, nat_eq, Text, text_has_eq,
}
use architecturekit_golang.Failure.{conflict, Failure, is, Result, Result-cases, ok, fail}
use architecturekit_golang.Stored.{StoredEvent}
use architecturekit_golang.State.{State}
use architecturekit_golang.Precondition.{
  Precondition, Sdk, check_preconditions, violated_precondition, is_on_state_read,
}
use architecturekit_golang.Store.Execution.{NewEvent, World, execute_once}

module _ {P : Type 0} where
  abbrev pub some_on_state_read : List (Precondition P) → Bool
  some_on_state_read [] = false
  some_on_state_read (p ∷ ps) = is_on_state_read p || some_on_state_read ps

  -- The database names another precondition than the one on the state.
  abbrev pub is_hopeless : Option (Precondition P) → Bool
  is_hopeless none = false
  is_hopeless (some p) = not (is_on_state_read p)

abbrev pub is_some {ℓ} : {A : Type ℓ} → Option A → Bool
is_some none = false
is_some (some a) = true

module _ {W S P : Type 0} (world : World W S P) (sdk : Sdk P) (source : Text) (s : State S)
    (decide : S → Result (List (Option NewEvent))) (index_of : Text → Option ℕ) where
  -- Whether the loop ends with the result of an attempt that is not the last one allowed.
  unfoldable pub is_final : List (Precondition P) → W × Result (List StoredEvent) → Bool
  unfolding is violated_precondition
  is_final declared (w, ok events) = true
  is_final declared (w, fail err) =
      not (is conflict err)
      || is_some (world.ctx_err w)
      || is_hopeless (violated_precondition index_of err declared)

  -- The loop, with the retries that are left.
  unfoldable pub attempt_from : Text → List (Precondition P) → ℕ → W → W × Result (List StoredEvent)
  unfolding execute_once is_final
  attempt_from subject declared zero w = execute_once world sdk source s decide subject declared w
  attempt_from subject declared (suc retries) w =
      let attempt = execute_once world sdk source s decide subject declared w in
      let again = attempt_from subject declared retries attempt.0 in
      if is_final declared attempt then attempt else again

  -- `Execute`
  unfoldable pub execute : ℕ → Text → List (Precondition P) → W → W × Result (List StoredEvent)
  unfolding check_preconditions attempt_from
  execute conflict_retries subject command w = elim (check_preconditions command) [
    | fail err ↦ (w, fail err)
    | ok declared ↦
        attempt_from subject declared (if some_on_state_read declared then conflict_retries else 0)
          w
  ]

  -- The attempts that a command makes: as many as counted fail with a conflict before the last
  -- one, each while the context has not ended, and the last one is the result.
  pub data Attempts (subject : Text) (declared : List (Precondition P))
      : ℕ → W → W × Result (List StoredEvent) → Type 0 where
    last :
        (w : W)
        → Attempts subject declared 0 w (execute_once world sdk source s decide subject declared w)
    again :
        (n : ℕ) (w : W) (err : Failure) (r : W × Result (List StoredEvent))
        → (execute_once world sdk source s decide subject declared w).1 ≡ fail err
        → is conflict err ≡ true
        → world.ctx_err (execute_once world sdk source s decide subject declared w).0 ≡ none
        → Attempts subject declared n
            (execute_once world sdk source s decide subject declared w).0
            r
        → Attempts subject declared (suc n) w r

  not_final :
      (declared : List (Precondition P)) (attempt : W × Result (List StoredEvent))
      → is_final declared attempt ≡ false
      → (err : Failure) × (attempt.1 ≡ fail err)
        × (is conflict err ≡ true)
        × (world.ctx_err attempt.0 ≡ none)
  unfolding is_final
  not_final declared (w, ok events) h = absurd (ground arith)
  not_final declared (w, fail err) h = (err, refl, ground arith, ground arith)

  attempt_from-Attempts :
      (subject : Text) (declared : List (Precondition P)) (retries : ℕ) (w : W)
      → (n : ℕ) × (n ≤ retries)
        × Attempts subject declared n w (attempt_from subject declared retries w)
  unfolding attempt_from
  attempt_from-Attempts subject declared zero w = (0, omega arith, last w)
  attempt_from-Attempts subject declared (suc retries) w =
      let attempt = execute_once world sdk source s decide subject declared w in
      elim (Bool-cases (is_final declared attempt)) [
        | inl final ↦ rw (attempt_from, final) (0, omega arith, last w)
        | inr goes_on ↦
            let (err, fails, conflicts, live) = not_final declared attempt goes_on in
            let (n, bound, rest) = attempt_from-Attempts subject declared retries attempt.0 in
            rw (attempt_from, goes_on)
              (suc n, omega arith, again n w err _ fails conflicts live rest)
      ]

  -- Execute either refuses the preconditions of the command and does nothing, or makes at most one
  -- attempt more than the configured retries, and only one if no precondition is on the state that
  -- was read; every attempt but the last failed with a conflict before the context ended.
  pub execute-Attempts :
      (conflict_retries : ℕ) (subject : Text) (command : List (Precondition P)) (w : W)
      → ((err : Failure) × (check_preconditions command ≡ fail err)
          × (execute conflict_retries subject command w ≡ (w, fail err)))
        ⊎ ((declared : List (Precondition P)) × (n : ℕ) × (check_preconditions command
              ≡ ok declared)
            × (n ≤ (if some_on_state_read declared then conflict_retries else 0))
            × Attempts subject declared n w (execute conflict_retries subject command w))
  unfolding execute
  execute-Attempts conflict_retries subject command w =
      elim (Result-cases (check_preconditions command)) [
        | inr (err, refuses) ↦ inl (err, refuses, rw (execute, refuses) refl)
        | inl (declared, passes) ↦
            let (n, bound, attempts) =
              attempt_from-Attempts subject declared
                (if some_on_state_read declared then conflict_retries else 0) w in
            inr (declared, n, passes, bound, rw (execute, passes) attempts)
      ]

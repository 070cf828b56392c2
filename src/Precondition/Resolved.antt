-- ===== src/Precondition/Resolved.antt =====
-- How the resolved preconditions correspond to the declared ones, and which declarations are
-- refused.
use architecturekit_golang.Base.{
  get_elem?, sym, ap, ◌∙◌, zero, suc, ℕ, ◌≤◌, ◌<◌, ◌≡◌, refl, ◌≢◌, ◌⊎◌, inl, inr, Option, none,
  some, List, [], ◌∷◌, map, arith, ltb, Bool-cases, nat_eq, length, All, Text, text_has_eq,
}
use architecturekit_golang.Failure.{
  precondition_violated, Answer, answer_of, Failure, permanent, not_a_revision, ok, fail, wrapping,
}
use architecturekit_golang.Revision.{parse_revision, parse_revision-cases}
use architecturekit_golang.Precondition.{
  violated_precondition, Sdk, Precondition, required, on_state_read, unconditionally, on_event_id,
  zero_precondition, check_event_ids, check_kind, check_kinds, check_preconditions, resolve_one,
  resolve_preconditions,
}

-- A part that always holds changes nothing.
under_unit {ℓ} :
    {A B H : Type ℓ} → (A × H) ⊎ (B × ¬ H) → (A × (Unit {0} × H)) ⊎ (B × ¬ (Unit {0} × H))
under_unit (inl (a, h)) = inl (a, (tt, h))
under_unit (inr (b, n)) = inr (b, λ x. n x.1)

module _ {P : Type 0} where
  -- A declared precondition without a mistake of the code, among `count` of them.
  abbrev pub IsHonored : ℕ → Precondition P → Type 0
  IsHonored count (required none) = ⊥
  IsHonored count (required (some p)) = Unit
  IsHonored count on_state_read = Unit
  IsHonored count unconditionally = count ≤ 1
  IsHonored count (on_event_id subject event_id) = Unit
  IsHonored count zero_precondition = ⊥

  -- A declared precondition whose event ID, if it has one, is a revision.
  abbrev pub HasRevision : Precondition P → Type 0
  HasRevision (on_event_id subject event_id) = (n : ℕ) × (parse_revision event_id ≡ ok n)
  HasRevision _ = Unit

  check_event_ids-cases :
      (ps : List (Precondition P))
      → ((check_event_ids ps ≡ ok tt) × All HasRevision ps)
        ⊎ ((check_event_ids ps ≡ fail (wrapping not_a_revision)) × ¬ All HasRevision ps)
  unfolding check_event_ids
  check_event_ids-cases [] = inl (refl, tt)
  check_event_ids-cases (on_event_id s e ∷ ps) = elim (parse_revision-cases e) [
    | inl (n, p) ↦ elim (check_event_ids-cases ps) [
      | inl (c, h) ↦ inl (ground arith, ((n, p), h))
      | inr (c, h) ↦ inr (ground arith, λ x. h x.1)
    ]
    | inr p ↦ inr (ground arith, λ x. let (n, q) = x.0 in cc)
  ]
  check_event_ids-cases (required o ∷ ps) = under_unit (check_event_ids-cases ps)
  check_event_ids-cases (on_state_read ∷ ps) = under_unit (check_event_ids-cases ps)
  check_event_ids-cases (unconditionally ∷ ps) = under_unit (check_event_ids-cases ps)
  check_event_ids-cases (zero_precondition ∷ ps) = under_unit (check_event_ids-cases ps)

  check_kind-cases :
      (count : ℕ) (p : Precondition P)
      → ((check_kind count p ≡ ok tt) × IsHonored count p)
        ⊎ ((check_kind count p ≡ fail (wrapping permanent)) × ¬ IsHonored count p)
  unfolding check_kind
  check_kind-cases count (required none) = inr (refl, λ h. h)
  check_kind-cases count (required (some p)) = inl (refl, tt)
  check_kind-cases count on_state_read = inl (refl, tt)
  check_kind-cases count unconditionally = elim (Bool-cases (ltb 1 count)) [
    | inl e ↦ inr (ground arith, λ h. ground arith)
    | inr e ↦ inl (ground arith, ground arith)
  ]
  check_kind-cases count (on_event_id s e) = inl (refl, tt)
  check_kind-cases count zero_precondition = inr (refl, λ h. h)

  check_kinds-cases :
      (count : ℕ) (ps : List (Precondition P))
      → ((check_kinds count ps ≡ ok tt) × All (IsHonored count) ps)
        ⊎ ((check_kinds count ps ≡ fail (wrapping permanent)) × ¬ All (IsHonored count) ps)
  unfolding check_kinds
  check_kinds-cases count [] = inl (refl, tt)
  check_kinds-cases count (p ∷ ps) = elim (check_kind-cases count p) [
    | inl (c, h) ↦ elim (check_kinds-cases count ps) [
      | inl (c', h') ↦ inl (ground arith, (h, h'))
      | inr (c', h') ↦ inr (ground arith, λ x. h' x.1)
    ]
    | inr (c, h) ↦ inr (ground arith, λ x. h x.0)
  ]

  -- CheckPreconditions fails permanently exactly if a command declares no precondition, or one that
  -- can not be honored: a requirement of nil, Unconditionally beside others, or the zero value. If
  -- there is no such mistake, it fails with the error of ParseRevision exactly if an ID of
  -- OnEventID is not a revision, and otherwise it hands out the declared ones, all of them.
  pub check_preconditions_exact :
      (ps : List (Precondition P))
      → ((check_preconditions ps ≡ fail (wrapping permanent))
          × ((ps ≡ []) ⊎ (¬ All (IsHonored (length ps)) ps)))
        ⊎ ((check_preconditions ps ≡ fail (wrapping not_a_revision))
            × All (IsHonored (length ps)) ps
            × (¬ All HasRevision ps))
        ⊎ ((check_preconditions ps ≡ ok ps)
            × (ps ≢ [])
            × All (IsHonored (length ps)) ps
            × All HasRevision ps)
  unfolding check_preconditions
  check_preconditions_exact [] = inl (refl, inl refl)
  check_preconditions_exact (p ∷ ps) = elim (check_kinds-cases (length (p ∷ ps)) (p ∷ ps)) [
    | inr (c, h) ↦ inl (ground arith, inr h)
    | inl (c, h) ↦ elim (check_event_ids-cases (p ∷ ps)) [
      | inr (c', h') ↦ inr (inl (ground arith, h, h'))
      | inl (c', h') ↦ inr (inr (ground arith, λ e. ground arith, h, h'))
    ]
  ]

module _ {P : Type 0} (sdk : Sdk P) where
  -- The precondition of the database that stands for a declared one.
  abbrev pub stands_for : Text → Text → Precondition P → Option P
  stands_for subject last_event_id (required p) = p
  stands_for subject last_event_id (on_event_id s e) = some (sdk.is_subject_on_event_id s e)
  stands_for subject [] on_state_read = some (sdk.is_subject_pristine subject)
  stands_for subject (c ∷ id) on_state_read = some (sdk.is_subject_on_event_id subject (c ∷ id))
  stands_for subject last_event_id _ = none

  resolve_one-honored :
      (subject last_event_id : Text) (count : ℕ) (p : Precondition P)
      → 1 < count
      → IsHonored count p
      → resolve_one sdk subject last_event_id p ≡ stands_for subject last_event_id p ∷ []
  unfolding resolve_one
  resolve_one-honored subject last_event_id count (required p) m h = refl
  resolve_one-honored subject [] count on_state_read m h = refl
  resolve_one-honored subject (c ∷ id) count on_state_read m h = refl
  resolve_one-honored subject last_event_id count unconditionally m h = absurd (omega arith)
  resolve_one-honored subject last_event_id count (on_event_id s e) m h = refl
  resolve_one-honored subject last_event_id count zero_precondition m h = absurd h

  resolve_preconditions-map :
      (subject last_event_id : Text) (count : ℕ) (ps : List (Precondition P))
      → 1 < count
      → All (IsHonored count) ps
      → resolve_preconditions sdk subject ps last_event_id
        ≡ map (stands_for subject last_event_id) ps
  unfolding resolve_preconditions
  resolve_preconditions-map subject last_event_id count [] m h = refl
  resolve_preconditions-map subject last_event_id count (p ∷ ps) m h = rw (
    resolve_one-honored subject last_event_id count p m h.0,
    resolve_preconditions-map subject last_event_id count ps m h.1,
  )

  get_elem?-map :
      (f : Precondition P → Option P) (ps : List (Precondition P)) (i : ℕ) (q : Option P)
      → get_elem? (map f ps) i ≡ some q
      → (p : Precondition P) × (get_elem? ps i ≡ some p) × (q ≡ f p)
  get_elem?-map f [] i q h = absurd (ground arith)
  get_elem?-map f (p ∷ ps) zero q h = (p, refl, ground arith)
  get_elem?-map f (p ∷ ps) (suc i) q h = get_elem?-map f ps i q h

  -- The resolved precondition at an index stands for the declared one at the same index.
  resolve_preconditions-get_elem? :
      (subject last_event_id : Text) (ps : List (Precondition P)) (i : ℕ) (q : Option P)
      → All (IsHonored (length ps)) ps
      → get_elem? (resolve_preconditions sdk subject ps last_event_id) i ≡ some q
      → (p : Precondition P) × (get_elem? ps i ≡ some p) × (q ≡ stands_for subject last_event_id p)
  unfolding resolve_preconditions resolve_one
  resolve_preconditions-get_elem? subject last_event_id [] i q h found = absurd (ground arith)
  resolve_preconditions-get_elem? subject id (required p ∷ []) i q h found =
      get_elem?-map (stands_for subject id) (required p ∷ []) i q found
  resolve_preconditions-get_elem? subject [] (on_state_read ∷ []) i q h found =
      get_elem?-map (stands_for subject []) (on_state_read ∷ []) i q found
  resolve_preconditions-get_elem? subject (c ∷ id) (on_state_read ∷ []) i q h found =
      get_elem?-map (stands_for subject (c ∷ id)) (on_state_read ∷ []) i q found
  resolve_preconditions-get_elem? subject id (on_event_id s e ∷ []) i q h found =
      get_elem?-map (stands_for subject id) (on_event_id s e ∷ []) i q found
  resolve_preconditions-get_elem? subject id (unconditionally ∷ []) i q h found =
      absurd (ground arith)
  resolve_preconditions-get_elem? subject id (zero_precondition ∷ []) i q h found = absurd h.0
  resolve_preconditions-get_elem? subject id (p ∷ p' ∷ ps) i q h found =
      get_elem?-map (stands_for subject id) (p ∷ p' ∷ ps) i q (
        sym (
          ap (λ x. get_elem? x i)
            (resolve_preconditions-map subject id (length (p ∷ p' ∷ ps)) (p ∷ p' ∷ ps) (omega arith)
              h))
        ∙ found)

  -- If the database names the index of one of the preconditions of a write as the one that did not
  -- hold, the declared precondition that the kit takes it for is the one which that precondition
  -- stands for. The declared preconditions have no mistake of the code.
  pub violated_precondition-stands_for :
      (index_of : Text → Option ℕ) (subject last_event_id : Text) (ps : List (Precondition P))
      (err : Failure) (answer : Answer) (i : ℕ) (q : Option P)
      → All (IsHonored (length ps)) ps
      → answer_of err ≡ some answer
      → answer.code ≡ precondition_violated
      → index_of answer.details ≡ some i
      → get_elem? (resolve_preconditions sdk subject ps last_event_id) i ≡ some q
      → (p : Precondition P) × (violated_precondition index_of err ps ≡ some p)
        × (q ≡ stands_for subject last_event_id p)
  unfolding violated_precondition
  violated_precondition-stands_for index_of subject id ps err answer i q h answers violated names
        found =
      let (p, declared, stands) = resolve_preconditions-get_elem? subject id ps i q h found in
      (p, rw (violated_precondition, answers, violated, names) declared, stands)

-- ===== src/View/Model.antt =====
-- What the view in memory promises: an association list in the order of insertion, of items with
-- the event that changed each of them last. It knows no positions, no compaction and no index.
use architecturekit_golang.Base.{
  Bool, not, none, some, [], ◌∷◌, ◌++◌, ltb, ◌==◌, if◌then◌else◌, Eq, nat_eq, text_has_eq, Dict,
  lookup, remove,
}
use architecturekit_golang.Failure.{permanent, Result, ok, fail, wrapping}
use architecturekit_golang.View.Items.{
  Config, AppliedEvent, Outcome, applied, missing, already_applied, added, stamped, cloned,
}
use architecturekit_golang.View.Compaction.{Stamped}
use architecturekit_golang.View.Live.{replace}

abbrev pub is_later {ℓ} : {I : Type ℓ} → AppliedEvent → Stamped I → Bool
is_later event s =
    if event.number == s.revision then ltb s.part event.part else ltb s.revision event.number

abbrev pub stamp_with {ℓ} : {I : Type ℓ} → AppliedEvent → I → Stamped I
stamp_with event item = record { item = item; revision = event.number; part = event.part }

module _ {ℓ} {K I : Type ℓ} ⦃e : Eq K⦄ where
  abbrev pub model_delete : K → AppliedEvent → Dict K (Stamped I) → Dict K (Stamped I) × Outcome
  model_delete key event d = elim (lookup key d) [
    | none ↦ (d, missing)
    | some s ↦ if not (is_later event s) then (d, already_applied) else (remove key d, applied)
  ]

module _ {ℓ} {K I : Type ℓ} ⦃e : Eq K⦄ (c : Config K I) where
  abbrev pub Contents : Type ℓ
  Contents = Dict K (Stamped I)

  -- A new item comes last.
  abbrev pub model_add : K → I → AppliedEvent → Contents → Contents
  model_add key item event d = d ++ (key, stamp_with event (stamped c event item)) ∷ []

  abbrev pub model_change : K → AppliedEvent → (I → I) → Contents → Contents × Result Outcome
  model_change key event change d = elim (lookup key d) [
    | none ↦ (d, ok missing)
    | some s ↦
        let item = change (cloned c s.item) in
        if not (is_later event s)
        then (d, ok already_applied)
        else if not (e.beq (c.key_of item) key)
        then (d, fail (wrapping permanent))
        else (replace key (stamp_with event (stamped c event item)) d, ok applied)
  ]

  abbrev pub model_insert : AppliedEvent → I → Contents → Contents × Result Outcome
  model_insert event item d = elim (lookup (c.key_of item) d) [
    | some s ↦
        if not (is_later event s) then (d, ok already_applied) else (d, fail (wrapping permanent))
    | none ↦ (model_add (c.key_of item) item event d, ok added)
  ]

  abbrev pub model_upsert : K → AppliedEvent → (I → I) → Contents → Contents × Result Outcome
  model_upsert key event change d = elim (lookup key d) [
    | some s ↦ model_change key event change d
    | none ↦
        let item = change c.zero_item in
        if not (e.beq (c.key_of item) key)
        then (d, fail (wrapping permanent))
        else (model_add key item event d, ok added)
  ]

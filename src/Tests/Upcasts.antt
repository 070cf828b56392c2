-- ===== src/Tests/Upcasts.antt =====
-- Upcasters that rename an event type.
use architecturekit_golang.Base.{◌≡◌, refl, ◌↔◌, [], ◌∷◌, nat_eq, All, codes, text_eq, text_has_eq}
use architecturekit_golang.Failure.{ok}
use architecturekit_golang.Stored.{StoredEvent}
use architecturekit_golang.Upcast.{Upcasters, Upcaster, apply, apply_with_budget}
use architecturekit_golang.Upcast.Chains.{
  Upcasts, apply_with_budget_exact, apply-IsCurrent, IsCurrent,
}

abbrev old_event : StoredEvent
old_event = record {
  id = codes "4";
  source = [];
  subject = codes "/a";
  type = codes "old";
  payload = [];
}

abbrev renamed : StoredEvent
renamed = record {
  id = codes "4";
  source = [];
  subject = codes "/a";
  type = codes "new";
  payload = [];
}

abbrev rename : Upcaster
rename event = ok (record event { type = codes "new" } ∷ [])

abbrev renaming : Upcasters
renaming = (codes "old", rename) ∷ []

apply_with_budget_exact_example :
    (apply_with_budget renaming 1 old_event ≡ ok (renamed ∷ []))
    ↔ Upcasts renaming 1 old_event (renamed ∷ [])
apply_with_budget_exact_example = apply_with_budget_exact renaming 1 old_event (renamed ∷ [])

apply-IsCurrent_on_sample : All (IsCurrent renaming) (renamed ∷ [])
unfolding apply text_eq
apply-IsCurrent_on_sample = apply-IsCurrent renaming old_event (renamed ∷ []) refl

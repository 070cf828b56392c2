-- ===== src/Tests/Reads.antt =====
-- Options of reads, and preconditions of commands.
use architecturekit_golang.Base.{
  ℕ, ◌≡◌, ◌≢◌, ◌↔◌, ◌⊎◌, Option, none, some, List, [], ◌∷◌, nat_eq, All, codes, text_has_eq,
}
use architecturekit_golang.Failure.{permanent, not_a_revision, ok, fail, wrapping}
use architecturekit_golang.ReadOptions.{
  ReadOption, after_event, newest_first, no_settings, read_settings_of, check_bounds,
}
use architecturekit_golang.ReadOptions.Range.{HasRoom, check_bounds_exact}
use architecturekit_golang.ReadOptions.Settings.{IsConsistent, read_settings_of_exact}
use architecturekit_golang.Precondition.{
  Precondition, on_state_read, on_event_id, check_preconditions,
}
use architecturekit_golang.Precondition.Resolved.{IsHonored, HasRevision, check_preconditions_exact}

abbrev options : List (Option ReadOption)
options = some (after_event (codes "3")) ∷ some newest_first ∷ []

check_bounds_exact_example : (check_bounds no_settings ≡ ok tt) ↔ HasRoom no_settings
check_bounds_exact_example = check_bounds_exact no_settings

read_settings_of_exact_example : (read_settings_of options ≢ none) ↔ IsConsistent options
read_settings_of_exact_example = read_settings_of_exact options

abbrev declared : List (Precondition ℕ)
declared = on_state_read ∷ on_event_id (codes "/a") (codes "x") ∷ []

check_preconditions_exact_example :
    ((check_preconditions declared ≡ fail (wrapping permanent))
      × ((declared ≡ []) ⊎ (¬ All (IsHonored 2) declared)))
    ⊎ ((check_preconditions declared ≡ fail (wrapping not_a_revision))
        × All (IsHonored 2) declared
        × (¬ All HasRevision declared))
    ⊎ ((check_preconditions declared ≡ ok declared)
        × (declared ≢ [])
        × All (IsHonored 2) declared
        × All HasRevision declared)
check_preconditions_exact_example = check_preconditions_exact declared

-- ===== src/Tests/Waits.antt =====
-- A view of numbers that sees two events while a caller waits for the second one.
use architecturekit_golang.Base.{
  ℕ, ◌≡◌, refl, none, some, List, [], ◌∷◌, nat_eq, leb, if◌then◌else◌, Text, codes, text_has_eq,
}
use architecturekit_golang.Revision.{is_position, reached, parse_revision}
use architecturekit_golang.View.{View, new_view, seen}
use architecturekit_golang.View.Waiting.{wait_for, seen_all, changes, wait_for-returns}

abbrev view : View ℕ ℕ ℕ
view = new_view

abbrev events : List Text
events = codes "3" ∷ codes "7" ∷ []

wait_for-returns_example : wait_for (codes "7") view.revision (changes events view) ≡ (
    if leb (reached (codes "7")) (reached (seen_all events view).revision) then some none else none)
unfolding is_position parse_revision
wait_for-returns_example = wait_for-returns (codes "7") events view refl (refl, (refl, tt)) refl

-- The wait is over after the second event.
waits_for_second : wait_for (codes "7") view.revision (changes events view) ≡ some none
unfolding wait_for seen parse_revision
waits_for_second = refl

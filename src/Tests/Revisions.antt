-- ===== src/Tests/Revisions.antt =====
-- Revisions of events.
use architecturekit_golang.Base.{
  ℕ, leb, arith, ◌+◌, ◌≤◌, compare, ◌≡◌, refl, ◌↔◌, ◌⊎◌, true, ◌&&◌, Option, none, some, List, [],
  ◌∷◌, if◌then◌else◌, nat_eq, All, Exists, Text, codes, text_has_eq,
}
use architecturekit_golang.Failure.{
  not_a_revision, not_caught_up, deadline_exceeded, Failure, sentinel, is, ok, fail, wrapping,
}
use architecturekit_golang.Stored.{StoredEvent}
use architecturekit_golang.Revision.{
  parse_revision, IsRevision, parse_revision_exact, compare_revisions, reached, is_position,
  compare_revisions-reached, revision_of, revision_of_highest, HasId, tracked_apply, IsTracked,
  tracked_apply-IsTracked, returns, Waiting, wait_for_written, wait_for_written-not_caught_up,
  wait_for_written-returns_none, wait_for_written_exact, WaitsFor,
}

abbrev event_of : Text → StoredEvent
event_of id = record { id = id; source = []; subject = codes "/a"; type = codes "t"; payload = [] }

abbrev written : List StoredEvent
written = event_of (codes "9") ∷ event_of (codes "10") ∷ []

parse_revision_exact_example :
    (parse_revision (codes "0042") ≡ ok 42) ↔ IsRevision (codes "0042") 42
parse_revision_exact_example = parse_revision_exact (codes "0042") 42

compare_revisions-reached_example : compare_revisions (codes "9") (codes "10") ≡ (
    if is_position (codes "9") && is_position (codes "10")
    then ok (compare (reached (codes "9")) (reached (codes "10")))
    else fail (wrapping not_a_revision))
compare_revisions-reached_example = compare_revisions-reached (codes "9") (codes "10")

revision_of_highest_on_sample :
    (is_position (revision_of written) ≡ true)
    × All (λ e. reached e.id ≤ reached (revision_of written)) written
    × ((revision_of written ≡ []) ⊎ Exists (HasId (revision_of written)) written)
revision_of_highest_on_sample = revision_of_highest written

abbrev count_event : ℕ → StoredEvent → ℕ × Option Failure
count_event n event = (n + 1, none)

tracked_apply-IsTracked_example :
    IsTracked
      (codes "9")
      ([] ∷ codes "8" ∷ [])
      (1, none)
      (tracked_apply count_event 0 ([] ∷ codes "8" ∷ []) (event_of (codes "9")))
unfolding is_position parse_revision
tracked_apply-IsTracked_example =
    tracked_apply-IsTracked count_event 0 ([] ∷ codes "8" ∷ []) (event_of (codes "9")) refl
      (refl, (refl, tt))

abbrev behind : Waiting
behind = record {
  wait_for = λ revision. some (sentinel deadline_exceeded);
  ctx_err = none;
  waiting_ended = true;
}

abbrev refusal : Failure
refusal = wrapping not_caught_up

wait_for_written-not_caught_up_on_sample : is not_caught_up refusal ≡ true
unfolding wait_for_written is
wait_for_written-not_caught_up_on_sample =
    wait_for_written-not_caught_up (some behind) written 5 refusal refl

wait_for_written-returns_none_on_sample :
    (wait_for_written (some behind) written 5 ≡ returns none)
    ↔ ((written ≡ []) ⊎ (behind.wait_for (revision_of written) ≡ none))
wait_for_written-returns_none_on_sample = wait_for_written-returns_none behind written 4

-- A view that is at the revision 8.
abbrev at_eight : Waiting
at_eight = record {
  wait_for = λ wanted.
      if leb (reached wanted) (reached (codes "8"))
      then none
      else some (sentinel deadline_exceeded);
  ctx_err = none;
  waiting_ended = true;
}

at_eight-WaitsFor : WaitsFor (codes "8") at_eight
at_eight-WaitsFor wanted position = (λ h. ground arith, λ h. ground arith)

wait_for_written_exact_example :
    ((wait_for_written (some at_eight) written 5 ≡ returns none)
      ↔ All (λ event. reached event.id ≤ reached (codes "8")) written)
    × ((view : Option Waiting) (limit : ℕ) (err : Failure)
        → wait_for_written view written limit ≡ returns (some err)
        → is not_caught_up err ≡ true)
wait_for_written_exact_example =
    wait_for_written_exact at_eight (codes "8") written 4 at_eight-WaitsFor

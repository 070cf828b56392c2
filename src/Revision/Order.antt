-- ===== src/Revision/Order.antt =====
-- `CompareRevisions` and `revisionNumber` of architecturekit/revision.go.
use architecturekit_golang.Base.{
  max, ◌⊎◌, ◌≤◌, ℕ, suc, ◌<◌, compare, Ordering, ◌≡◌, refl, Bool, true, false, not, ◌&&◌, [], ◌∷◌,
  arith, ltb, if◌then◌else◌, nat_eq, Text, text_has_eq,
}
use architecturekit_golang.Failure.{not_a_revision, Result, ok, fail, ◌>>=◌, wrapping}
use architecturekit_golang.Revision.Parse.{parse_revision, parse_revision-cases}

-- The number of a revision, and whether it is set.
unfoldable pub revision_number : Text → Result (ℕ × Bool)
revision_number [] = ok (0, false)
revision_number (c ∷ s) = do number ← parse_revision (c ∷ s); ok (number, true)

unfoldable pub order_of : ℕ → Bool → ℕ → Bool → Ordering
order_of left left_set right right_set =
    if not left_set && not right_set
    then Ordering.eq
    else if not left_set
    then Ordering.lt
    else if not right_set
    then Ordering.gt
    else compare left right

-- `cmp.Compare` returns -1, 0 or 1, which are `lt`, `eq` and `gt`.
unfoldable pub compare_revisions : Text → Text → Result Ordering
unfolding revision_number order_of
compare_revisions left right = do
  (left_number, left_set) ← revision_number left
  (right_number, right_set) ← revision_number right
  ok (order_of left_number left_set right_number right_set)

abbrev successor_or_zero : Result ℕ → ℕ
successor_or_zero (ok n) = suc n
successor_or_zero (fail e) = 0

abbrev succeeds : Result ℕ → Bool
succeeds (ok n) = true
succeeds (fail e) = false

-- How far a revision has come: 0 for one that is not set, and n + 1 for the revision n.
unfoldable pub reached : Text → ℕ
reached [] = 0
reached (c ∷ s) = successor_or_zero (parse_revision (c ∷ s))

-- The empty revision, or one that stands for a number.
unfoldable pub is_position : Text → Bool
is_position [] = true
is_position (c ∷ s) = succeeds (parse_revision (c ∷ s))

-- CompareRevisions orders two revisions by how far they have come, the empty one first, and fails
-- with ErrNotARevision exactly if one of them is neither empty nor a revision.
pub compare_revisions-reached :
    (l r : Text)
    → compare_revisions l r ≡ (
        if is_position l && is_position r
        then ok (compare (reached l) (reached r))
        else fail (wrapping not_a_revision))
unfolding compare_revisions reached is_position
compare_revisions-reached [] [] = ground arith
compare_revisions-reached [] (d ∷ r) = ground (arith, parse_revision-cases (d ∷ r))
compare_revisions-reached (c ∷ l) [] = ground (arith, parse_revision-cases (c ∷ l))
compare_revisions-reached (c ∷ l) (d ∷ r) =
    ground (arith, parse_revision-cases (c ∷ l), parse_revision-cases (d ∷ r))

abbrev is_greater : Ordering → Bool
is_greater Ordering.gt = true
is_greater _ = false

-- The test `newer, err := CompareRevisions(id, current); err == nil && newer > 0`.
unfoldable pub is_newer : Text → Text → Bool
is_newer id current = elim (compare_revisions id current) [ ok o ↦ is_greater o | fail e ↦ false ]

pub is_newer-reached :
    (id current : Text)
    → is_position current ≡ true
    → is_newer id current ≡ ltb (reached current) (reached id)
unfolding is_newer reached is_position
is_newer-reached [] current h = ground (arith, compare_revisions-reached [] current)
is_newer-reached (c ∷ s) current h =
    ground (arith, compare_revisions-reached (c ∷ s) current, parse_revision-cases (c ∷ s))

pub reached_pos-is_position : (id : Text) → 0 < reached id → is_position id ≡ true
unfolding reached is_position
reached_pos-is_position [] h = refl
reached_pos-is_position (c ∷ s) h = ground (arith, parse_revision-cases (c ∷ s))

pub is_newer-is_position : (id current : Text) → is_newer id current ≡ true → is_position id ≡ true
unfolding is_newer
is_newer-is_position id current h = ground (arith, compare_revisions-reached id current)

-- The revision of a view after `Seen`, and the highest ID after one more event in `RevisionOf`:
-- an event that is not newer does not move it.
unfoldable pub advance : Text → Text → Text
advance event_id revision = if is_newer event_id revision then event_id else revision

-- The revision of a view after an event is the later one of the two, however often and in
-- whatever order events arrive, and it stays a position.
pub advance-max :
    (event_id revision : Text)
    → is_position revision ≡ true
    → is_position event_id ≡ true
    → (reached (advance event_id revision) ≡ max (reached event_id) (reached revision))
      × (is_position (advance event_id revision) ≡ true)
unfolding advance
advance-max event_id revision h k = ground (arith, is_newer-reached event_id revision)

-- An ID that is not a revision changes no view.
pub advance_invalid :
    (event_id revision : Text) → is_position event_id ≡ false → advance event_id revision ≡ revision
unfolding advance
advance_invalid event_id revision h = ground (arith, is_newer-is_position event_id revision)

pub advance-is_position :
    (event_id revision : Text)
    → is_position revision ≡ true
    → is_position (advance event_id revision) ≡ true
unfolding advance
advance-is_position event_id revision h = ground (arith, is_newer-is_position event_id revision)

-- Neither the event nor the revision before it lies beyond the revision after it.
pub advance-le :
    (event_id revision : Text)
    → is_position revision ≡ true
    → (reached event_id ≤ reached (advance event_id revision))
      × (reached revision ≤ reached (advance event_id revision))
unfolding advance
advance-le event_id revision h = ground (arith, is_newer-reached event_id revision)

pub advance-cases :
    (event_id revision : Text)
    → (advance event_id revision ≡ event_id) ⊎ (advance event_id revision ≡ revision)
unfolding advance
advance-cases event_id revision = ground arith

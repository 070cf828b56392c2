-- ===== src/View/Items.antt =====
-- Items, entries and events of the view in memory: architecturekit/in_memory_view.go.
use architecturekit_golang.Base.{
  ℕ, Bool, Option, none, some, ltb, ◌==◌, if◌then◌else◌, nat_eq, Text, text_has_eq,
}
use architecturekit_golang.Failure.{
  permanent, not_a_revision, sentinel, wrap, end, also, Result, ok, fail,
}
use architecturekit_golang.Revision.{parse_revision}

-- An item with the event that changed it last, and where its key is in the order.
pub record Entry {ℓ} (I : Type ℓ) : Type ℓ where
  pub item : I
  pub revision : ℕ
  pub part : ℕ
  pub position : ℕ

-- What the options of the view configure, with the zero value of an item. `revision_in` writes the
-- field whose address the option returns.
pub record Config {ℓ} (K I : Type ℓ) : Type ℓ where
  pub key_of : I → K
  pub revision_in : Option (Text → I → I)
  pub clone : Option (I → I)
  pub zero_item : I

pub record AppliedEvent : Type 0 where
  pub id : Text
  pub number : ℕ
  pub part : ℕ

pub data Outcome : Type 0 where
  applied missing already_applied added : Outcome

-- `appliedEventOf`, with the part that the context holds.
unfoldable pub applied_event_of : ℕ → Text → Result AppliedEvent
applied_event_of part event_id = elim (parse_revision event_id) [
  | ok number ↦ ok (record { id = event_id; number = number; part = part })
  | fail err ↦ fail (wrap (also (sentinel permanent) (also (sentinel not_a_revision) end)))
]

unfoldable pub is_newer_than {ℓ} : {I : Type ℓ} → AppliedEvent → Entry I → Bool
is_newer_than event entry =
    if event.number == entry.revision
    then ltb entry.part event.part
    else ltb entry.revision event.number

unfoldable pub stamped {ℓ} : {K I : Type ℓ} → Config K I → AppliedEvent → I → I
stamped c event item = elim c.revision_in [ none ↦ item | some write ↦ write event.id item ]

unfoldable pub cloned {ℓ} : {K I : Type ℓ} → Config K I → I → I
cloned c item = elim c.clone [ none ↦ item | some clone ↦ clone item ]

module _ {ℓ} {K I : Type ℓ} where
  -- The entry after a change.
  unfoldable pub changed_entry : Config K I → AppliedEvent → (I → I) → Entry I → Entry I
  unfolding stamped cloned
  changed_entry c event change entry = record entry {
    item = stamped c event (change (cloned c entry.item));
    revision = event.number;
    part = event.part;
  }

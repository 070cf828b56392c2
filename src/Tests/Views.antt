-- ===== src/Tests/Views.antt =====
-- The view in memory, of items that are a key and a number.
use architecturekit_golang.Base.{
  ℕ, ◌+◌, ◌≡◌, refl, true, false, ◌&&◌, ◌||◌, none, List, [], ◌∷◌, if◌then◌else◌, nat_eq, Text,
  codes, text_has_eq,
}
use architecturekit_golang.Failure.{ok}
use architecturekit_golang.View.{
  View, new_view, insert, upsert, all, delete_item, change_item, change_all, delete_all,
}
use architecturekit_golang.View.Items.{
  Config, AppliedEvent, applied, already_applied, applied_event_of,
}
use architecturekit_golang.View.Indexing.{
  Index, index_add, index_remove, holds, holds-index_add, holds-index_remove, holds_changed,
}
use architecturekit_golang.View.Contents.{contents, IsValid}
use architecturekit_golang.View.Model.{model_change, model_delete, model_insert, model_upsert}
use architecturekit_golang.View.Validity.{
  Refines, change_item-Refines, delete_item-Refines, insert-Refines, upsert-Refines,
}
use architecturekit_golang.View.Reachable.{Reachable, start, after_insert, Reachable-IsValid}
use architecturekit_golang.View.Indexed.{IsIndexed}
use architecturekit_golang.View.Indexes.{index_from, new_index, index_by, index_by-IsIndexed}
use architecturekit_golang.View.Synced.{changed-IsIndexed}
use architecturekit_golang.View.Repeated.{upsert-upsert}
use architecturekit_golang.Revision.{parse_revision}

abbrev Item : Type 0
Item = ℕ × ℕ

abbrev config : Config ℕ Item
config = record { key_of = λ x. x.0; revision_in = none; clone = none; zero_item = (0, 0) }

abbrev empty_view : View ℕ Item ℕ
empty_view = new_view

abbrev shelf : View ℕ Item ℕ
shelf = (insert config 0 (codes "1") (7, 70) empty_view).0

abbrev next_event : AppliedEvent
next_event = record { id = codes "2"; number = 2; part = 0 }

abbrev rename : Item → Item
rename x = (7, x.1 + 1)

shelf_Reachable : Reachable config shelf
shelf_Reachable = after_insert 0 (codes "1") (7, 70) empty_view start

shelf-all : all shelf ≡ (7, 70) ∷ []
unfolding all insert parse_revision
shelf-all = refl

Reachable-IsValid_example : IsValid shelf
Reachable-IsValid_example = Reachable-IsValid config shelf shelf_Reachable

shelf-IsValid : IsValid shelf
shelf-IsValid = Reachable-IsValid config shelf shelf_Reachable

change_item-Refines_example :
    Refines
      (change_item config 7 next_event rename shelf)
      (model_change config 7 next_event rename (contents shelf))
change_item-Refines_example = change_item-Refines config 7 next_event rename shelf shelf-IsValid

delete_item-Refines_example :
    Refines (delete_item 7 next_event shelf) (model_delete 7 next_event (contents shelf))
delete_item-Refines_example = delete_item-Refines 7 next_event shelf shelf-IsValid

insert-Refines_example :
    Refines
      (insert config 0 (codes "2") (8, 80) shelf)
      (model_insert config next_event (8, 80) (contents shelf))
unfolding applied_event_of parse_revision
insert-Refines_example =
    insert-Refines config 0 (codes "2") next_event (8, 80) shelf refl shelf-IsValid

upsert-Refines_example :
    Refines
      (upsert config 0 7 (codes "2") rename shelf)
      (model_upsert config 7 next_event rename (contents shelf))
unfolding applied_event_of parse_revision
upsert-Refines_example =
    upsert-Refines config 0 7 (codes "2") next_event rename shelf refl shelf-IsValid

upsert-upsert_example :
    upsert config 0 7 (codes "2") rename (upsert config 0 7 (codes "2") rename shelf).0
    ≡ ((upsert config 0 7 (codes "2") rename shelf).0, ok already_applied)
unfolding upsert insert parse_revision
upsert-upsert_example = upsert-upsert config 0 7 (codes "2") rename rename shelf applied refl

abbrev by_number : Index ℕ Item ℕ
by_number = record { value_of = λ x. x.1; keys = [] }

holds-index_add_on_sample :
    holds (index_add 7 (7, 70) by_number) 70 7 ≡ (true && true || holds by_number 70 7)
holds-index_add_on_sample = holds-index_add by_number 7 (7, 70) 70 7

holds-index_remove_on_sample :
    holds (index_remove 7 (7, 70) (index_add 7 (7, 70) by_number)) 70 7 ≡ false
unfolding index_add
holds-index_remove_on_sample = holds-index_remove (index_add 7 (7, 70) by_number) 7 (7, 70) 70 7

holds_changed_on_sample :
    (holds (index_add 7 (7, 70) by_number) 70 7 ≡ (true && true || holds by_number 70 7))
    × (holds (index_remove 7 (7, 70) by_number) 70 7
        ≡ (if true && true then false else holds by_number 70 7))
holds_changed_on_sample = holds_changed by_number 7 (7, 70) 70 7

abbrev second : Item → ℕ
second x = x.1

-- A view with an item, to which an index of the numbers is added.
abbrev indexed_shelf : View ℕ Item ℕ
indexed_shelf = record shelf { indexes = new_index second shelf ∷ [] }

indexed_shelf-IsIndexed : IsIndexed indexed_shelf
unfolding index_by insert parse_revision
indexed_shelf-IsIndexed = index_by-IsIndexed second shelf indexed_shelf shelf-IsValid tt refl

index-finds : holds (new_index second shelf) 70 7 ≡ true
unfolding holds index_from insert parse_revision index_add
index-finds = refl

changed-IsIndexed_example :
    ((part : ℕ) (event_id : Text) (item : Item)
      → IsIndexed (insert config part event_id item indexed_shelf).0)
    × ((part : ℕ) (key : ℕ) (event_id : Text) (change : Item → Item)
        → IsIndexed (upsert config part key event_id change indexed_shelf).0)
    × ((keys : List ℕ) (event : AppliedEvent) (change : Item → Item)
        → IsIndexed (change_all config keys event change 0 indexed_shelf).0)
    × ((keys : List ℕ) (event : AppliedEvent) → IsIndexed (delete_all keys event 0 indexed_shelf).0)
changed-IsIndexed_example = changed-IsIndexed config indexed_shelf indexed_shelf-IsIndexed

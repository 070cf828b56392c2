-- ===== src/ReadOptions.antt =====
-- Which events a read hands out: architecturekit/read_options.go.
pub mod Range
pub mod Settings
use architecturekit_golang.Base.{
  ℕ, ◌+◌, ◌%◌, ◌^◌, Bool, true, false, Option, none, some, List, [], ◌∷◌, arith, leb, if◌then◌else◌,
  nat_eq, Text, text_has_eq,
}
use architecturekit_golang.Failure.{empty_range, Result, ok, fail, ◌>>=◌, wrapping}
use architecturekit_golang.Revision.{parse_revision}

pub data BoundType : Type 0 where
  inclusive exclusive : BoundType

pub record Bound : Type 0 where
  pub id : Text
  pub bound_type : BoundType

pub data IfMissing : Type 0 where
  read_everything read_nothing : IfMissing

-- A read option, with the arguments of the function that creates it. `NewestFirst` turns the order
-- around, and `FromLatestEvent` starts from the latest event of a type.
pub data ReadOption : Type 0 where
  from_event after_event up_to_event before_event : Text → ReadOption
  newest_first : ReadOption
  from_latest_event : Text → Text → IfMissing → ReadOption

pub record LatestEvent : Type 0 where
  pub subject : Text
  pub type : Text
  pub if_missing : IfMissing

-- `readSettings`: the option that set each of the settings, and what the database is asked for.
pub record ReadSettings : Type 0 where
  pub lower_set : Option ReadOption
  pub upper_set : Option ReadOption
  pub order_set : Option ReadOption
  pub lower : Option Bound
  pub upper : Option Bound
  pub antichronological : Bool
  pub from_latest : Option LatestEvent

abbrev pub no_settings : ReadSettings
no_settings = record {
  lower_set = none;
  upper_set = none;
  order_set = none;
  lower = none;
  upper = none;
  antichronological = false;
  from_latest = none;
}

-- `set`: a second option for the same setting panics, which is `none`.
unfoldable pub set : Option ReadOption → ReadOption → Option (Option ReadOption)
set none option = some (some option)
set (some earlier) option = none

abbrev pub bind {ℓ κ} : {A : Type ℓ} {B : Type κ} → Option A → (A → Option B) → Option B
bind none f = none
bind (some a) f = f a

unfoldable pub lower_bound : ReadOption → Text → BoundType → ReadSettings → Option ReadSettings
unfolding set
lower_bound option id bound_type s = bind (set s.lower_set option) λ given.
    some
      (record s { lower_set = given; lower = some (record { id = id; bound_type = bound_type }) })

unfoldable pub upper_bound : ReadOption → Text → BoundType → ReadSettings → Option ReadSettings
unfolding set
upper_bound option id bound_type s = bind (set s.upper_set option) λ given.
    some
      (record s { upper_set = given; upper = some (record { id = id; bound_type = bound_type }) })

unfoldable pub apply_option : ReadOption → ReadSettings → Option ReadSettings
unfolding lower_bound upper_bound set
apply_option (from_event id) s = lower_bound (from_event id) id inclusive s
apply_option (after_event id) s = lower_bound (after_event id) id exclusive s
apply_option (up_to_event id) s = upper_bound (up_to_event id) id inclusive s
apply_option (before_event id) s = upper_bound (before_event id) id exclusive s
apply_option newest_first s =
    bind (set s.order_set newest_first)
      λ given. some (record s { order_set = given; antichronological = true })
apply_option (from_latest_event subject type missing) s =
    bind (set s.lower_set (from_latest_event subject type missing)) λ given. some (record s {
      lower_set = given;
      from_latest = some (record { subject = subject; type = type; if_missing = missing });
    })

-- `applyOptions`: a nil option panics.
unfoldable pub apply_options : List (Option ReadOption) → ReadSettings → Option ReadSettings
unfolding apply_option
apply_options [] s = some s
apply_options (none ∷ options) s = none
apply_options (some option ∷ options) s =
    bind (apply_option option s) λ s'. apply_options options s'

-- The database reads from the latest event of a type only oldest first.
unfoldable pub refuse_latest_newest : ReadSettings → Option ReadSettings
refuse_latest_newest s = elim s.from_latest [
  | none ↦ some s
  | some l ↦ elim s.order_set [ none ↦ some s | some o ↦ none ]
]

unfoldable pub read_settings_of : List (Option ReadOption) → Option ReadSettings
unfolding apply_options refuse_latest_newest
read_settings_of options = bind (apply_options options no_settings) refuse_latest_newest

-- The first ID of the range, in 64 bits.
unfoldable pub first_of : Option Bound → Result ℕ
first_of none = ok 0
first_of (some b) = do
  id ← parse_revision b.id
  ok (elim b.bound_type [ inclusive ↦ id | exclusive ↦ (id + 1) % 2 ^ 64 ])

-- The first ID after the range, in 64 bits.
unfoldable pub end_of : Option Bound → Result ℕ
end_of none = ok (2 ^ 63)
end_of (some b) = do
  id ← parse_revision b.id
  ok (elim b.bound_type [ inclusive ↦ (id + 1) % 2 ^ 64 | exclusive ↦ id ])

unfoldable pub check_bounds : ReadSettings → Result (Unit {0})
unfolding first_of end_of
check_bounds s = do
  first ← first_of s.lower
  ending ← end_of s.upper
  if leb ending first then fail (wrapping empty_range) else ok tt

-- `CheckReadOptions`: `none` is the panic for options that contradict each other.
unfoldable pub check_read_options : List (Option ReadOption) → Option (Result (Unit {0}))
unfolding read_settings_of check_bounds
check_read_options options = bind (read_settings_of options) λ s. some (check_bounds s)

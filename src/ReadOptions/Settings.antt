-- ===== src/ReadOptions/Settings.antt =====
-- Which options of a read contradict each other: `readSettingsOf` of
-- architecturekit/read_options.go.
use architecturekit_golang.Base.{
  ℕ, ◌+◌, ◌≤◌, ◌≡◌, refl, ◌≢◌, ◌↔◌, ◌⊎◌, inl, inr, Option, none, some, List, [], ◌∷◌, arith,
  Option-cases, nat_eq, text_has_eq,
}
use architecturekit_golang.ReadOptions.{
  ReadOption, from_event, after_event, up_to_event, before_event, newest_first, from_latest_event,
  ReadSettings, no_settings, apply_option, apply_options, refuse_latest_newest, read_settings_of,
}

abbrev pub is_lower : ReadOption → ℕ
is_lower (from_event id) = 1
is_lower (after_event id) = 1
is_lower (from_latest_event subject type missing) = 1
is_lower _ = 0

abbrev pub is_upper : ReadOption → ℕ
is_upper (up_to_event id) = 1
is_upper (before_event id) = 1
is_upper _ = 0

abbrev pub is_order : ReadOption → ℕ
is_order newest_first = 1
is_order _ = 0

abbrev pub is_latest : ReadOption → ℕ
is_latest (from_latest_event subject type missing) = 1
is_latest _ = 0

abbrev pub is_nil : Option ReadOption → ℕ
is_nil none = 1
is_nil (some o) = 0

-- How many of the options a test counts.
abbrev pub count_options : (ReadOption → ℕ) → List (Option ReadOption) → ℕ
count_options test [] = 0
count_options test (none ∷ options) = count_options test options
count_options test (some o ∷ options) = test o + count_options test options

abbrev pub count_nil : List (Option ReadOption) → ℕ
count_nil [] = 0
count_nil (o ∷ options) = is_nil o + count_nil options

abbrev present {ℓ} : {A : Type ℓ} → Option A → ℕ
present none = 0
present (some a) = 1

-- A latest event is asked for only by an option that set the lower bound.
abbrev IsCoherent : ReadSettings → Type 0
IsCoherent s = present s.from_latest ≤ present s.lower_set

apply_option-some :
    (o : ReadOption) (s s' : ReadSettings)
    → IsCoherent s
    → apply_option o s ≡ some s'
    → (present s'.lower_set ≡ present s.lower_set + is_lower o)
      × (present s'.upper_set ≡ present s.upper_set + is_upper o)
      × (present s'.order_set ≡ present s.order_set + is_order o)
      × (present s'.from_latest ≡ present s.from_latest + is_latest o)
      × IsCoherent s'
unfolding apply_option
apply_option-some newest_first s s' c h = ground arith
apply_option-some _ s s' c h = ground arith

apply_option-none :
    (o : ReadOption) (s : ReadSettings)
    → apply_option o s ≡ none
    → (2 ≤ present s.lower_set + is_lower o)
      ⊎ (2 ≤ present s.upper_set + is_upper o)
      ⊎ (2 ≤ present s.order_set + is_order o)
unfolding apply_option
apply_option-none newest_first s h = ground arith
apply_option-none _ s h = ground arith

abbrev Agrees : List (Option ReadOption) → ReadSettings → ReadSettings → Type 0
Agrees options s s' =
    (present s'.lower_set ≡ present s.lower_set + count_options is_lower options)
    × (present s'.upper_set ≡ present s.upper_set + count_options is_upper options)
    × (present s'.order_set ≡ present s.order_set + count_options is_order options)
    × (present s'.from_latest ≡ present s.from_latest + count_options is_latest options)

apply_options-some :
    (options : List (Option ReadOption)) (s s' : ReadSettings)
    → IsCoherent s
    → apply_options options s ≡ some s'
    → (count_nil options ≡ 0) × Agrees options s s'
unfolding apply_options
apply_options-some [] s s' c h =
    let e : s ≡ s' = ground arith in
    rw (← e) (refl, (omega arith, omega arith, omega arith, omega arith))
apply_options-some (none ∷ options) s s' c h = ground arith
apply_options-some (some o ∷ options) s s' c h = elim (Option-cases (apply_option o s)) [
  | inl e ↦ absurd (ground arith)
  | inr (t, e) ↦
      let rest : apply_options options t ≡ some s' = ground arith in
      let (l, u, ord, latest, coherent) = apply_option-some o s t c e in
      let (nils, agrees) = apply_options-some options t s' coherent rest in
      let (l', u', ord', latest') = agrees in
      (omega arith, (omega arith, omega arith, omega arith, omega arith))
]

-- The options that a read accepts.
pub record IsConsistent (options : List (Option ReadOption)) : Type 0 where
  pub no_nil : count_nil options ≡ 0
  pub one_lower : count_options is_lower options ≤ 1
  pub one_upper : count_options is_upper options ≤ 1
  pub one_order : count_options is_order options ≤ 1
  pub latest_oldest_first :
      (count_options is_latest options ≡ 0) ⊎ (count_options is_order options ≡ 0)

present-le {ℓ} : {A : Type ℓ} (o : Option A) → present o ≤ 1
present-le none = omega arith
present-le (some a) = omega arith

read_settings_of_sound :
    (options : List (Option ReadOption)) (s : ReadSettings)
    → read_settings_of options ≡ some s
    → IsConsistent options
unfolding read_settings_of refuse_latest_newest
read_settings_of_sound options s h = elim (Option-cases (apply_options options no_settings)) [
  | inl e ↦ absurd (ground arith)
  | inr (t, e) ↦
      let (nils, agrees) = apply_options-some options no_settings t (omega arith) e in
      let (l, u, o, latest) = agrees in
      let apart : (present t.from_latest ≡ 0) ⊎ (present t.order_set ≡ 0) = ground arith in
      record {
        no_nil = nils;
        one_lower = omega (arith, present-le t.lower_set);
        one_upper = omega (arith, present-le t.upper_set);
        one_order = omega (arith, present-le t.order_set);
        latest_oldest_first = elim apart [ inl x ↦ inl (omega arith) | inr x ↦ inr (omega arith) ];
      }
]

apply_options_complete :
    (options : List (Option ReadOption)) (s : ReadSettings)
    → IsCoherent s
    → count_nil options ≡ 0
    → present s.lower_set + count_options is_lower options ≤ 1
    → present s.upper_set + count_options is_upper options ≤ 1
    → present s.order_set + count_options is_order options ≤ 1
    → (s' : ReadSettings) × (apply_options options s ≡ some s')
unfolding apply_options
apply_options_complete [] s c n l u o = (s, refl)
apply_options_complete (none ∷ options) s c n l u o = absurd (omega arith)
apply_options_complete (some x ∷ options) s c n l u o = elim (Option-cases (apply_option x s)) [
  | inl e ↦ absurd (omega (arith, apply_option-none x s e))
  | inr (t, e) ↦
      let (l', u', o', latest, coherent) = apply_option-some x s t c e in
      let (s', found) =
        apply_options_complete options t coherent (omega arith) (omega arith) (omega arith)
          (omega arith) in
      (s', ground arith)
]

read_settings_of_complete :
    (options : List (Option ReadOption))
    → IsConsistent options
    → (s : ReadSettings) × (read_settings_of options ≡ some s)
unfolding read_settings_of refuse_latest_newest
read_settings_of_complete options h =
    let (t, e) =
      apply_options_complete options no_settings (omega arith) h.no_nil (omega (arith, h.one_lower))
        (omega (arith, h.one_upper)) (omega (arith, h.one_order)) in
    let (nils, agrees) = apply_options-some options no_settings t (omega arith) e in
    let (l, u, o, latest) = agrees in
    let apart : (present t.from_latest ≡ 0) ⊎ (present t.order_set ≡ 0) =
      elim h.latest_oldest_first [ inl x ↦ inl (omega arith) | inr x ↦ inr (omega arith) ] in
    (t, ground arith)

-- A read accepts its options exactly if none of them is nil, at most one sets the lower bound, at
-- most one the upper bound, at most one the order, and a read from the latest event of a type does
-- not turn the order around; for all others it panics.
pub read_settings_of_exact :
    (options : List (Option ReadOption)) → (read_settings_of options ≢ none) ↔ IsConsistent options
read_settings_of_exact options = (
  λ h. elim (Option-cases (read_settings_of options)) [
    | inl e ↦ absurd (h e)
    | inr (s, e) ↦ read_settings_of_sound options s e
  ],
  λ c. λ e. let (s, found) = read_settings_of_complete options c in cc,
)

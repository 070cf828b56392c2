-- ===== src/Tests/Subjects.antt =====
-- Subject schemes on the patterns and subjects of architecturekit/subject_test.go.
use architecturekit_golang.Base.{
  ◌≡◌, refl, ◌≢◌, ◌↔◌, ◌⊎◌, none, some, List, [], ◌∷◌, nat_eq, Text, codes, text_eq, text_has_eq,
  Dict,
}
use architecturekit_golang.Subject.{
  SubjectScheme, returns, panics, no_leading_slash, malformed_segment, repeated_name,
  unnamed_placeholder, empty_segment, new_subject_scheme, root, build, check, match, value_of,
  empty_value, forbidden_value, wrong_number, refused_values, add_segments, split, add_segment,
  check_literal, has_brace, has_only_subject_characters, placeholder_name, cut_close_brace,
  contains, check_values, build_from, join_slash, leading_literals, match_from,
}
use architecturekit_golang.Subject.Parsed.{new_subject_scheme_exact}
use architecturekit_golang.Subject.RoundTrip.{
  IsWellFormed, match-build, build-match, build-check, value_of-build, root-LiesUnder, LiesUnder,
  values_at,
}

abbrev pattern : Text
pattern = codes "/tenant/{tenant}/workshop/{workshop}"

abbrev scheme : SubjectScheme
scheme = record {
  pattern = pattern;
  segments = codes "tenant" ∷ codes "{tenant}" ∷ codes "workshop" ∷ codes "{workshop}" ∷ [];
  placeholders = codes "tenant" ∷ codes "workshop" ∷ [];
}

abbrev values : List Text
values = codes "acme" ∷ codes "go-cqrs" ∷ []

abbrev subject : Text
subject = codes "/tenant/acme/workshop/go-cqrs"

parsed : new_subject_scheme pattern ≡ returns scheme
unfolding new_subject_scheme add_segments split add_segment check_literal has_brace
    has_only_subject_characters placeholder_name cut_close_brace contains text_eq
parsed = refl

well_formed : IsWellFormed scheme
well_formed = ((new_subject_scheme_exact pattern scheme).0 parsed).0

new_subject_scheme_exact_example :
    (new_subject_scheme pattern ≡ returns scheme)
    ↔ (IsWellFormed scheme × (scheme.pattern ≡ pattern))
new_subject_scheme_exact_example = new_subject_scheme_exact pattern scheme

built : build scheme values ≡ returns subject
unfolding build check check_values has_only_subject_characters build_from
built = refl

match-build_example :
    (dict : Dict Text Text) × (match scheme subject ≡ returns (some dict))
    × (values_at dict scheme.placeholders ≡ values)
match-build_example = match-build scheme values subject well_formed built

build-match_example :
    (match scheme subject ≡ returns none)
    ⊎ ((dict : Dict Text Text) × (match scheme subject ≡ returns (some dict))
        × (build scheme (values_at dict scheme.placeholders) ≡ returns subject))
build-match_example = build-match scheme subject well_formed

build-check_example :
    ((check scheme values ≡ none) × ((composed : Text) × (build scheme values ≡ returns composed)))
    ⊎ ((check scheme values ≢ none) × (build scheme values ≡ panics refused_values))
build-check_example = build-check scheme values well_formed

value_of-build_example :
    value_of scheme subject (codes "workshop") ≡ returns (some (codes "go-cqrs"))
value_of-build_example = value_of-build scheme values subject _ _ 1 well_formed built refl refl

root-LiesUnder_example : LiesUnder (root scheme) subject
root-LiesUnder_example = root-LiesUnder scheme values subject well_formed built

root_of_scheme : root scheme ≡ codes "/tenant"
unfolding root join_slash leading_literals
root_of_scheme = refl

without_slash : new_subject_scheme (codes "tenant") ≡ panics no_leading_slash
unfolding new_subject_scheme
without_slash = refl

with_brace_too_many :
    new_subject_scheme (codes "/a/{id}}") ≡ panics (malformed_segment (codes "{id}}"))
unfolding new_subject_scheme add_segments split add_segment check_literal has_brace
    has_only_subject_characters placeholder_name cut_close_brace
with_brace_too_many = refl

with_name_twice : new_subject_scheme (codes "/{a}/{a}") ≡ panics (repeated_name (codes "a"))
unfolding new_subject_scheme add_segments split add_segment placeholder_name cut_close_brace
    has_brace has_only_subject_characters contains text_eq
with_name_twice = refl

without_name : new_subject_scheme (codes "/a/{}") ≡ panics unnamed_placeholder
unfolding new_subject_scheme add_segments split add_segment check_literal has_brace
    has_only_subject_characters placeholder_name cut_close_brace
without_name = refl

with_empty_segment : new_subject_scheme (codes "/a//b") ≡ panics empty_segment
unfolding new_subject_scheme add_segments split add_segment check_literal has_brace
    has_only_subject_characters
with_empty_segment = refl

with_empty_value : check scheme (codes "acme" ∷ [] ∷ []) ≡ some (empty_value (codes "workshop"))
unfolding check check_values has_only_subject_characters
with_empty_value = refl

with_dot_in_value :
    check scheme (codes "a.b" ∷ codes "c" ∷ [])
    ≡ some (forbidden_value (codes "a.b") (codes "tenant"))
unfolding check check_values has_only_subject_characters
with_dot_in_value = refl

with_value_missing : check scheme (codes "acme" ∷ []) ≡ some (wrong_number 2 1)
unfolding check
with_value_missing = refl

of_another_scheme : match scheme (codes "/tenant/acme/shop/go-cqrs") ≡ returns none
unfolding match split match_from text_eq has_only_subject_characters
of_another_scheme = refl

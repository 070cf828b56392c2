-- ===== src/HttpApi/Tags.antt =====
-- Tags of answers: `holdsTag`, `serveUnchanged`, and `etagOf` of
-- architecturekit/httpapi/revision.go.
use architecturekit_golang.Base.{
  ℕ, zero, suc, ◌+◌, Bool, true, false, ◌&&◌, ◌||◌, Option, none, some, List, [], ◌∷◌, ◌++◌, ◌==◌,
  if◌then◌else◌, nat_eq, length, Text, text_eq, text_has_eq, is_empty,
}
use architecturekit_golang.HttpApi.{Request, Response, private_no_cache, no_store, no_content}

abbrev pub quote : ℕ
quote = b'"'

-- `strings.Join(values, ",")`
unfoldable pub join_commas : List Text → Text
join_commas [] = []
join_commas (value ∷ []) = value
join_commas (value ∷ next ∷ values) = value ++ b',' ∷ join_commas (next ∷ values)

abbrev pub is_separator : ℕ → Bool
is_separator c = c == b' ' || c == 9 || c == b','

-- `strings.TrimLeft(list, " \t,")`
unfoldable pub trim_separators : Text → Text
trim_separators [] = []
trim_separators (c ∷ s) = let rest = trim_separators s in if is_separator c then rest else c ∷ s

-- `strings.TrimPrefix(list, "W/")`
abbrev pub trim_weak : Text → Text
trim_weak [] = []
trim_weak (c ∷ []) = c ∷ []
trim_weak (c ∷ d ∷ s) = if c == b'W' && d == b'/' then s else c ∷ d ∷ s

abbrev pub extend : ℕ → Option (Text × Text) → Option (Text × Text)
extend c none = none
extend c (some (before, after)) = some (c ∷ before, after)

-- `strings.Cut(quoted, "\"")`, none if there is no quote.
unfoldable pub cut_quote : Text → Option (Text × Text)
cut_quote [] = none
cut_quote (c ∷ s) = let rest = cut_quote s in if c == quote then some ([], s) else extend c rest

abbrev pub starts_with_star : Text → Bool
starts_with_star [] = false
starts_with_star (c ∷ s) = c == b'*'

-- What is quoted, if the list goes on with a quote that is closed, and what follows it.
abbrev pub cut_opening : Text → Option (Text × Text)
cut_opening [] = none
cut_opening (c ∷ s) = if c == quote then cut_quote s else none

abbrev pub quoted : Text → Text
quoted opaque = quote ∷ opaque ++ quote ∷ []

-- The loop of `holdsTag`, on fuel.
unfoldable pub holds_tag_in : ℕ → Text → Text → Bool
unfolding trim_separators cut_quote
holds_tag_in zero tag list = false
holds_tag_in (suc fuel) tag list =
    if starts_with_star (trim_separators list)
    then true
    else elim (cut_opening (trim_weak (trim_separators list))) [
      | none ↦ false
      | some found ↦
          let rest = holds_tag_in fuel tag found.1 in
          if text_eq (quoted found.0) tag then true else rest
    ]

-- `holdsTag`
unfoldable pub holds_tag : Request → Text → Bool
unfolding holds_tag_in join_commas
holds_tag r tag = let list = join_commas r.if_none_match in holds_tag_in (length list + 1) tag list

abbrev pub varied : Option (Request → Text) → Request → Text
varied none r = []
varied (some varies) r = 0 ∷ varies r

-- `etagOf`: the hash of the path, the query, and what is given after it, if the query can be
-- spelled out, is an argument, and so is how a number is written in hexadecimal digits.
unfoldable pub etag_of {ℓ} :
    {Q : Type ℓ}
    → (Text → Text)
    → (Q → Option Text)
    → Option (Request → Text)
    → Request
    → Text
    → Q
    → Text
etag_of hash spell_out varies r revision query = elim (spell_out query) [
  | none ↦ []
  | some spelled ↦
      let resource = r.path ++ b'?' ∷ r.raw_query ++ 0 ∷ spelled in
      let hashed = hash (resource ++ varied varies r) in
      if is_empty revision then [] else quoted (revision ++ b'-' ∷ hashed)
]

-- The answer of `serveUnchanged`, with the headers of `writeRevision`.
unfoldable pub unchanged : Text → Text → Response
unchanged revision tag = record {
  status = 304;
  cache_control = if is_empty revision then no_store else private_no_cache;
  revision = revision;
  etag = if is_empty revision then [] else tag;
  content = no_content;
}

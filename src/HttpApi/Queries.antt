-- ===== src/HttpApi/Queries.antt =====
-- Queries: `Ask`, `Query`, `Revisioned`, `Awaiting`, and `Varying` of
-- architecturekit/httpapi/query.go, `Await` and `answerRevisioned` of
-- architecturekit/httpapi/revision.go, and `methodOf` of architecturekit/httpapi/httpapi.go.
use architecturekit_golang.Base.{
  ℕ, Bool, true, false, not, ◌&&◌, ◌||◌, Option, none, some, List, [], ◌∷◌, ◌==◌, if◌then◌else◌,
  nat_eq, Text, codes, text_eq, text_has_eq, is_empty,
}
use architecturekit_golang.Failure.{malformed, http_panic, Result, ok, fail, wrapping_cause}
use architecturekit_golang.Revision.{parse_revision}
use architecturekit_golang.HttpApi.{
  Called, returns, errs, panics, aborts, ◌then◌, recovered, Request, Served, answers, aborted,
}
use architecturekit_golang.HttpApi.Bodies.{Decoding, Accepted, accepted}
use architecturekit_golang.HttpApi.Commands.{build, answer_error, respond_result_at}
use architecturekit_golang.HttpApi.Tags.{holds_tag, etag_of, unchanged}

-- The interface `Revisioned` of a view: how waiting ends, whether its time has run out by then, when
-- the query was asked and when waiting has ended, and the revision at a moment.
pub record RevisionedView : Type 0 where
  pub wait_for : ℕ → Text → Called Accepted
  pub waiting_ended : Bool
  pub asked_at : ℕ
  pub waited_until : ℕ
  pub revision : ℕ → Called Text

-- What `Await` makes of the end of waiting.
abbrev pub waited : Bool → Called Accepted → Called Accepted
waited has_ended (errs err) = if has_ended then returns accepted else errs err
waited has_ended call = call

abbrev pub await_parsed : RevisionedView → ℕ → Text → Result ℕ → Called Accepted
await_parsed view wait wanted (fail err) = errs (wrapping_cause malformed err)
await_parsed view wait wanted (ok number) = waited view.waiting_ended (view.wait_for wait wanted)

-- `Await`
unfoldable pub await : RevisionedView → ℕ → Request → Called Accepted
unfolding parse_revision
await view wait r =
    if is_empty r.wait_for_revision
    then returns accepted
    else await_parsed view wait r.wait_for_revision (parse_revision r.wait_for_revision)

-- The moment at which `Await` returns, at once for a request that names no revision.
abbrev pub moment_after : RevisionedView → Request → ℕ
moment_after view r = if is_empty r.wait_for_revision then view.asked_at else view.waited_until

-- `querySettings`
pub record QuerySettings : Type 0 where
  pub view : Option RevisionedView
  pub wait : ℕ
  pub is_tagged : Bool
  pub varies : Option (Request → Text)

abbrev pub no_settings : QuerySettings
no_settings = record { view = none; wait = 0; is_tagged = false; varies = none }

-- The options of Query, nil among them, with what they are given; a view may be nil, and a wait
-- may be negative.
pub data QueryOption : Type 0 where
  revisioned awaiting : Option RevisionedView → Option ℕ → QueryOption
  varying : Option (Request → Text) → QueryOption
  nil_option : QueryOption

abbrev pub if_new : Option RevisionedView → QuerySettings → Option QuerySettings
if_new none settings = some settings
if_new (some view) settings = none

abbrev pub if_not_varied : Option (Request → Text) → QuerySettings → Option QuerySettings
if_not_varied none settings = some settings
if_not_varied (some varies) settings = none

-- Making and applying an option, none if either panics.
unfoldable pub apply_query_option : QueryOption → QuerySettings → Option QuerySettings
apply_query_option (revisioned (some view) (some wait)) settings =
    if_new settings.view (record settings { view = some view; wait = wait; is_tagged = true })
apply_query_option (awaiting (some view) (some wait)) settings =
    if_new settings.view (record settings { view = some view; wait = wait })
apply_query_option (varying (some varies)) settings =
    if_not_varied settings.varies (record settings { varies = some varies })
apply_query_option _ settings = none

abbrev pub if_some {ℓ κ} : {A : Type ℓ} {B : Type κ} → Option A → (A → Option B) → Option B
if_some none f = none
if_some (some a) f = f a

unfoldable pub apply_query_options : List QueryOption → QuerySettings → Option QuerySettings
unfolding apply_query_option
apply_query_options [] settings = some settings
apply_query_options (option ∷ options) settings =
    if_some (apply_query_option option settings) (apply_query_options options)

-- What comes before the first space or tab, none if there is neither.
unfoldable pub before_blank : Text → Option Text
before_blank [] = none
before_blank (c ∷ s) =
    let rest = before_blank s in
    if c == b' ' || c == 9 then some [] else if_some rest (λ before. some (c ∷ before))

abbrev pub or_nothing : Option Text → Text
or_nothing none = []
or_nothing (some s) = s

-- `methodOf`
unfoldable pub method_of : Text → Text
unfolding before_blank
method_of pattern = or_nothing (before_blank pattern)

-- Whether Route accepts the method of a pattern.
unfoldable pub may_change : Text → Bool
may_change method =
    not (is_empty method)
    && not (
        text_eq method (codes "GET")
        || text_eq method (codes "HEAD")
        || text_eq method (codes "OPTIONS")
        || text_eq method (codes "QUERY"))

abbrev pub is_some {ℓ} : {A : Type ℓ} → Option A → Bool
is_some none = false
is_some (some a) = true

-- What Query wires a pattern with, none if it panics.
unfoldable pub query_settings : Text → List QueryOption → Option QuerySettings
unfolding method_of apply_query_options
query_settings pattern options =
    if not (text_eq (method_of pattern) (codes "QUERY"))
    then none
    else if_some (apply_query_options options no_settings) (λ settings.
      if is_some settings.varies && not settings.is_tagged then none else some settings)

-- What a query is wired with: the functions of the application, how a request is decoded and a
-- result is encoded, and the hash and the spelling of a query that its tag is made of.
pub record Asked {ℓ} (U A Q R : Type ℓ) : Type ℓ where
  pub user_from : Request → Called U
  pub decoding : Decoding A
  pub to_query : Request → A → U → Called Q
  pub answer : Q → Called R
  pub encode : R → Called Text
  pub hash : Text → Text
  pub spell_out : Q → Option Text

-- `answerPanic`, for a handler that answers or fails with an error.
unfoldable pub served : Called Served → Served
unfolding answer_error
served (returns answered_with) = answered_with
served (errs err) = answer_error err []
served (panics value) = answer_error (http_panic value) []
served aborts = aborted

module _ {ℓ} {U A Q R : Type ℓ} where
  -- `Ask`
  unfoldable pub ask : Asked U A Q R → Request → Called R
  unfolding build
  ask asked r = recovered (build asked.user_from asked.decoding asked.to_query r then asked.answer)

  -- The answer to a query that is asked for a revision, once that is read.
  unfoldable pub answer_at : Asked U A Q R → Option (Request → Text) → Request → Q → Text → Served
  unfolding etag_of holds_tag unchanged respond_result_at
  answer_at asked varies r query revision =
      let tag = etag_of asked.hash asked.spell_out varies r revision query in
      if not (is_empty tag) && holds_tag r tag
      then answers (unchanged revision tag) []
      else respond_result_at asked.encode revision tag [] (asked.answer query)

  -- `answerRevisioned`
  unfoldable pub answer_revisioned :
      Asked U A Q R → RevisionedView → QuerySettings → Request → Served
  unfolding served build await answer_at respond_result_at
  answer_revisioned asked view settings r = served (
      build asked.user_from asked.decoding asked.to_query r then (λ query.
        await view settings.wait r then (λ reached.
          if not settings.is_tagged
          then returns (respond_result_at asked.encode [] [] [] (asked.answer query))
          else view.revision (moment_after view r)
            then (λ revision. returns (answer_at asked settings.varies r query revision)))))

  -- The handler that `Query` wires up.
  unfoldable pub serve_query : Asked U A Q R → QuerySettings → Request → Served
  unfolding ask answer_revisioned respond_result_at
  serve_query asked settings r = elim settings.view [
    | none ↦ respond_result_at asked.encode [] [] [] (ask asked r)
    | some view ↦ answer_revisioned asked view settings r
  ]

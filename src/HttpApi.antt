-- ===== src/HttpApi.antt =====
-- The HTTP API: architecturekit/httpapi. A request and an answer are values; what net/http, the
-- decoder, and the encoder do with them are arguments, and so are the functions of an application.
-- The texts of errors are left out.
pub mod Statuses
pub mod Precedence
pub mod Messages
pub mod Bodies
pub mod Commands
pub mod BeforeRunning
pub mod Tags
pub mod TagLists
pub mod Named
pub mod Queries
pub mod Answers
pub mod Unchanged
pub mod Succeeded
use architecturekit_golang.Base.{
  ℕ, zero, suc, ◌+◌, ◌-◌, ◌*◌, ◌/◌, ◌%◌, ◌^◌, ◌≤◌, ◌<◌, min, max, compare, Ordering, ◌≡◌, refl, sym,
  ap, ◌∙◌, subst, fun_ext, ◌≢◌, ◌↔◌, ◌⊎◌, inl, inr, Bool, true, false, not, ◌&&◌, ◌||◌, Option,
  none, some, List, [], ◌∷◌, ◌++◌, map, arith, ltb, leb, ◌==◌, if◌then◌else◌, ltb→lt, lt→ltb,
  leb→le, le→leb, ==_iff, Bool-cases, Option-cases, Eq, nat_eq, beq_refl, length, get_elem?, All,
  Exists, length-append, append_assoc, append_nil, get_elem?-append, get_elem?-last, length-map,
  All-append, All-map_implies, Text, codes, text_eq, text_eq_iff, text_has_eq, is_empty, Dict,
  lookup, assign, remove, IsDistinct, lookup-assign, lookup-remove, length-assign_absent,
  length-assign_present, length-remove, assign-IsDistinct, remove-IsDistinct,
}
use architecturekit_golang.Failure.{
  Sentinel, domain, transient, permanent, conflict, unverified, outcome_unknown, not_a_revision,
  empty_range, not_caught_up, no_items, too_many_items, unauthorized, forbidden, too_large,
  unsupported_media_type, malformed, not_found, canceled, deadline_exceeded, not_run, http_panic,
  is_before_running, matches, Failure, sentinel, wrap, foreign, answered, domain_error,
  apply_failure, panic_error, without_context_end, Failures, end, also, is, is_any, answer_of,
  Answer, Code, Result, Result-cases, ok, fail, ◌>>=◌, wrapping, wrapping_cause, join,
}

-- How a call into other code ends; `aborts` is a panic with http.ErrAbortHandler.
pub data Called {ℓ} (A : Type ℓ) : Type ℓ where
  returns : A → Called A
  errs : Failure → Called A
  panics : ℕ → Called A
  aborts : Called A

infixl 5 ◌then◌
abbrev pub ◌then◌ {ℓ κ} : {A : Type ℓ} {B : Type κ} → Called A → (A → Called B) → Called B
returns a then f = f a
errs err then f = errs err
panics value then f = panics value
aborts then f = aborts

abbrev pub called {ℓ} : {A : Type ℓ} → Result A → Called A
called (ok a) = returns a
called (fail err) = errs err

-- `recoverInto`, for a function that returns a value and an error.
abbrev pub recovered {ℓ} : {A : Type ℓ} → Called A → Called A
recovered (panics value) = errs (http_panic value)
recovered call = call

-- How reading the body of a request ends.
pub data BodyEnd : Type 0 where
  at_eof : BodyEnd
  over_limit : BodyEnd  -- an http.MaxBytesError, of a middleware
  unreadable : Failure → BodyEnd

pub record Body : Type 0 where
  pub bytes : Text
  pub ending : BodyEnd

-- The fields of http.Request that the API reads. `media_type` is what mime.ParseMediaType makes of
-- the Content-Type, and `is_cross_origin` whether http.CrossOriginProtection refuses the request.
pub record Request : Type 0 where
  pub method : Text
  pub path : Text
  pub raw_query : Text
  pub content_type : Text
  pub media_type : Option Text
  pub is_cross_origin : Bool
  pub body : Option Body
  pub wait_for_revision : Text
  pub if_none_match : List Text

-- The messages of a failure; `own_text` is the text of the error.
pub data Message : Type 0 where
  outcome_unknown_text not_visible_text internal_text unauthorized_text conflict_text : Message
  canceled_text not_found_text : Message
  own_text : Failure → Message

-- What is logged: an internal failure, a refusal, and a command whose fields are incomplete, with
-- why they were dropped.
pub data Logged : Type 0 where
  internal_failure refused : ℕ → Failure → Logged
  incomplete : Failure → Option Failure → Logged

pub data CacheControl : Type 0 where
  no_store private_no_cache : CacheControl

-- What an answer holds: an encoded result, a message, or nothing.
pub data Content : Type 0 where
  encoded : Text → Content
  says : Message → Content
  no_content : Content

-- An answer, with the headers that the API sets; an empty header is not set.
pub record Response : Type 0 where
  pub status : ℕ
  pub cache_control : CacheControl
  pub revision : Text
  pub etag : Text
  pub content : Content

-- What became of a request: it is answered, with what is logged on the way, or aborted.
pub data Served : Type 0 where
  answers : Response → List Logged → Served
  aborted : Served

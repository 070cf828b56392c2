-- ===== src/Tests/Requests.antt =====
-- Requests, their answers, and the tags of answers, as in the tests of architecturekit/httpapi.
use architecturekit_golang.Base.{
  if◌then◌else◌, ◌==◌, ℕ, ◌+◌, ◌≤◌, ◌≡◌, refl, ◌≢◌, ◌⊎◌, true, false, ◌||◌, none, some, List, [],
  ◌∷◌, arith, nat_eq, All, Text, codes, text_eq, text_has_eq,
}
use architecturekit_golang.Failure.{
  transient, outcome_unknown, not_caught_up, forbidden, Failure, sentinel, is, wrapping,
  wrapping_cause,
}
use architecturekit_golang.Stored.{StoredEvent}
use architecturekit_golang.HttpApi.{
  Called, returns, errs, Request, at_eof, Response, no_content, private_no_cache, own_text,
  canceled_text,
}
use architecturekit_golang.HttpApi.Statuses.{status_for_error, message_for, logged_for}
use architecturekit_golang.HttpApi.Precedence.{status_for_error-fails}
use architecturekit_golang.HttpApi.Messages.{message_for-hides, is_for_caller}
use architecturekit_golang.HttpApi.Bodies.{Decoding, takes_json, accepted}
use architecturekit_golang.HttpApi.Commands.{Route, Added, FieldCoding, build}
use architecturekit_golang.HttpApi.BeforeRunning.{FailsQuietly, build-FailsQuietly}
use architecturekit_golang.HttpApi.Tags.{holds_tag, holds_tag_in, join_commas}
use architecturekit_golang.HttpApi.TagLists.{
  TagEntry, IsTagEntry, holds_tag_in-ends, holds_tag-spelled,
}
use architecturekit_golang.HttpApi.Queries.{
  RevisionedView, QuerySettings, Asked, serve_query, method_of, query_settings, revisioned,
  awaiting, varying,
}
use architecturekit_golang.HttpApi.Answers.{AnswersProperly, serve_query-AnswersProperly}

-- A request whose caller holds the tags "6-0", as a weak one, and "7-0".
abbrev request : Request
request = record {
  method = codes "QUERY";
  path = codes "/api/books";
  raw_query = [];
  content_type = codes "application/json";
  media_type = some (codes "application/json");
  is_cross_origin = false;
  body = some record { bytes = codes "{}"; ending = at_eof };
  wait_for_revision = codes "7";
  if_none_match = codes "W/\"6-0\"" ∷ codes "\"7-0\"" ∷ [];
}

status_for_error-fails_on_sample :
    (400 ≤ status_for_error (wrapping outcome_unknown))
    × (status_for_error (wrapping outcome_unknown) ≤ 503)
    × ((is outcome_unknown (wrapping outcome_unknown)
            || is not_caught_up (wrapping outcome_unknown))
          ≡ true
        → (status_for_error (wrapping outcome_unknown) ≢ 409)
          × (status_for_error (wrapping outcome_unknown) ≢ 499)
          × (status_for_error (wrapping outcome_unknown) ≢ 503))
status_for_error-fails_on_sample = status_for_error-fails (wrapping outcome_unknown)

abbrev denied : Failure
denied = wrapping_cause forbidden (sentinel transient)

message_for-hides_example :
    ((told : Failure)
      → message_for (status_for_error denied) denied ≡ own_text told
      → (told ≡ denied) × (is_for_caller denied ≡ true))
    × (logged_for (status_for_error denied) denied ≡ []
        → (message_for (status_for_error denied) denied ≡ own_text denied)
          ⊎ (message_for (status_for_error denied) denied ≡ canceled_text))
message_for-hides_example = message_for-hides denied

-- The session store does not know whether it stored the session.
abbrev failing_user : Request → Called ℕ
failing_user r = errs (wrapping outcome_unknown)

abbrev decoding : Decoding ℕ
decoding = takes_json (λ bytes. none) (λ bytes. returns 1)

abbrev to_command : Request → ℕ → ℕ → Called ℕ
to_command r asked user = returns (asked + user)

build-FailsQuietly_example : FailsQuietly (build failing_user decoding to_command request)
build-FailsQuietly_example = build-FailsQuietly failing_user decoding to_command request

holds_tag_in-ends_on_sample :
    holds_tag_in 20 (codes "\"7-0\"") (codes "W/\"6-0\",\"7-0\"")
    ≡ holds_tag_in 15 (codes "\"7-0\"") (codes "W/\"6-0\",\"7-0\"")
holds_tag_in-ends_on_sample =
    holds_tag_in-ends 15 5 (codes "\"7-0\"") (codes "W/\"6-0\",\"7-0\"") (omega arith)

abbrev entries : List TagEntry
entries =
    record { is_weak = true; opaque = codes "6-0"; after = codes "," }
    ∷ record { is_weak = false; opaque = codes "7-0"; after = [] }
    ∷ []

all_entries : All IsTagEntry entries
all_entries = (
  ((λ p. ground arith, (λ p. ground arith, (λ p. ground arith, tt))), (refl, tt)),
  (((λ p. ground arith, (λ p. ground arith, (λ p. ground arith, tt))), tt), tt),
)

holds_tag-spelled_on_sample : holds_tag request (codes "\"7-0\"") ≡ true
unfolding text_eq join_commas
holds_tag-spelled_on_sample =
    holds_tag-spelled request (codes "\"7-0\"") [] entries refl tt all_entries

abbrev view : RevisionedView
view = record {
  wait_for = λ wait wanted. returns accepted;
  waiting_ended = false;
  asked_at = 1;
  waited_until = 4;
  revision = λ now. if now == 4 then returns (codes "7") else returns (codes "6");
}

abbrev settings : QuerySettings
settings = record { view = some view; wait = 5; is_tagged = true; varies = none }

abbrev asked : Asked ℕ ℕ ℕ ℕ
asked = record {
  user_from = λ r. returns 1;
  decoding = decoding;
  to_query = to_command;
  answer = λ query. returns query;
  encode = λ result. returns (codes "2");
  hash = λ resource. codes "0";
  spell_out = λ query. some (codes "q");
}

serve_query-AnswersProperly_example : AnswersProperly (serve_query asked settings request)
serve_query-AnswersProperly_example = serve_query-AnswersProperly asked settings request

abbrev not_modified : Response
not_modified = record {
  status = 304;
  cache_control = private_no_cache;
  revision = codes "7";
  etag = codes "\"7-0\"";
  content = no_content;
}

abbrev written : StoredEvent
written = record {
  id = codes "7";
  source = [];
  subject = codes "/a";
  type = codes "t";
  payload = [];
}

abbrev coding : FieldCoding ℕ Text
coding = record {
  encode = λ value. returns [];
  decode_object = λ bytes. some ((codes "loan", codes "9") ∷ []);
}

abbrev write_event : ℕ → Called (List StoredEvent)
write_event command = returns (written ∷ [])

abbrev added : Added ℕ
added = record { value = 0; failure = some (sentinel transient) }

abbrev adding : ℕ → List StoredEvent → Called (Added ℕ)
adding command events = returns added

abbrev route : Route ℕ ℕ ℕ ℕ Text
route = record {
  user_from = λ r. returns 1;
  decoding = decoding;
  to_command = to_command;
  store = some write_event;
  adding = some adding;
  coding = coding;
  text_value = λ s. s;
  encode_answer = λ answer. returns (codes "{}");
}

of_query : method_of (codes "QUERY /api/books") ≡ codes "QUERY"
unfolding method_of
of_query = refl

given_together :
    query_settings
      (codes "QUERY /a")
      (revisioned (some view) (some 5) ∷ awaiting (some view) (some 5) ∷ [])
    ≡ none
unfolding query_settings text_eq
given_together = refl

varying_alone : query_settings (codes "QUERY /a") (varying (some (λ r. [])) ∷ []) ≡ none
unfolding query_settings text_eq
varying_alone = refl

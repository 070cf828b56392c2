-- ===== src/HttpApi/Messages.antt =====
-- What the caller is told about an error, and what is logged: `explain` of
-- architecturekit/httpapi/httpapi.go.
use architecturekit_golang.Base.{◌≡◌, ◌⊎◌, Bool, true, ◌||◌, [], arith, nat_eq, text_has_eq}
use architecturekit_golang.Failure.{
  domain, not_a_revision, empty_range, forbidden, too_large, unsupported_media_type, malformed,
  not_found, Failure, is,
}
use architecturekit_golang.HttpApi.{canceled_text, own_text}
use architecturekit_golang.HttpApi.Statuses.{status_for_error, message_for, logged_for}

-- The errors that are written for the caller.
abbrev pub is_for_caller : Failure → Bool
is_for_caller err =
    is forbidden err
    || is too_large err
    || is unsupported_media_type err
    || is malformed err
    || is not_found err
    || is domain err
    || is not_a_revision err
    || is empty_range err

own_text-is_for_caller :
    (err told : Failure)
    → message_for (status_for_error err) err ≡ own_text told
    → (told ≡ err) × (is_for_caller err ≡ true)
unfolding message_for status_for_error
own_text-is_for_caller err told h = ground arith

not_logged :
    (err : Failure)
    → logged_for (status_for_error err) err ≡ []
    → (message_for (status_for_error err) err ≡ own_text err)
      ⊎ (message_for (status_for_error err) err ≡ canceled_text)
unfolding message_for status_for_error logged_for
not_logged err h = ground arith

-- The caller is told the text of an error only if the error is written for the caller. What the
-- caller is told instead of any other error leaves nothing unlogged, except that a request was
-- canceled.
pub message_for-hides :
    (err : Failure)
    → ((told : Failure)
        → message_for (status_for_error err) err ≡ own_text told
        → (told ≡ err) × (is_for_caller err ≡ true))
      × (logged_for (status_for_error err) err ≡ []
          → (message_for (status_for_error err) err ≡ own_text err)
            ⊎ (message_for (status_for_error err) err ≡ canceled_text))
message_for-hides err = (own_text-is_for_caller err, not_logged err)

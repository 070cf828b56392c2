-- ===== src/HttpApi/Bodies.antt =====
-- The body of a request: `BodyOf`, `requireJSON`, `requireNoBody`, and `readBody` of
-- architecturekit/httpapi/httpapi.go. Decoding is an argument.
use architecturekit_golang.Base.{
  ℕ, zero, suc, ◌+◌, ◌^◌, Option, none, some, List, [], ◌∷◌, ltb, leb, if◌then◌else◌, nat_eq,
  length, Text, codes, text_eq, text_has_eq, is_empty,
}
use architecturekit_golang.Failure.{
  forbidden, too_large, unsupported_media_type, malformed, Failure, foreign, end, also, wrapping,
  wrapping_cause,
}
use architecturekit_golang.HttpApi.{
  Called, returns, errs, panics, ◌then◌, BodyEnd, at_eof, over_limit, unreadable, Body, Request,
}

-- `MaxRequestBody`
abbrev pub max_request_body : ℕ
max_request_body = 2 ^ 20

module _ {ℓ} {A : Type ℓ} where
  unfoldable pub first_bytes : ℕ → List A → List A
  first_bytes zero xs = []
  first_bytes (suc n) [] = []
  first_bytes (suc n) (x ∷ xs) = x ∷ first_bytes n xs

-- `io.ReadAll(io.LimitReader(body, limit))`, with the error that comes along with the bytes.
unfoldable pub read_limited : ℕ → Body → Text × BodyEnd
read_limited limit body =
    if leb limit (length body.bytes)
    then (first_bytes limit body.bytes, at_eof)
    else (body.bytes, body.ending)

-- What `readBody` makes of the bytes, and of the error that comes along with them.
abbrev pub within_limit : Text × BodyEnd → Called Text
within_limit (bytes, over_limit) = errs (wrapping too_large)
within_limit (bytes, unreadable err) = errs (wrapping_cause malformed (foreign 0 (also err end)))
within_limit (bytes, at_eof) =
    if ltb max_request_body (length bytes) then errs (wrapping too_large) else returns bytes

-- `readBody`. Reading from a nil body panics.
unfoldable pub read_body : Option Body → Called Text
read_body none = panics 0
read_body (some body) = within_limit (read_limited (max_request_body + 1) body)

-- What a check hands out that returns no error.
pub data Accepted : Type 0 where
  accepted : Accepted

-- `requireJSON`
unfoldable pub require_json : Request → Called Accepted
require_json r =
    if is_empty r.content_type then errs (wrapping unsupported_media_type) else elim r.media_type [
      | none ↦ errs (wrapping unsupported_media_type)
      | some media_type ↦
          if text_eq media_type (codes "application/json")
          then returns accepted
          else errs (wrapping unsupported_media_type)
    ]

-- What `decodeStrictly[*NoBody]` makes of a body: a value, null, or an error.
pub data EmptyObject : Type 0 where
  an_object null_value no_object : EmptyObject

abbrev pub only_object : EmptyObject → Called Accepted
only_object an_object = returns accepted
only_object null_value = errs (wrapping malformed)
only_object no_object = errs (wrapping malformed)

-- What `requireNoBody` makes of the bytes of the body.
abbrev pub only_empty : (Text → EmptyObject) → Text → Called Accepted
only_empty decode_empty [] = returns accepted
only_empty decode_empty (c ∷ bytes) = only_object (decode_empty (c ∷ bytes))

-- `requireNoBody`
unfoldable pub require_no_body : (Text → EmptyObject) → Request → Called Accepted
unfolding read_body
require_no_body decode_empty r =
    if r.is_cross_origin then errs (wrapping forbidden) else elim r.body [
      | none ↦ returns accepted
      | some body ↦ read_body (some body) then only_empty decode_empty
    ]

-- How a type is decoded from a body: NoBody, or any other type, with `refuseNull` and
-- `decodeStrictly` for it.
pub data Decoding {ℓ} (A : Type ℓ) : Type ℓ where
  takes_no_body : A → (Text → EmptyObject) → Decoding A
  takes_json : (Text → Option Failure) → (Text → Called A) → Decoding A

module _ {ℓ} {A : Type ℓ} where
  -- An error of decoding is malformed.
  abbrev pub marked_malformed : Called A → Called A
  marked_malformed (errs err) = errs (wrapping_cause malformed err)
  marked_malformed call = call

  abbrev pub unless_null : Option Failure → Called A → Called A
  unless_null (some err) call = errs (wrapping_cause malformed err)
  unless_null none call = marked_malformed call

  -- What `BodyOf` makes of the bytes of a body.
  abbrev pub decoded : (Text → Option Failure) → (Text → Called A) → Text → Called A
  decoded refuse_null decode bytes = unless_null (refuse_null bytes) (decode bytes)

  -- `BodyOf`
  unfoldable pub body_of : Decoding A → Request → Called A
  unfolding require_json require_no_body read_body
  body_of (takes_no_body value decode_empty) r =
      require_no_body decode_empty r then (λ passed. returns value)
  body_of (takes_json refuse_null decode) r =
      require_json r then (λ passed. read_body r.body then decoded refuse_null decode)

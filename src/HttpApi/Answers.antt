-- ===== src/HttpApi/Answers.antt =====
-- The answers to commands and queries: the handlers of architecturekit/httpapi/httpapi.go and
-- architecturekit/httpapi/query.go.
use architecturekit_golang.Base.{
  ℕ, ◌≤◌, ◌≡◌, refl, ◌≢◌, ◌⊎◌, inl, inr, Bool, true, false, not, ◌&&◌, Option, List, [], ◌∷◌, arith,
  if◌then◌else◌, Bool-cases, Option-cases, nat_eq, Text, text_has_eq, is_empty,
}
use architecturekit_golang.Failure.{http_panic, Failure}
use architecturekit_golang.HttpApi.{
  Called, returns, errs, panics, aborts, ◌then◌, Request, Logged, no_store, private_no_cache,
  CacheControl, Content, encoded, says, no_content, Response, Served, answers, aborted,
}
use architecturekit_golang.HttpApi.Precedence.{status_for_error-fails}
use architecturekit_golang.HttpApi.Commands.{
  answer_error, answer_with, respond_result_at, encode_result, build,
}
use architecturekit_golang.HttpApi.Tags.{holds_tag, etag_of, unchanged}
use architecturekit_golang.HttpApi.Queries.{
  moment_after, QuerySettings, Asked, served, ask, await, answer_at, answer_revisioned, serve_query,
}

-- A cache may keep an answer only if it carries the revision that it shows, and only to ask again;
-- a tag comes with a revision.
abbrev IsCached : CacheControl → Text → Text → Type 0
IsCached no_store revision etag = (revision ≡ []) × (etag ≡ [])
IsCached private_no_cache revision etag = revision ≢ []

-- What every answer of the API keeps to: how it may be cached, and a status that goes with its
-- content.
abbrev HasStatus : Content → ℕ → Type 0
HasStatus (encoded bytes) status = status ≡ 200
HasStatus (says message) status = (400 ≤ status) × (status ≤ 503)
HasStatus no_content status = status ≡ 304

pub record IsProper (response : Response) : Type 0 where
  pub cached : IsCached response.cache_control response.revision response.etag
  pub has_status : HasStatus response.content response.status

abbrev pub AnswersProperly : Served → Type 0
AnswersProperly (answers response logged) = IsProper response
AnswersProperly aborted = Unit

pub answer_error-AnswersProperly :
    (err : Failure) (logged : List Logged) → AnswersProperly (answer_error err logged)
unfolding answer_error
answer_error-AnswersProperly err logged =
    let (low, high, rest) = status_for_error-fails err in
    record { cached = (refl, refl); has_status = (low, high) }

answer_with-IsProper : (revision tag body : Text) → IsProper (answer_with revision tag body)
unfolding answer_with
answer_with-IsProper [] tag body = record { cached = (refl, refl); has_status = refl }
answer_with-IsProper (c ∷ revision) tag body = record {
  cached = λ p. ground arith;
  has_status = refl;
}

unchanged-IsProper : (revision tag : Text) → IsProper (unchanged revision tag)
unfolding unchanged
unchanged-IsProper [] tag = record { cached = (refl, refl); has_status = refl }
unchanged-IsProper (c ∷ revision) tag = record { cached = λ p. ground arith; has_status = refl }

pub Called-cases {ℓ} :
    {A : Type ℓ} (call : Called A)
    → ((a : A) × (call ≡ returns a))
      ⊎ (((err : Failure) × (call ≡ errs err))
          ⊎ (((value : ℕ) × (call ≡ panics value)) ⊎ (call ≡ aborts)))
Called-cases (returns a) = inl (a, refl)
Called-cases (errs err) = inr (inl (err, refl))
Called-cases (panics value) = inr (inr (inl (value, refl)))
Called-cases aborts = inr (inr (inr refl))

pub respond_result_at-AnswersProperly {ℓ} :
    {R : Type ℓ} (encode : R → Called Text) (revision tag : Text) (logged : List Logged)
    (call : Called R)
    → AnswersProperly (respond_result_at encode revision tag logged call)
unfolding respond_result_at
respond_result_at-AnswersProperly encode revision tag logged (errs err) =
    answer_error-AnswersProperly err logged
respond_result_at-AnswersProperly encode revision tag logged (panics value) =
    answer_error-AnswersProperly (http_panic value) logged
respond_result_at-AnswersProperly encode revision tag logged aborts = tt
respond_result_at-AnswersProperly encode revision tag logged (returns result) =
    elim (Called-cases (encode_result encode result)) [
      | inl (body, e) ↦ rw (respond_result_at, e) (answer_with-IsProper revision tag body)
      | inr (inl (err, e)) ↦ rw (respond_result_at, e) (answer_error-AnswersProperly err logged)
      | inr (inr (inl (value, e))) ↦
          rw (respond_result_at, e) (answer_error-AnswersProperly (http_panic value) logged)
      | inr (inr (inr e)) ↦ rw (respond_result_at, e) tt
    ]

-- Whatever is returned satisfies a predicate.
abbrev pub Yields {ℓ κ} : {A : Type ℓ} → (A → Type κ) → Called A → Type κ
Yields P (returns a) = P a
Yields P call = Unit

pub then-Yields {ℓ κ ι} :
    {A : Type ℓ} {B : Type κ} (P : B → Type ι) (call : Called A) (f : A → Called B)
    → ((a : A) → call ≡ returns a → Yields P (f a))
    → Yields P (call then f)
then-Yields P (returns a) f h = h a refl
then-Yields P (errs err) f h = tt
then-Yields P (panics value) f h = tt
then-Yields P aborts f h = tt

pub if-Yields {κ ι} :
    {B : Type κ} (P : B → Type ι) (b : Bool) (x y : Called B)
    → Yields P x
    → Yields P y
    → Yields P (if b then x else y)
if-Yields P true x y hx hy = hx
if-Yields P false x y hx hy = hy

served-Yields : (call : Called Served) → Yields AnswersProperly call → AnswersProperly (served call)
unfolding served
served-Yields (returns s) h = h
served-Yields (errs err) h = answer_error-AnswersProperly err []
served-Yields (panics value) h = answer_error-AnswersProperly (http_panic value) []
served-Yields aborts h = tt

module _ {ℓ} {U A Q R : Type ℓ} where
  answer_at-AnswersProperly :
      (asked : Asked U A Q R) (varies : Option (Request → Text)) (r : Request) (query : Q)
      (revision : Text)
      → AnswersProperly (answer_at asked varies r query revision)
  unfolding answer_at
  answer_at-AnswersProperly asked varies r query revision =
      let tag = etag_of asked.hash asked.spell_out varies r revision query in
      elim (Bool-cases (not (is_empty tag) && holds_tag r tag)) [
        | inl held ↦ rw (answer_at, held) (unchanged-IsProper revision tag)
        | inr other ↦
            rw (answer_at, other)
              (respond_result_at-AnswersProperly asked.encode revision tag [] (asked.answer query))
      ]

  -- Every answer to a query has a status that goes with its content, 200 for a result, 304 for none,
  -- and one between 400 and 503 for a message, and it forbids caches to keep it, unless it carries
  -- the revision it shows, without which it has no tag either.
  pub serve_query-AnswersProperly :
      (asked : Asked U A Q R) (settings : QuerySettings) (r : Request)
      → AnswersProperly (serve_query asked settings r)
  unfolding serve_query answer_revisioned
  serve_query-AnswersProperly asked settings r = elim (Option-cases settings.view) [
    | inl no_view ↦
        rw (serve_query, no_view)
          (respond_result_at-AnswersProperly asked.encode [] [] [] (ask asked r))
    | inr (view, given) ↦
        rw (serve_query, given, answer_revisioned)
          (served-Yields _ (
            then-Yields AnswersProperly (build asked.user_from asked.decoding asked.to_query r) _
              (λ query built.
                then-Yields AnswersProperly (await view settings.wait r) _ (λ reached waited.
                  if-Yields AnswersProperly (not settings.is_tagged) _ _
                    (respond_result_at-AnswersProperly asked.encode [] [] [] (asked.answer query))
                    (then-Yields AnswersProperly (view.revision (moment_after view r)) _
                      (λ revision found.
                        answer_at-AnswersProperly asked settings.varies r query revision))))))
  ]

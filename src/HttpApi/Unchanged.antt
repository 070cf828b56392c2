-- ===== src/HttpApi/Unchanged.antt =====
-- Answers that say that nothing has changed: `answerRevisioned` and `serveUnchanged` of
-- architecturekit/httpapi/revision.go.
use architecturekit_golang.Base.{
  ◌++◌, Option, none, some, if◌then◌else◌, ◌≡◌, ◌≢◌, [], ◌∷◌, nat_eq, Text, text_has_eq, is_empty,
}
use architecturekit_golang.Failure.{Failure}
use architecturekit_golang.HttpApi.{returns, Request, Response, Served, answers, aborted}
use architecturekit_golang.HttpApi.Commands.{build}
use architecturekit_golang.HttpApi.Bodies.{Accepted}
use architecturekit_golang.HttpApi.Named.{NamesTag}
use architecturekit_golang.HttpApi.Tags.{join_commas}
use architecturekit_golang.HttpApi.Queries.{RevisionedView, QuerySettings, Asked, await}

-- The answer is another one than that nothing has changed.
abbrev IsFull : Served → Type 0
IsFull (answers response logged) = response.status ≢ 304
IsFull aborted = Unit

-- The tag of an answer: the revision, and the hash of the resource and the query, in quotes.
abbrev pub IsTagOf {ℓ} :
    {Q : Type ℓ}
    → (Text → Text)
    → (Q → Option Text)
    → Option (Request → Text)
    → Request
    → Text
    → Q
    → Text
    → Type 0
IsTagOf hash spell_out varies r revision query tag =
    (spelled : Text) × (spell_out query ≡ some spelled)
    × (revision ≢ [])
    × (tag
        ≡ b'"'
            ∷ (revision
                ++ b'-'
                  ∷ hash (
                      (r.path ++ b'?' ∷ r.raw_query ++ 0 ∷ spelled)
                      ++ (elim varies [ none ↦ [] | some volatile ↦ 0 ∷ volatile r ])))
          ++ b'"' ∷ [])

module _ {ℓ} {U A Q R : Type ℓ} (asked : Asked U A Q R) (view : RevisionedView)
    (settings : QuerySettings) (r : Request) where
  -- Why a query may be answered with 304: it was built, so the caller may ask it, waiting has ended,
  -- the revision was read, and the tag made of both is one that the caller holds.
  pub record MayBeUnchanged (response : Response) : Type ℓ where
    pub query : Q
    pub revision : Text
    pub built : build asked.user_from asked.decoding asked.to_query r ≡ returns query
    pub has_waited : (reached : Accepted) × (await view settings.wait r ≡ returns reached)
    pub at_revision :
        view.revision (if is_empty r.wait_for_revision then view.asked_at else view.waited_until)
        ≡ returns revision
    pub tagged : IsTagOf asked.hash asked.spell_out settings.varies r revision query response.etag
    pub held : NamesTag response.etag (join_commas r.if_none_match)

  abbrev Explained : Served → Type ℓ
  Explained (answers response logged) = response.status ≡ 304 → MayBeUnchanged response
  Explained aborted = Unit

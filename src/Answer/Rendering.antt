-- ===== src/Answer/Rendering.antt =====
-- answer/rendering.py: the citations of a verified answer, and the reference marks of each line.
-- The text around the marks (`_citation`'s wikilink, the list of sources) is not modelled.
pub mod Ordering
pub mod Numbering
use trustworthy_personal_kno.Prelude.{
  ℕ, suc, ◌≡◌, Bool, Option, none, some, List, [], ◌∷◌, ◌++◌, map, ◌==◌, nat_eq, contains,
  if◌then◌else◌, Text, Result, ok, raised, ◌>>=◌, or_else,
}
use trustworthy_personal_kno.Answer.Contracts.{
  Digest, AnswerEvidence, DraftAnswerClaim, AnswerDraft, AnswerCitation,
}
use trustworthy_personal_kno.Answer.Verification.{AnswerError, unknown_citation, chunk_ids}

-- `by_chunk.get(chunk_id)`: of evidence with one id the last is kept.
abbrev pub by_chunk : List AnswerEvidence → Digest → Option AnswerEvidence
by_chunk [] chunk_id = none
by_chunk (e ∷ es) chunk_id =
    or_else (by_chunk es chunk_id) (if e.chunk_id == chunk_id then some e else none)

-- The inner loop: one claim's citations, each appended the first time that it is met.
unfoldable pub order_citations :
    List AnswerEvidence → List Digest → List Digest → Result AnswerError (List Digest)
order_citations evidence [] ordered = ok ordered
order_citations evidence (chunk_id ∷ ids) ordered =
    let rest =
      order_citations evidence ids
        (if contains ordered chunk_id then ordered else ordered ++ (chunk_id ∷ [])) in
    elim (by_chunk evidence chunk_id) [ none ↦ raised unknown_citation | some e ↦ rest ]

-- The outer loop, over the claims.
unfoldable pub order_claims :
    List AnswerEvidence → List DraftAnswerClaim → List Digest → Result AnswerError (List Digest)
order_claims evidence [] ordered = ok ordered
order_claims evidence (claim ∷ claims) ordered =
    order_citations evidence claim.citation_chunk_ids ordered >>= order_claims evidence claims

unfoldable pub citation : ℕ → AnswerEvidence → AnswerCitation
citation number e = record {
  number = number;
  chunk_id = e.chunk_id;
  note_id = e.note_id;
  curated_version_id = e.curated_version_id;
  source_version_ids = e.source_version_ids;
  quality_status = e.quality_status;
  vault_path = e.vault_path;
  heading_path = e.heading_path;
}

-- `enumerate(ordered_ids, start=number)`; the subscript of the source finds each id.
unfoldable pub number_citations :
    List AnswerEvidence → ℕ → List Digest → Result AnswerError (List AnswerCitation)
number_citations evidence number [] = ok []
number_citations evidence number (chunk_id ∷ ids) =
    let rest = number_citations evidence (suc number) ids in
    elim (by_chunk evidence chunk_id) [
      | none ↦ raised unknown_citation
      | some e ↦ rest >>= λ cs. ok (citation number e ∷ cs)
    ]

-- `number_by_id`: of citations with one id the last is kept.
abbrev pub number_by_id : List AnswerCitation → Digest → Option ℕ
number_by_id [] chunk_id = none
number_by_id (c ∷ cs) chunk_id =
    or_else (number_by_id cs chunk_id) (if c.chunk_id == chunk_id then some c.number else none)

-- A rendered line: the statement of a claim and the numbers behind it.
pub record Line : Type 0 where
  pub statement : Text
  pub marks : List (Option ℕ)

unfoldable pub render_verified_answer :
    AnswerDraft → List AnswerEvidence → Result AnswerError (List Line × List AnswerCitation)
render_verified_answer draft evidence = do
  ordered ← order_claims evidence draft.claims []
  citations ← number_citations evidence 1 ordered
  ok (
    map
        (λ (c : DraftAnswerClaim). record {
          statement = c.statement;
          marks = map (number_by_id citations) c.citation_chunk_ids;
        })
        draft.claims,
    citations,
  )

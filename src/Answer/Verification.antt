-- ===== src/Answer/Verification.antt =====
-- answer/verification.py: the deterministic checks of a generated draft.
pub mod Grounding
use trustworthy_personal_kno.Prelude.{
  ℕ, zero, suc, ◌≡◌, Bool, true, false, not, ◌&&◌, ◌||◌, Option, none, some, List, [], ◌∷◌, map,
  ltb, leb, ◌==◌, nat_eq, contains, subset, distinct, length, all, if◌then◌else◌, Result, ok,
  raised, ◌>>=◌, ◌>>◌, require, or_else,
}
use trustworthy_personal_kno.Answer.Contracts.{
  Digest, AnswerEvidence, DraftAnswerClaim, AnswerDraft, CitationSupportDecision,
  CitationVerificationOutput,
}

-- `AnswerIntegrityError` by its message, and the `ValueError` over the limits.
pub data AnswerError : Type 0 where
  limits_not_positive too_many_claims evidence_not_unique no_evidence : AnswerError
  claim_too_long citation_outside_evidence : AnswerError
  not_every_claim_decided claim_not_supported unknown_citation : AnswerError

abbrev pub chunk_ids : List AnswerEvidence → List Digest
chunk_ids = map (λ (e : AnswerEvidence). e.chunk_id)

-- `for claim in draft.claims: ...`, the first failing claim raises.
unfoldable pub check_claims :
    ℕ → List Digest → List DraftAnswerClaim → Result AnswerError (Unit {0})
check_claims max_characters allowed [] = ok tt
check_claims max_characters allowed (claim ∷ claims) = do
  let rest = check_claims max_characters allowed claims
  require (leb (length claim.statement) max_characters) claim_too_long
  require (subset claim.citation_chunk_ids allowed) citation_outside_evidence
  rest

unfoldable pub validate_citation_closed_set :
    AnswerDraft → List AnswerEvidence → ℕ → ℕ → Result AnswerError (Unit {0})
validate_citation_closed_set draft evidence max_claims max_claim_characters = do
  require (leb 1 max_claims && leb 1 max_claim_characters) limits_not_positive
  require (leb (length draft.claims) max_claims) too_many_claims
  require (distinct (chunk_ids evidence)) evidence_not_unique
  require (leb 1 (length evidence)) no_evidence
  check_claims max_claim_characters (chunk_ids evidence) draft.claims

abbrev pub claim_indexes : List CitationSupportDecision → List ℕ
claim_indexes = map (λ (d : CitationSupportDecision). d.claim_index)

-- `by_index.get(index)`: of decisions with one index the last is kept.
abbrev pub by_index : List CitationSupportDecision → ℕ → Option CitationSupportDecision
by_index [] index = none
by_index (d ∷ ds) index =
    or_else (by_index ds index) (if d.claim_index == index then some d else none)

-- `range(start, start + n)`.
abbrev pub range_from : ℕ → ℕ → List ℕ
range_from start zero = []
range_from start (suc n) = start ∷ range_from (suc start) n

-- The decision supports its claim, on evidence that the claim cites.
abbrev pub supports_claim : DraftAnswerClaim → Option CitationSupportDecision → Bool
supports_claim claim none = false
supports_claim claim (some d) =
    d.supported
    && leb 1 (length d.supporting_chunk_ids)
    && subset d.supporting_chunk_ids claim.citation_chunk_ids

unfoldable pub check_support :
    List CitationSupportDecision → ℕ → List DraftAnswerClaim → Result AnswerError (Unit {0})
check_support decisions index [] = ok tt
check_support decisions index (claim ∷ claims) = do
  let rest = check_support decisions (suc index) claims
  require (supports_claim claim (by_index decisions index)) claim_not_supported
  rest

unfoldable pub validate_semantic_support :
    AnswerDraft → CitationVerificationOutput → Result AnswerError (Unit {0})
validate_semantic_support draft verification = do
  let indexes = claim_indexes verification.decisions
  let expected = range_from 0 (length draft.claims)
  require (distinct indexes && subset indexes expected && subset expected indexes)
      not_every_claim_decided
  check_support verification.decisions 0 draft.claims

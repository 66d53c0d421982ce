-- ===== src/Answer/Verification/Grounding.antt =====
-- What a draft satisfies that passed both checks of answer/verification.py.
use trustworthy_personal_kno.Prelude.{
  ℕ, suc, ◌≡◌, refl, true, ◌&&◌, Option, none, some, List, [], ◌∷◌, arith, leb, nat_eq, subset,
  subset-All, distinct, length, All, Member, ok, inl, and_split, require_inv,
}
use trustworthy_personal_kno.Answer.Contracts.{
  Digest, AnswerEvidence, DraftAnswerClaim, AnswerDraft, CitationSupportDecision,
  CitationVerificationOutput,
}
use trustworthy_personal_kno.Answer.Verification.{
  limits_not_positive, too_many_claims, evidence_not_unique, no_evidence, not_every_claim_decided,
  chunk_ids, check_claims, validate_citation_closed_set, by_index, range_from, supports_claim,
  check_support, validate_semantic_support, claim_indexes,
}

-- A claim whose citations all name evidence, and whose decision rests on some of them.
pub record IsGrounded (evidence : List AnswerEvidence) (decisions : List CitationSupportDecision)
    (index : ℕ) (claim : DraftAnswerClaim) : Type 0 where
  pub cites_evidence : All (λ c. Member c (chunk_ids evidence)) claim.citation_chunk_ids
  pub decision : CitationSupportDecision
  pub decided : by_index decisions index ≡ some decision
  pub supported : decision.supported ≡ true
  pub support : Digest
  pub named : Member support decision.supporting_chunk_ids
  pub cited : All (λ s. Member s claim.citation_chunk_ids) decision.supporting_chunk_ids

-- Every claim from the index on is grounded.
abbrev pub AllGrounded :
    List AnswerEvidence → List CitationSupportDecision → ℕ → List DraftAnswerClaim → Type 0
AllGrounded evidence decisions index [] = Unit
AllGrounded evidence decisions index (claim ∷ claims) =
    IsGrounded evidence decisions index claim × AllGrounded evidence decisions (suc index) claims

-- What the citation check establishes of the claims.
abbrev pub AllCite : List AnswerEvidence → List DraftAnswerClaim → Type 0
AllCite evidence =
    All (λ (c : DraftAnswerClaim). All (λ x. Member x (chunk_ids evidence)) c.citation_chunk_ids)

check_claims-AllCite :
    (limit : ℕ) (evidence : List AnswerEvidence) (claims : List DraftAnswerClaim)
    → check_claims limit (chunk_ids evidence) claims ≡ ok tt
    → AllCite evidence claims
unfolding check_claims
check_claims-AllCite limit evidence [] h = tt
check_claims-AllCite limit evidence (claim ∷ claims) h =
    let (short, h₁) = require_inv _ _ _ h in
    let (cites, h₂) = require_inv _ _ _ h₁ in
    (
      subset-All claim.citation_chunk_ids (chunk_ids evidence) cites,
      check_claims-AllCite limit evidence claims h₂,
    )

pub closed_set-AllCite :
    (draft : AnswerDraft) (evidence : List AnswerEvidence) (max_claims max_characters : ℕ)
    → validate_citation_closed_set draft evidence max_claims max_characters ≡ ok tt
    → AllCite evidence draft.claims
unfolding validate_citation_closed_set
closed_set-AllCite draft evidence max_claims max_characters h =
    let (positive, h₁) =
      require_inv (leb 1 max_claims && leb 1 max_characters) limits_not_positive _ h in
    let (few, h₂) = require_inv (leb (length draft.claims) max_claims) too_many_claims _ h₁ in
    let (unique, h₃) = require_inv (distinct (chunk_ids evidence)) evidence_not_unique _ h₂ in
    let (found, h₄) = require_inv (leb 1 (length evidence)) no_evidence _ h₃ in
    check_claims-AllCite max_characters evidence draft.claims h₄

-- A decision that supports its claim.
record Supports (claim : DraftAnswerClaim) (o : Option CitationSupportDecision) : Type 0 where
  decision : CitationSupportDecision
  decided : o ≡ some decision
  supported : decision.supported ≡ true
  support : Digest
  named : Member support decision.supporting_chunk_ids
  cited : All (λ s. Member s claim.citation_chunk_ids) decision.supporting_chunk_ids

first_of_nonempty : (xs : List Digest) → leb 1 (length xs) ≡ true → (x : Digest) × Member x xs
first_of_nonempty [] h = ground arith
first_of_nonempty (x ∷ xs) h = (x, inl refl)

supports_claim-Supports :
    (claim : DraftAnswerClaim) (o : Option CitationSupportDecision)
    → supports_claim claim o ≡ true
    → Supports claim o
supports_claim-Supports claim none h = cc
supports_claim-Supports claim (some d) h =
    let (front, within) = and_split _ (subset d.supporting_chunk_ids claim.citation_chunk_ids) h in
    let (supported, nonempty) = and_split d.supported _ front in
    let (x, m) = first_of_nonempty d.supporting_chunk_ids nonempty in
    record {
      decision = d;
      decided = refl;
      supported = supported;
      support = x;
      named = m;
      cited = subset-All d.supporting_chunk_ids claim.citation_chunk_ids within;
    }

check_support-AllGrounded :
    (evidence : List AnswerEvidence) (decisions : List CitationSupportDecision) (index : ℕ)
    (claims : List DraftAnswerClaim)
    → AllCite evidence claims
    → check_support decisions index claims ≡ ok tt
    → AllGrounded evidence decisions index claims
unfolding check_support
check_support-AllGrounded evidence decisions index [] a h = tt
check_support-AllGrounded evidence decisions index (claim ∷ claims) a h =
    let (holds, h₁) = require_inv _ _ _ h in
    let s : Supports claim (by_index decisions index) =
      supports_claim-Supports claim (by_index decisions index) holds in
    (
      record {
        cites_evidence = a.0;
        decision = s.decision;
        decided = s.decided;
        supported = s.supported;
        support = s.support;
        named = s.named;
        cited = s.cited;
      },
      check_support-AllGrounded evidence decisions (suc index) claims a.1 h₁,
    )

-- A draft that passes the citation check and the support check is grounded: each claim cites chunks
-- of the evidence alone, and the decision of its own index supports it by at least one chunk, all of
-- them cited by the claim.
pub validated_grounded :
    (draft : AnswerDraft) (evidence : List AnswerEvidence)
    (verification : CitationVerificationOutput) (max_claims max_characters : ℕ)
    → validate_citation_closed_set draft evidence max_claims max_characters ≡ ok tt
    → validate_semantic_support draft verification ≡ ok tt
    → AllGrounded evidence verification.decisions 0 draft.claims
unfolding validate_semantic_support
validated_grounded draft evidence verification max_claims max_characters closed support =
    let indexes : List ℕ = claim_indexes verification.decisions in
    let expected : List ℕ = range_from 0 (length draft.claims) in
    let (decided, checked) =
      require_inv (distinct indexes && subset indexes expected && subset expected indexes)
        not_every_claim_decided _ support in
    check_support-AllGrounded evidence verification.decisions 0 draft.claims
      (closed_set-AllCite draft evidence max_claims max_characters closed) checked

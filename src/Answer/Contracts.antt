-- ===== src/Answer/Contracts.antt =====
-- answer/contracts.py: the values of a trusted answer, with the fields that the service reads.
-- Identifiers and digests are fixed-length texts of one alphabet: they are kept as the numbers
-- that they spell.
use trustworthy_personal_kno.Prelude.{ℕ, Bool, Option, List, Text, nat_eq}
use trustworthy_personal_kno.Domain.Enums.Source.{Sensitivity}
use trustworthy_personal_kno.Domain.Enums.Claim.{ClaimStatus}

abbrev pub Digest : Type 0
Digest = ℕ

abbrev pub Identifier : Type 0
Identifier = ℕ

pub data QueryScope : Type 0 where
  auto general personal : QueryScope

pub data PlannedScope : Type 0 where
  general personal : PlannedScope

pub data RefusalCode : Type 0 where
  no_active_generation no_trusted_evidence evidence_not_locatable version_mismatch : RefusalCode
  stale_evidence retrieval_unavailable planning_failed generation_failed : RefusalCode
  citation_validation_failed policy_blocked : RefusalCode

pub data AnswerEventType : Type 0 where
  accepted planned retrieved verified answer refusal : AnswerEventType

pub record AnswerRequest : Type 0 where
  pub question : Text
  pub scope : QueryScope
  pub as_of : Option ℕ
  pub software_version : Option Text
  pub top_k : ℕ
  pub operation_id : Option Text

pub record QueryPlan : Type 0 where
  pub normalized_query : Text
  pub scope : PlannedScope
  pub requires_current : Bool
  pub target_version : Option Text
  pub include_opinions : Bool

pub record AnswerEvidence : Type 0 where
  pub chunk_id : Digest
  pub text : Text
  pub claim_ids : List Identifier
  pub quality_status : ClaimStatus
  pub sensitivity : Sensitivity
  pub note_id : Identifier
  pub curated_version_id : Identifier
  pub generation_id : Identifier
  pub vault_path : Text
  pub heading_path : List Text
  pub source_version_ids : List Identifier

pub record DraftAnswerClaim : Type 0 where
  pub statement : Text
  pub citation_chunk_ids : List Digest

pub record AnswerDraft : Type 0 where
  pub claims : List DraftAnswerClaim
  pub limitations : List Text

pub record CitationSupportDecision : Type 0 where
  pub claim_index : ℕ
  pub supported : Bool
  pub supporting_chunk_ids : List Digest

pub record CitationVerificationOutput : Type 0 where
  pub decisions : List CitationSupportDecision

pub record AnswerCitation : Type 0 where
  pub number : ℕ
  pub chunk_id : Digest
  pub note_id : Identifier
  pub curated_version_id : Identifier
  pub source_version_ids : List Identifier
  pub quality_status : ClaimStatus
  pub vault_path : Text
  pub heading_path : List Text

-- ===== src/Publication/Contracts.antt =====
-- publication/contracts.py: chunks, queries and retrieval results. Identifiers and digests are the
-- numbers that they spell; scores are compared and never computed here, and are numbers as well.
use trustworthy_personal_kno.Prelude.{ℕ, Bool, Option, List, Text}
use trustworthy_personal_kno.Domain.Enums.Source.{Sensitivity}
use trustworthy_personal_kno.Domain.Enums.Claim.{ClaimStatus}

-- A claim to publish: the fields that the chunker reads.
pub record CurationClaim : Type 0 where
  pub id : ℕ
  pub status : ClaimStatus
  pub sensitivity : Sensitivity
  pub valid_from : Option ℕ
  pub valid_to : Option ℕ
  pub freshness_at : Option ℕ

-- A curated note: the fields that the chunker reads.
pub record CurationArtifact : Type 0 where
  pub note_id : ℕ
  pub curated_version_id : ℕ
  pub body_markdown : Text
  pub claim_ids : List ℕ
  pub content_hash : ℕ

pub record KnowledgeChunk : Type 0 where
  pub chunk_id : ℕ
  pub note_id : ℕ
  pub curated_version_id : ℕ
  pub claim_ids : List ℕ
  pub text : Text
  pub heading_path : List Text
  pub ordinal : ℕ
  pub quality_status : ClaimStatus
  pub sensitivity : Sensitivity
  pub valid_from : Option ℕ
  pub valid_to : Option ℕ
  pub freshness_at : Option ℕ
  pub generation_id : ℕ
  pub generation_number : ℕ
  pub embedding_model : Text
  pub chunker_version : Text
  pub content_hash : ℕ

pub record IndexedChunk : Type 0 where
  pub chunk : KnowledgeChunk
  pub dense : List ℕ

pub record IndexProbe : Type 0 where
  pub chunk_id : ℕ
  pub curated_version_id : ℕ
  pub content_hash : ℕ

pub data RetrievalMode : Type 0 where
  hybrid bm25_only : RetrievalMode

pub record RetrievalQuery : Type 0 where
  pub text : Text
  pub top_k : ℕ
  pub candidate_k : ℕ
  pub allowed_quality_statuses : List ClaimStatus
  pub max_sensitivity : Sensitivity
  pub at : ℕ
  pub allow_stale : Bool

pub record VectorSearchHit : Type 0 where
  pub chunk : KnowledgeChunk
  pub score : ℕ

pub record RerankItem : Type 0 where
  pub chunk_id : ℕ
  pub text : Text
  pub score : ℕ

pub record RetrievalHit : Type 0 where
  pub chunk : KnowledgeChunk
  pub retrieval_score : ℕ
  pub rerank_score : Option ℕ

pub record RetrievalResult : Type 0 where
  pub hits : List RetrievalHit
  pub mode : RetrievalMode
  pub degraded : Bool
  pub generation_id : ℕ

pub record VectorSearchRequest : Type 0 where
  pub query : RetrievalQuery
  pub dense : List ℕ
  pub generation_number : ℕ
  pub rrf_k : ℕ

pub data ReconciliationSeverity : Type 0 where
  healthy repairable blocked : ReconciliationSeverity

pub record ExpectedPublication : Type 0 where
  pub artifact : CurationArtifact
  pub final_relative_path : Text
  pub generation_number : ℕ
  pub chunks : List KnowledgeChunk

pub data FindingCode : Type 0 where
  vault_verification_failed index_verification_failed publication_healthy index_drift : FindingCode
  index_repair_failed index_repaired : FindingCode

pub record ReconciliationFinding : Type 0 where
  pub code : FindingCode
  pub severity : ReconciliationSeverity
  pub note_id : ℕ
  pub curated_version_id : ℕ
  pub relative_path : Text
  pub repaired : Bool

-- ===== src/Answer/Evidence/Examples.antt =====
-- A hit that is resolved, and that is resolved no more once its note is deleted (answer/evidence.py).
use trustworthy_personal_kno.Prelude.{
  ℕ, ◌≡◌, ◌≢◌, refl, false, Option, none, some, List, [], ◌∷◌, All, codes, ok,
}
use trustworthy_personal_kno.Domain.Enums.Entity.{EntityType}
use trustworthy_personal_kno.Domain.Enums.Source.{Sensitivity}
use trustworthy_personal_kno.Domain.Enums.Claim.{ClaimStatus}
use trustworthy_personal_kno.Domain.Enums.Publication.{CuratedVersionStatus, IndexJobStatus}
use trustworthy_personal_kno.Persistence.Tables.{required_row, cas}
use trustworthy_personal_kno.Persistence.Generations.{NoteRow, JobRow, ControlPlane}
use trustworthy_personal_kno.Persistence.Publications.{Tables, any_note_row, list_active_notes}
use trustworthy_personal_kno.Persistence.Publications.Recycling.{prepare_note_deletion}
use trustworthy_personal_kno.Publication.Contracts.{
  KnowledgeChunk, RetrievalHit, RetrievalMode, RetrievalResult,
}
use trustworthy_personal_kno.Answer.Contracts.{AnswerEvidence}
use trustworthy_personal_kno.Answer.Evidence.{
  SnapshotArtifact, find_note, locate, with_evidence, resolve,
}
use trustworthy_personal_kno.Answer.Evidence.Locating.{deleted_unanswerable}

abbrev chunk : KnowledgeChunk
chunk = record {
  chunk_id = 100;
  note_id = 1;
  curated_version_id = 11;
  claim_ids = 5 ∷ [];
  text = codes "Antt 3.12 is out.";
  heading_path = [];
  ordinal = 0;
  quality_status = ClaimStatus.verified;
  sensitivity = Sensitivity.private;
  valid_from = none;
  valid_to = none;
  freshness_at = none;
  generation_id = 9;
  generation_number = 1;
  embedding_model = codes "m";
  chunker_version = codes "v1";
  content_hash = 7;
}

abbrev hit : RetrievalHit
hit = record { chunk = chunk; retrieval_score = 1; rerank_score = none }

abbrev retrieved : RetrievalResult
retrieved = record {
  hits = hit ∷ record hit { chunk = record chunk { note_id = 2 } } ∷ [];
  mode = RetrievalMode.hybrid;
  degraded = false;
  generation_id = 9;
}

abbrev note : NoteRow
note = record {
  id = 1;
  canonical_path = codes "notes/a.md";
  deleted_at = none;
  current_curated_version_id = some 11;
  active_index_generation_id = some 9;
  revision = 4;
}

abbrev job : JobRow
job = record {
  id = 20;
  object_type = EntityType.curated_version;
  object_id = 11;
  generation_id = 9;
  status = IndexJobStatus.active_indexed;
  content_hash = some 7;
  indexed_chunk_count = 1;
  operation_id = none;
  last_verified_at = none;
  error_category = none;
  revision = 3;
}

abbrev tables : Tables
tables = record {
  plane = record { generations = []; notes = note ∷ []; jobs = job ∷ [] };
  changes = [];
  versions =
      record {
        id = 11;
        note_id = 1;
        based_on_change_id = 30;
        content_hash = 7;
        status = CuratedVersionStatus.active;
        published_at = some 3;
        revision = 4;
      }
      ∷ [];
  runs = [];
}

abbrev artifact : SnapshotArtifact
artifact = record {
  note_id = 1;
  curated_version_id = 11;
  claim_ids = 4 ∷ 5 ∷ [];
  source_version_ids = 3 ∷ [];
}

abbrev snapshots : ℕ → Option SnapshotArtifact
snapshots digest = some artifact

abbrev evidence : List AnswerEvidence
evidence =
    record {
      chunk_id = 100;
      text = codes "Antt 3.12 is out.";
      claim_ids = 5 ∷ [];
      quality_status = ClaimStatus.verified;
      sensitivity = Sensitivity.private;
      note_id = 1;
      curated_version_id = 11;
      generation_id = 9;
      vault_path = codes "notes/a.md";
      heading_path = [];
      source_version_ids = 3 ∷ [];
    }
    ∷ []

abbrev without : ControlPlane
without = record {
  generations = [];
  notes = record note { deleted_at = some 15; revision = 5 } ∷ [];
  jobs = record job { status = IndexJobStatus.delete_pending; revision = 4 } ∷ [];
}

found : any_note_row tables.plane.notes 1 ≡ ok note
unfolding required_row
found = refl

deleted : prepare_note_deletion tables.plane 1 20 4 3 15 ≡ ok without
unfolding prepare_note_deletion required_row cas
deleted = refl

unresolved : resolve (record tables { plane = without }) snapshots retrieved ≡ ok []
unfolding resolve locate find_note with_evidence list_active_notes required_row
unresolved = refl

deleted_unanswerable_example : All (λ (e : AnswerEvidence). e.note_id ≢ 1) []
deleted_unanswerable_example =
    deleted_unanswerable tables without 1 20 4 3 15 note snapshots retrieved [] refl found deleted
      unresolved

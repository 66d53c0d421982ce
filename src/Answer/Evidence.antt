-- ===== src/Answer/Evidence.antt =====
-- answer/evidence.py: `SqliteAnswerEvidenceResolver`, over the tables of the control plane. The
-- snapshots of publications are an argument, by the digest of their content; a read that raises is
-- `none`. A dict of notes keeps the last row of an id.
pub mod Locating
mod Examples
use trustworthy_personal_kno.Prelude.{
  ℕ, Bool, true, false, not, ◌&&◌, Option, none, some, List, [], ◌∷◌, subset, ◌==◌, nat_eq, or_else,
  if◌then◌else◌, Result, ok, raised, ◌>>=◌,
}
use trustworthy_personal_kno.Domain.Enums.Publication.{
  CuratedVersionStatus, curated_version_status_eq,
}
use trustworthy_personal_kno.Domain.Errors.{Error}
use trustworthy_personal_kno.Persistence.Generations.{NoteRow, is_value}
use trustworthy_personal_kno.Persistence.Publications.{
  VersionRow, Tables, curated_row, list_active_notes,
}
use trustworthy_personal_kno.Publication.Contracts.{RetrievalHit, RetrievalResult}
use trustworthy_personal_kno.Answer.Contracts.{AnswerEvidence}

-- The fields of a publication's artifact that the resolver reads.
pub record SnapshotArtifact : Type 0 where
  pub note_id : ℕ
  pub curated_version_id : ℕ
  pub claim_ids : List ℕ
  pub source_version_ids : List ℕ

-- A hit with the rows of its note and its version.
pub record LocatedHit : Type 0 where
  pub hit : RetrievalHit
  pub note : NoteRow
  pub version : VersionRow

-- `notes.get(id)`
unfoldable pub find_note : List NoteRow → ℕ → Option NoteRow
find_note [] id = none
find_note (n ∷ ns) id = or_else (find_note ns id) (if n.id == id then some n else none)

abbrev pub is_served : RetrievalResult → RetrievalHit → NoteRow → Bool
is_served result hit note =
    is_value note.current_curated_version_id hit.chunk.curated_version_id
    && is_value note.active_index_generation_id result.generation_id

-- The note that serves a hit, if there is one.
abbrev pub serving_note : RetrievalResult → RetrievalHit → Option NoteRow → Option NoteRow
serving_note result hit none = none
serving_note result hit (some note) = if is_served result hit note then some note else none

abbrev pub with_row :
    Tables
    → RetrievalHit
    → Option NoteRow
    → Result Error (List LocatedHit)
    → Result Error (List LocatedHit)
with_row t hit none others = others
with_row t hit (some note) others = do
  version ← curated_row t.versions hit.chunk.curated_version_id
  rest ← others
  ok (record { hit = hit; note = note; version = version } ∷ rest)

-- The first loop, in one unit of work.
unfoldable pub locate :
    Tables → RetrievalResult → List RetrievalHit → Result Error (List LocatedHit)
unfolding find_note
locate t result [] = ok []
locate t result (hit ∷ hits) =
    with_row t hit
      (serving_note result hit
        (find_note (list_active_notes t.plane.notes result.generation_id) hit.chunk.note_id))
      (locate t result hits)

abbrev pub belongs : LocatedHit → SnapshotArtifact → Bool
belongs l artifact =
    artifact.note_id == l.note.id
    && (artifact.curated_version_id == l.version.id
        && subset l.hit.chunk.claim_ids artifact.claim_ids)

abbrev pub evidence_of : RetrievalResult → LocatedHit → SnapshotArtifact → AnswerEvidence
evidence_of result l artifact = record {
  chunk_id = l.hit.chunk.chunk_id;
  text = l.hit.chunk.text;
  claim_ids = l.hit.chunk.claim_ids;
  quality_status = l.hit.chunk.quality_status;
  sensitivity = l.hit.chunk.sensitivity;
  note_id = l.note.id;
  curated_version_id = l.version.id;
  generation_id = result.generation_id;
  vault_path = l.note.canonical_path;
  heading_path = l.hit.chunk.heading_path;
  source_version_ids = artifact.source_version_ids;
}

abbrev pub with_snapshot :
    RetrievalResult
    → LocatedHit
    → Option SnapshotArtifact
    → List AnswerEvidence
    → List AnswerEvidence
with_snapshot result l none rest = rest
with_snapshot result l (some artifact) rest =
    if belongs l artifact then evidence_of result l artifact ∷ rest else rest

-- The second loop.
unfoldable pub with_evidence :
    (ℕ → Option SnapshotArtifact) → RetrievalResult → List LocatedHit → List AnswerEvidence
with_evidence snapshots result [] = []
with_evidence snapshots result (l ∷ ls) =
    let rest = with_evidence snapshots result ls in
    if l.version.status == CuratedVersionStatus.active
    then with_snapshot result l (snapshots l.version.content_hash) rest
    else rest

-- `SqliteAnswerEvidenceResolver.resolve`
unfoldable pub resolve :
    Tables → (ℕ → Option SnapshotArtifact) → RetrievalResult → Result Error (List AnswerEvidence)
unfolding locate with_evidence
resolve t snapshots result = do
  rows ← locate t result result.hits
  ok (with_evidence snapshots result rows)

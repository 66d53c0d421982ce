-- ===== src/Persistence/Publications/Recycling.antt =====
-- persistence/publication_repository.py: `prepare_note_deletion` and `restore_note`. Each is one
-- savepoint. A unique index lets one live note have a path.
pub mod Returning
use trustworthy_personal_kno.Prelude.{
  ℕ, ◌+◌, Bool, true, false, not, ◌&&◌, Option, none, some, any, ◌==◌, nat_eq, text_eq, Result, ok,
  raised, ◌>>=◌, ◌>>◌, require,
}
use trustworthy_personal_kno.Domain.Enums.Entity.{EntityType, entity_type_eq}
use trustworthy_personal_kno.Domain.Enums.Publication.{IndexJobStatus, index_job_status_eq}
use trustworthy_personal_kno.Domain.Errors.{
  Error, invariant_violation, duplicate_record, concurrent_modification,
}
use trustworthy_personal_kno.Domain.Machine.{require_transition}
use trustworthy_personal_kno.Domain.Transitions.Publication.{index_job_status_machine}
use trustworthy_personal_kno.Persistence.Tables.{cas}
use trustworthy_personal_kno.Persistence.Generations.{
  NoteRow, JobRow, ControlPlane, is_null, is_value,
}
use trustworthy_personal_kno.Persistence.Publications.{any_note_row, job_row}

-- The job is that of the current version of the note in the generation that serves it.
abbrev pub is_job_for : NoteRow → JobRow → Bool
is_job_for note job =
    job.object_type == EntityType.curated_version
    && (is_value note.current_curated_version_id job.object_id
        && is_value note.active_index_generation_id job.generation_id)

abbrev pub deletable : ℕ → ℕ → NoteRow → Bool
deletable id revision x = x.id == id && (x.revision == revision && is_null x.deleted_at)

abbrev pub deleted_note : ℕ → ℕ → NoteRow → NoteRow
deleted_note revision now x = record x { deleted_at = some now; revision = revision + 1 }

unfoldable pub prepare_note_deletion : ControlPlane → ℕ → ℕ → ℕ → ℕ → ℕ → Result Error ControlPlane
prepare_note_deletion plane note_id job_id note_revision job_revision now = do
  note ← any_note_row plane.notes note_id
  job ← job_row plane.jobs job_id
  require (note.revision == note_revision) concurrent_modification
  require (job.revision == job_revision) concurrent_modification
  require (is_null note.deleted_at && is_job_for note job) invariant_violation
  allowed ← require_transition job.status IndexJobStatus.delete_pending
  notes ←
      cas (λ (x : NoteRow). x.id) (deletable note_id note_revision) note_id
        (deleted_note note_revision now) plane.notes
  jobs ←
      cas (λ (x : JobRow). x.id) (λ x. x.id == job_id && x.revision == job_revision) job_id
        (λ x. record x {
          status = IndexJobStatus.delete_pending;
          error_category = none;
          revision = job_revision + 1;
        })
        plane.jobs
  ok (record plane { notes = notes; jobs = jobs })

abbrev pub restorable : ℕ → ℕ → NoteRow → Bool
restorable id revision x = x.id == id && (x.revision == revision && not (is_null x.deleted_at))

abbrev pub restored_note : ℕ → NoteRow → NoteRow
restored_note revision x = record x { deleted_at = none; revision = revision + 1 }

-- Another live note has the path of this one.
abbrev pub takes_path : NoteRow → NoteRow → Bool
takes_path note x =
    is_null x.deleted_at && (not (x.id == note.id) && x.canonical_path == note.canonical_path)

unfoldable pub restore_note : ControlPlane → ℕ → ℕ → ℕ → ℕ → ℕ → Result Error ControlPlane
restore_note plane note_id job_id note_revision job_revision now = do
  note ← any_note_row plane.notes note_id
  job ← job_row plane.jobs job_id
  require (note.revision == note_revision) concurrent_modification
  require (job.revision == job_revision) concurrent_modification
  require
      (not (is_null note.deleted_at)
        && (job.status == IndexJobStatus.indexed && is_job_for note job))
      invariant_violation
  allowed ← require_transition job.status IndexJobStatus.active_indexed
  require (not (any (takes_path note) plane.notes)) duplicate_record
  notes ←
      cas (λ (x : NoteRow). x.id) (restorable note_id note_revision) note_id
        (restored_note note_revision) plane.notes
  jobs ←
      cas (λ (x : JobRow). x.id) (λ x. x.id == job_id && x.revision == job_revision) job_id
        (λ x. record x {
          status = IndexJobStatus.active_indexed;
          error_category = none;
          last_verified_at = some now;
          revision = job_revision + 1;
        })
        plane.jobs
  ok (record plane { notes = notes; jobs = jobs })

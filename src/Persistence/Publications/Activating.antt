-- ===== src/Persistence/Publications/Activating.antt =====
-- persistence/publication_repository.py: `activate_publication`, the switch of every pointer to a
-- verified publication, in one savepoint. Where the source leaves `activated_at` of the generation
-- that it supersedes, the model writes back the value that it has read.
pub mod Steps
pub mod Switching
use trustworthy_personal_kno.Prelude.{
  ℕ, ◌+◌, Bool, true, false, not, ◌&&◌, Option, none, some, List, any, ◌==◌, nat_eq, if◌then◌else◌,
  Result, ok, raised, ◌>>=◌, ◌>>◌, require,
}
use trustworthy_personal_kno.Domain.Enums.Entity.{EntityType, entity_type_eq}
use trustworthy_personal_kno.Domain.Enums.Publication.{
  CuratedVersionStatus, curated_version_status_eq, IndexGenerationStatus,
  index_generation_status_eq, IndexJobStatus, index_job_status_eq, PublicationRunStatus,
  publication_run_status_eq, KnowledgeChangeStatus, knowledge_change_status_eq,
}
use trustworthy_personal_kno.Domain.Errors.{Error, invariant_violation, concurrent_modification}
use trustworthy_personal_kno.Domain.Machine.{require_transition}
use trustworthy_personal_kno.Domain.Transitions.Publication.{
  curated_version_status_machine, index_generation_status_machine,
}
use trustworthy_personal_kno.Persistence.Tables.{cas}
use trustworthy_personal_kno.Persistence.Generations.{
  GenerationRow, NoteRow, JobRow, ControlPlane, is_null, is_value, get_active, set_status,
}
use trustworthy_personal_kno.Persistence.Publications.{
  ChangeRow, VersionRow, RunRow, Tables, change_row, curated_row, run_row, job_row, generation_row,
  note_row, update_curated_version,
}

-- The arguments of `activate_publication`.
pub record ActivationRequest : Type 0 where
  pub run_id : ℕ
  pub job_id : ℕ
  pub expected_run_revision : ℕ
  pub expected_note_revision : ℕ
  pub expected_version_revision : ℕ
  pub expected_job_revision : ℕ
  pub expected_change_revision : ℕ
  pub expected_generation_revision : ℕ

-- The rows that belong to a run, as they were read.
pub record Loaded : Type 0 where
  pub run : RunRow
  pub note : NoteRow
  pub version : VersionRow
  pub job : JobRow
  pub change : ChangeRow
  pub generation : GenerationRow

unfoldable pub load : Tables → ActivationRequest → Result Error Loaded
load t a = do
  run ← run_row t.runs a.run_id
  note ← note_row t.plane.notes run.note_id
  version ← curated_row t.versions run.curated_version_id
  job ← job_row t.plane.jobs a.job_id
  change ← change_row t.changes run.knowledge_change_id
  generation ← generation_row t.plane.generations run.target_generation_id
  ok (record {
    run = run;
    note = note;
    version = version;
    job = job;
    change = change;
    generation = generation;
  })

abbrev pub is_expected : ActivationRequest → Loaded → Bool
is_expected a l =
    l.run.revision == a.expected_run_revision
    && (l.note.revision == a.expected_note_revision
        && (l.version.revision == a.expected_version_revision
            && (l.job.revision == a.expected_job_revision
                && (l.change.revision == a.expected_change_revision
                    && l.generation.revision == a.expected_generation_revision))))

abbrev pub is_ready : Loaded → Bool
is_ready l =
    l.run.status == PublicationRunStatus.activating
    && (l.version.status == CuratedVersionStatus.staging
        && (l.job.status == IndexJobStatus.indexed
            && l.change.status == KnowledgeChangeStatus.publish_intent))

abbrev pub is_owned : Loaded → Bool
is_owned l =
    l.version.note_id == l.note.id
    && (l.version.based_on_change_id == l.change.id
        && (l.job.object_type == EntityType.curated_version
            && (l.job.object_id == l.version.id && l.job.generation_id == l.generation.id)))

-- The version before, if there is another, is superseded.
unfoldable pub supersede_version :
    List VersionRow → Option ℕ → VersionRow → Result Error (List VersionRow)
supersede_version versions none version = ok versions
supersede_version versions (some id) version = do
  old ← curated_row versions id
  if old.id == version.id
      then ok versions
      else require_transition old.status CuratedVersionStatus.superseded >>= λ allowed.
          update_curated_version versions old.id CuratedVersionStatus.superseded old.revision

-- The generation before, if there is another, must have no note left, and is superseded.
unfoldable pub supersede_generation :
    List GenerationRow
    → List NoteRow
    → Option GenerationRow
    → GenerationRow
    → Result Error (List GenerationRow)
supersede_generation generations notes none generation = ok generations
supersede_generation generations notes (some old) generation =
    if old.id == generation.id then ok generations else (do
      require
          (not (
            any
              (λ (x : NoteRow).
                is_null x.deleted_at && is_value x.active_index_generation_id old.id)
              notes))
          invariant_violation
      allowed ← require_transition old.status IndexGenerationStatus.superseded
      set_status old IndexGenerationStatus.superseded old.activated_at generations)

-- A staging generation becomes the active one.
unfoldable pub activate_generation :
    List GenerationRow → List NoteRow → GenerationRow → ℕ → Result Error (List GenerationRow)
unfolding supersede_generation
activate_generation generations notes generation now =
    if generation.status == IndexGenerationStatus.staging
    then supersede_generation generations notes (get_active generations) generation
      >>= set_status generation IndexGenerationStatus.active (some now)
    else if generation.status == IndexGenerationStatus.active
    then ok generations
    else raised invariant_violation

abbrev pub live_at : ℕ → ℕ → NoteRow → Bool
live_at id revision x = x.id == id && (x.revision == revision && is_null x.deleted_at)

abbrev pub published : ℕ → ℕ → ℕ → NoteRow → NoteRow
published version generation revision x = record x {
  current_curated_version_id = some version;
  active_index_generation_id = some generation;
  revision = revision + 1;
}

abbrev pub active_version : ℕ → ℕ → VersionRow → VersionRow
active_version revision now x = record x {
  status = CuratedVersionStatus.active;
  published_at = some now;
  revision = revision + 1;
}

abbrev pub active_job : ℕ → JobRow → JobRow
active_job revision x = record x { status = IndexJobStatus.active_indexed; revision = revision + 1 }

abbrev pub active_change : ℕ → ChangeRow → ChangeRow
active_change revision x = record x {
  status = KnowledgeChangeStatus.active;
  revision = revision + 1;
}

abbrev pub completed_run : ℕ → ℕ → RunRow → RunRow
completed_run revision now x = record x {
  status = PublicationRunStatus.completed;
  completed_at = some now;
  error_category = none;
  revision = revision + 1;
}

-- The updates, in their order.
unfoldable pub switch_pointers : Tables → ActivationRequest → ℕ → Loaded → Result Error Tables
unfolding supersede_version activate_generation
switch_pointers t a now l = do
  superseded ← supersede_version t.versions l.note.current_curated_version_id l.version
  generations ← activate_generation t.plane.generations t.plane.notes l.generation now
  versions ←
      cas (λ (x : VersionRow). x.id)
        (λ x. x.id == l.version.id && x.revision == a.expected_version_revision) l.version.id
        (active_version a.expected_version_revision now) superseded
  notes ←
      cas (λ (x : NoteRow). x.id) (live_at l.note.id a.expected_note_revision) l.note.id
        (published l.version.id l.generation.id a.expected_note_revision) t.plane.notes
  jobs ←
      cas (λ (x : JobRow). x.id) (λ x. x.id == l.job.id && x.revision == a.expected_job_revision)
        l.job.id (active_job a.expected_job_revision) t.plane.jobs
  changes ←
      cas (λ (x : ChangeRow). x.id)
        (λ x. x.id == l.change.id && x.revision == a.expected_change_revision) l.change.id
        (active_change a.expected_change_revision) t.changes
  runs ←
      cas (λ (x : RunRow). x.id) (λ x. x.id == l.run.id && x.revision == a.expected_run_revision)
        l.run.id (completed_run a.expected_run_revision now) t.runs
  ok (record {
    plane = record { generations = generations; notes = notes; jobs = jobs };
    changes = changes;
    versions = versions;
    runs = runs;
  })

unfoldable pub activate_publication : Tables → ActivationRequest → ℕ → Result Error Tables
unfolding load switch_pointers
activate_publication t a now = do
  l ← load t a
  require (is_expected a l) concurrent_modification
  require (is_ready l && is_owned l) invariant_violation
  switch_pointers t a now l

-- ===== src/Persistence/Publications.antt =====
-- persistence/publication_repository.py: the rows of a publication and their transitions. An
-- operation that raises leaves its tables as they were. Columns that no operation of the model reads
-- or writes are left out, `updated_at` among them; `now` is the reading of the clock.
pub mod Recycling
pub mod Activating
pub mod Restarting
mod Examples
use trustworthy_personal_kno.Prelude.{
  ℕ, filter, ◌+◌, ◌≡◌, Bool, true, false, not, ◌&&◌, ◌||◌, Option, none, some, List, [], ◌∷◌, ◌++◌,
  map, any, ◌==◌, nat_eq, if◌then◌else◌, Text, Result, ok, raised, ◌>>=◌, ◌>>◌, require,
}
use trustworthy_personal_kno.Domain.Enums.Entity.{EntityType, entity_type_eq}
use trustworthy_personal_kno.Domain.Enums.Publication.{
  CuratedVersionStatus, curated_version_status_eq, IndexGenerationStatus,
  index_generation_status_eq, IndexJobStatus, index_job_status_eq, PublicationRunStatus,
  publication_run_status_eq, KnowledgeChangeStatus, knowledge_change_status_eq,
}
use trustworthy_personal_kno.Domain.Errors.{
  Error, invariant_violation, record_not_found, duplicate_record, concurrent_modification,
}
use trustworthy_personal_kno.Domain.Machine.{require_transition}
use trustworthy_personal_kno.Domain.Transitions.Publication.{
  curated_version_status_machine, index_generation_status_machine, index_job_status_machine,
  publication_run_status_machine, knowledge_change_status_machine,
}
use trustworthy_personal_kno.Persistence.Tables.{required_row, cas}
use trustworthy_personal_kno.Persistence.Generations.{
  GenerationRow, NoteRow, JobRow, ControlPlane, is_null, is_value, is_active,
}

pub record ChangeRow : Type 0 where
  pub id : ℕ
  pub status : KnowledgeChangeStatus
  pub revision : ℕ

pub record VersionRow : Type 0 where
  pub id : ℕ
  pub note_id : ℕ
  pub based_on_change_id : ℕ
  pub content_hash : ℕ
  pub status : CuratedVersionStatus
  pub published_at : Option ℕ
  pub revision : ℕ

pub record RunRow : Type 0 where
  pub id : ℕ
  pub knowledge_change_id : ℕ
  pub note_id : ℕ
  pub curated_version_id : ℕ
  pub target_generation_id : ℕ
  pub operation_id : Text
  pub status : PublicationRunStatus
  pub attempt : ℕ
  pub error_category : Option Text
  pub completed_at : Option ℕ
  pub revision : ℕ

-- The tables that a publication reads and writes.
pub record Tables : Type 0 where
  pub plane : ControlPlane
  pub changes : List ChangeRow
  pub versions : List VersionRow
  pub runs : List RunRow

abbrev pub change_row : List ChangeRow → ℕ → Result Error ChangeRow
change_row = required_row (λ (x : ChangeRow). x.id)

-- `_curated_row`
abbrev pub curated_row : List VersionRow → ℕ → Result Error VersionRow
curated_row = required_row (λ (x : VersionRow). x.id)

abbrev pub run_row : List RunRow → ℕ → Result Error RunRow
run_row = required_row (λ (x : RunRow). x.id)

abbrev pub job_row : List JobRow → ℕ → Result Error JobRow
job_row = required_row (λ (x : JobRow). x.id)

abbrev pub any_note_row : List NoteRow → ℕ → Result Error NoteRow
any_note_row = required_row (λ (x : NoteRow). x.id)

abbrev pub generation_row : List GenerationRow → ℕ → Result Error GenerationRow
generation_row = required_row (λ (x : GenerationRow). x.id)

-- `_note_row`: a note that is not deleted.
pub note_row : List NoteRow → ℕ → Result Error NoteRow
note_row [] n = raised record_not_found
note_row (x ∷ rows) n =
    let rest = note_row rows n in if x.id == n && is_null x.deleted_at then ok x else rest

-- `transition_knowledge_change`
pub transition_knowledge_change :
    List ChangeRow → ℕ → KnowledgeChangeStatus → ℕ → Result Error (List ChangeRow)
transition_knowledge_change changes id target revision = do
  row ← change_row changes id
  require (row.revision == revision) concurrent_modification
  allowed ← require_transition row.status target
  cas (λ (x : ChangeRow). x.id) (λ x. x.id == id && x.revision == revision) id
      (λ x. record x { status = target; revision = revision + 1 }) changes

-- `_update_curated_version`
pub update_curated_version :
    List VersionRow → ℕ → CuratedVersionStatus → ℕ → Result Error (List VersionRow)
update_curated_version versions id status revision =
    cas (λ (x : VersionRow). x.id) (λ x. x.id == id && x.revision == revision) id
      (λ x. record x { status = status; revision = revision + 1 }) versions

-- `transition_curated_version`
pub transition_curated_version :
    List VersionRow → ℕ → CuratedVersionStatus → ℕ → Result Error (List VersionRow)
transition_curated_version versions id target revision = do
  row ← curated_row versions id
  require (row.revision == revision) concurrent_modification
  allowed ← require_transition row.status target
  update_curated_version versions id target revision

-- `transition_index_generation`; a unique index lets one generation be active.
pub transition_index_generation :
    List GenerationRow → ℕ → IndexGenerationStatus → ℕ → ℕ → Result Error (List GenerationRow)
transition_index_generation generations id target revision now = do
  row ← generation_row generations id
  require (row.revision == revision) concurrent_modification
  allowed ← require_transition row.status target
  require
      (not (
        target == IndexGenerationStatus.active
        && any (λ (x : GenerationRow). is_active x && not (x.id == id)) generations))
      duplicate_record
  cas (λ (x : GenerationRow). x.id) (λ x. x.id == id && x.revision == revision) id
      (λ x. record x {
        status = target;
        activated_at = if target == IndexGenerationStatus.active then some now else x.activated_at;
        revision = revision + 1;
      })
      generations

-- `transition_index_job`
pub transition_index_job :
    List JobRow → ℕ → IndexJobStatus → ℕ → Option Text → Result Error (List JobRow)
transition_index_job jobs id target revision error_category = do
  row ← job_row jobs id
  require (row.revision == revision) concurrent_modification
  allowed ← require_transition row.status target
  cas (λ (x : JobRow). x.id) (λ x. x.id == id && x.revision == revision) id
      (λ x. record x { status = target; error_category = error_category; revision = revision + 1 })
      jobs

-- `mark_index_job_indexed`
pub mark_index_job_indexed : List JobRow → ℕ → ℕ → ℕ → ℕ → ℕ → Result Error (List JobRow)
mark_index_job_indexed jobs id content_hash indexed_chunk_count revision now = do
  row ← job_row jobs id
  require (row.revision == revision) concurrent_modification
  allowed ← require_transition row.status IndexJobStatus.indexed
  cas (λ (x : JobRow). x.id) (λ x. x.id == id && x.revision == revision) id
      (λ x. record x {
        status = IndexJobStatus.indexed;
        content_hash = some content_hash;
        indexed_chunk_count = indexed_chunk_count;
        last_verified_at = some now;
        error_category = none;
        revision = revision + 1;
      })
      jobs

-- The values that `transition_publication_run` writes. Leaving FAILED starts another attempt.
abbrev pub moved_run : RunRow → PublicationRunStatus → Option Text → ℕ → ℕ → RunRow → RunRow
moved_run row target error_category revision now x = record x {
  status = target;
  attempt = if row.status == PublicationRunStatus.failed then row.attempt + 1 else x.attempt;
  error_category = if row.status == PublicationRunStatus.failed then none else error_category;
  completed_at = if target == PublicationRunStatus.completed then some now else x.completed_at;
  revision = revision + 1;
}

-- `transition_publication_run`
pub transition_publication_run :
    List RunRow → ℕ → PublicationRunStatus → ℕ → Option Text → ℕ → Result Error (List RunRow)
transition_publication_run runs id target revision error_category now = do
  row ← run_row runs id
  require (row.revision == revision) concurrent_modification
  allowed ← require_transition row.status target
  cas (λ (x : RunRow). x.id) (λ x. x.id == id && x.revision == revision) id
      (moved_run row target error_category revision now) runs

-- The rows that `list_active_notes` selects for a generation; their order is left out.
unfoldable pub list_active_notes : List NoteRow → ℕ → List NoteRow
list_active_notes rows generation =
    filter
      (λ (x : NoteRow).
        is_null x.deleted_at
        && (not (is_null x.current_curated_version_id)
            && is_value x.active_index_generation_id generation))
      rows

-- A note with the version and the generation that it is served by.
pub record CurrentRow : Type 0 where
  pub note_id : ℕ
  pub curated_version_id : ℕ
  pub generation_id : ℕ

abbrev pub current_of : NoteRow → Option ℕ → Option ℕ → Option ℕ → List CurrentRow
current_of x (some t) v g = []
current_of x none none g = []
current_of x none (some v) none = []
current_of x none (some v) (some g) =
    record { note_id = x.id; curated_version_id = v; generation_id = g } ∷ []

-- The rows that a query selects, of the ids asked for.
pub resolve_current_versions : List NoteRow → List ℕ → List CurrentRow
resolve_current_versions [] ids = []
resolve_current_versions (x ∷ rows) ids =
    (if any (λ n. n == x.id) ids
      then current_of x x.deleted_at x.current_curated_version_id x.active_index_generation_id
      else [])
    ++ resolve_current_versions rows ids

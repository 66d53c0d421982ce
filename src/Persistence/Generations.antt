-- ===== src/Persistence/Generations.antt =====
-- persistence/publication_repository.py: the promotion of an index generation, and the rollback to a
-- retained one. Each is one savepoint: where it raises, nothing has changed. An UPDATE statement
-- applies to the rows that its WHERE clause selects.
pub mod Notes
pub mod Switch
mod Examples
use trustworthy_personal_kno.Prelude.{
  ℕ, suc, ◌+◌, ◌≡◌, Bool, true, false, not, ◌&&◌, ◌||◌, Option, none, some, List, [], ◌∷◌, map,
  filter, any, length, ◌==◌, nat_eq, if◌then◌else◌, Result, ok, raised, ◌>>=◌, ◌>>◌, require, Text,
}
use trustworthy_personal_kno.Domain.Enums.Publication.{
  IndexGenerationStatus, index_generation_status_eq, IndexJobStatus, index_job_status_eq,
}
use trustworthy_personal_kno.Domain.Enums.Entity.{EntityType, entity_type_eq}
use trustworthy_personal_kno.Domain.Errors.{
  Error, invariant_violation, record_not_found, concurrent_modification,
}
use trustworthy_personal_kno.Domain.Machine.{require_transition}
use trustworthy_personal_kno.Domain.Transitions.Publication.{
  index_generation_status_machine, index_job_status_machine,
}

pub record GenerationRow : Type 0 where
  pub id : ℕ
  pub generation_number : ℕ
  pub status : IndexGenerationStatus
  pub activated_at : Option ℕ
  pub revision : ℕ

pub record NoteRow : Type 0 where
  pub id : ℕ
  pub canonical_path : Text
  pub deleted_at : Option ℕ
  pub current_curated_version_id : Option ℕ
  pub active_index_generation_id : Option ℕ
  pub revision : ℕ

pub record JobRow : Type 0 where
  pub id : ℕ
  pub object_type : EntityType
  pub object_id : ℕ
  pub generation_id : ℕ
  pub status : IndexJobStatus
  pub content_hash : Option ℕ
  pub indexed_chunk_count : ℕ
  pub operation_id : Option Text
  pub last_verified_at : Option ℕ
  pub error_category : Option Text
  pub revision : ℕ

-- The tables that a switch reads and writes.
pub record ControlPlane : Type 0 where
  pub generations : List GenerationRow
  pub notes : List NoteRow
  pub jobs : List JobRow

abbrev pub is_null : Option ℕ → Bool
is_null none = true
is_null (some n) = false

-- A comparison with NULL selects no row.
abbrev pub is_value : Option ℕ → ℕ → Bool
is_value none n = false
is_value (some m) n = m == n

abbrev pub is_other_value : Option ℕ → ℕ → Bool
is_other_value none n = false
is_other_value (some m) n = not (m == n)

abbrev pub is_live : NoteRow → Bool
is_live n = is_null n.deleted_at && not (is_null n.current_curated_version_id)

abbrev pub live_on : ℕ → NoteRow → Bool
live_on g n = is_live n && is_value n.active_index_generation_id g

-- `_require_all_live_notes_on_generation`: a live note on another generation.
abbrev pub is_stray : ℕ → NoteRow → Bool
is_stray g n = is_live n && is_other_value n.active_index_generation_id g

abbrev pub is_active : GenerationRow → Bool
is_active g = g.status == IndexGenerationStatus.active

pub get_generation : List GenerationRow → ℕ → Result Error GenerationRow
get_generation [] id = raised record_not_found
get_generation (g ∷ gs) id = let rest = get_generation gs id in if g.id == id then ok g else rest

-- `SELECT ... WHERE status = 'ACTIVE'`.
unfoldable pub get_active : List GenerationRow → Option GenerationRow
get_active [] = none
get_active (g ∷ gs) = if is_active g then some g else get_active gs

abbrev pub or_invariant {ℓ} : {A : Type ℓ} → Option A → Result Error A
or_invariant none = raised invariant_violation
or_invariant (some a) = ok a

pub find_job : List JobRow → ℕ → ℕ → Result Error JobRow
find_job [] version generation = raised invariant_violation
find_job (j ∷ js) version generation =
    let rest = find_job js version generation in
    if j.object_type == EntityType.curated_version
      && (j.object_id == version && j.generation_id == generation)
    then ok j
    else rest

-- A note with its two jobs.
pub record NoteJobs : Type 0 where
  pub note : NoteRow
  pub source_job : JobRow
  pub target_job : JobRow

abbrev pub version_of : Option ℕ → Result Error ℕ
version_of none = raised invariant_violation
version_of (some v) = ok v

-- `_generation_switch_jobs`
pub switch_jobs : List JobRow → ℕ → ℕ → IndexJobStatus → List NoteRow → Result Error (List NoteJobs)
switch_jobs jobs source target target_status [] = ok []
switch_jobs jobs source target target_status (n ∷ ns) = do
  let others = switch_jobs jobs source target target_status ns
  version ← version_of n.current_curated_version_id
  source_job ← find_job jobs version source
  target_job ← find_job jobs version target
  require (source_job.status == IndexJobStatus.active_indexed && target_job.status == target_status)
      invariant_violation
  rest ← others
  ok (record { note = n; source_job = source_job; target_job = target_job } ∷ rest)

-- `_set_generation_status`
unfoldable pub set_status :
    GenerationRow
    → IndexGenerationStatus
    → Option ℕ
    → List GenerationRow
    → Result Error (List GenerationRow)
set_status g status activated_at rows = do
  require (any (λ (x : GenerationRow). x.id == g.id && x.revision == g.revision) rows)
      concurrent_modification
  ok (
      map
        (λ (x : GenerationRow).
          if x.id == g.id && x.revision == g.revision
          then record x { status = status; activated_at = activated_at; revision = g.revision + 1 }
          else x)
        rows)

abbrev pub is_row_of : NoteRow → NoteRow → Bool
is_row_of n x = x.id == n.id && (x.revision == n.revision && is_null x.deleted_at)

abbrev pub repointed : NoteRow → ℕ → NoteRow → NoteRow
repointed n target x = record x {
  active_index_generation_id = some target;
  revision = n.revision + 1;
}

abbrev pub is_job_of : JobRow → JobRow → Bool
is_job_of j x = x.id == j.id && x.revision == j.revision

abbrev pub set_job : JobRow → IndexJobStatus → ℕ → List JobRow → Result Error (List JobRow)
set_job j status now rows = do
  allowed ← require_transition j.status status
  require (any (is_job_of j) rows) concurrent_modification
  ok (
      map
        (λ (x : JobRow).
          if is_job_of j x
          then record x {
            status = status;
            last_verified_at = some now;
            error_category = none;
            revision = j.revision + 1;
          }
          else x)
        rows)

-- `_switch_note_generation`
pub switch_note : ℕ → ℕ → NoteJobs → ControlPlane → Result Error ControlPlane
switch_note target now item plane = do
  require (any (is_row_of item.note) plane.notes) concurrent_modification
  jobs ← set_job item.source_job IndexJobStatus.delete_pending now plane.jobs
  jobs' ← set_job item.target_job IndexJobStatus.active_indexed now jobs
  ok (record plane {
    notes =
        map (λ (x : NoteRow). if is_row_of item.note x then repointed item.note target x else x)
          plane.notes;
    jobs = jobs';
  })

pub switch_notes : ℕ → ℕ → List NoteJobs → ControlPlane → Result Error ControlPlane
switch_notes target now [] plane = ok plane
switch_notes target now (item ∷ items) plane =
    switch_note target now item plane >>= switch_notes target now items

-- The body that `promote_index_generation` and `rollback_index_generation` share, up to the status
-- that they expect of the jobs of the target. The number is that of the notes.
pub switch_generation : IndexJobStatus → ControlPlane → ℕ → ℕ → ℕ → Result Error (ControlPlane × ℕ)
switch_generation target_status plane generation_id expected_revision now = do
  target ← get_generation plane.generations generation_id
  require (target.revision == expected_revision) concurrent_modification
  source ← or_invariant (get_active plane.generations)
  require (not (source.id == target.id)) invariant_violation
  to_active ← require_transition target.status IndexGenerationStatus.active
  to_superseded ← require_transition source.status IndexGenerationStatus.superseded
  require (not (any (is_stray source.id) plane.notes)) invariant_violation
  let notes = filter (live_on source.id) plane.notes
  jobs ← switch_jobs plane.jobs source.id target.id target_status notes
  superseded ←
      set_status source IndexGenerationStatus.superseded source.activated_at plane.generations
  activated ← set_status target IndexGenerationStatus.active (some now) superseded
  plane' ← switch_notes target.id now jobs (record plane { generations = activated })
  ok (plane', length notes)

abbrev pub promote_index_generation : ControlPlane → ℕ → ℕ → ℕ → Result Error (ControlPlane × ℕ)
promote_index_generation = switch_generation IndexJobStatus.indexed

abbrev pub rollback_index_generation : ControlPlane → ℕ → ℕ → ℕ → Result Error (ControlPlane × ℕ)
rollback_index_generation = switch_generation IndexJobStatus.delete_pending

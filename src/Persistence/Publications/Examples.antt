-- ===== src/Persistence/Publications/Examples.antt =====
-- A publication that is activated, a note that is deleted and restored, and a run that is restarted
-- (persistence/publication_repository.py).
use trustworthy_personal_kno.Prelude.{
  ℕ, ◌≡◌, ◌≢◌, refl, not, none, some, [], ◌∷◌, filter, codes, ok, raised, ◌==◌, nat_eq, Option,
  Text,
}
use trustworthy_personal_kno.Domain.Enums.Entity.{EntityType}
use trustworthy_personal_kno.Domain.Enums.Publication.{
  CuratedVersionStatus, IndexGenerationStatus, IndexJobStatus, PublicationRunStatus,
  KnowledgeChangeStatus,
}
use trustworthy_personal_kno.Domain.Errors.{concurrent_modification}
use trustworthy_personal_kno.Persistence.Tables.{required_row, cas}
use trustworthy_personal_kno.Persistence.Generations.{
  GenerationRow, NoteRow, JobRow, ControlPlane, get_active, set_status,
}
use trustworthy_personal_kno.Persistence.Publications.{
  ChangeRow, VersionRow, RunRow, Tables, CurrentRow, note_row, any_note_row, job_row, run_row,
  update_curated_version, resolve_current_versions, transition_publication_run,
}
use trustworthy_personal_kno.Persistence.Publications.Recycling.{
  prepare_note_deletion, restore_note,
}
use trustworthy_personal_kno.Persistence.Publications.Recycling.Returning.{
  deletion_hides, restore_returns,
}
use trustworthy_personal_kno.Persistence.Publications.Activating.{
  ActivationRequest, load, supersede_version, supersede_generation, activate_generation,
  switch_pointers, activate_publication,
}
use trustworthy_personal_kno.Persistence.Publications.Activating.Switching.{
  IsActivated, activation_switches,
}
use trustworthy_personal_kno.Persistence.Publications.Restarting.{IsMoved, run_moves_once}

abbrev staged : GenerationRow
staged = record {
  id = 10;
  generation_number = 1;
  status = IndexGenerationStatus.staging;
  activated_at = none;
  revision = 1;
}

abbrev note : NoteRow
note = record {
  id = 1;
  canonical_path = codes "notes/a.md";
  deleted_at = none;
  current_curated_version_id = some 11;
  active_index_generation_id = some 10;
  revision = 4;
}

abbrev job : JobRow
job = record {
  id = 20;
  object_type = EntityType.curated_version;
  object_id = 12;
  generation_id = 10;
  status = IndexJobStatus.indexed;
  content_hash = some 7;
  indexed_chunk_count = 3;
  operation_id = none;
  last_verified_at = some 5;
  error_category = none;
  revision = 3;
}

abbrev version : ℕ → CuratedVersionStatus → VersionRow
version id status = record {
  id = id;
  note_id = 1;
  based_on_change_id = 30;
  content_hash = 7;
  status = status;
  published_at = none;
  revision = 2;
}

abbrev change : ChangeRow
change = record { id = 30; status = KnowledgeChangeStatus.publish_intent; revision = 2 }

abbrev run : PublicationRunStatus → RunRow
run status = record {
  id = 40;
  knowledge_change_id = 30;
  note_id = 1;
  curated_version_id = 12;
  target_generation_id = 10;
  operation_id = codes "operation";
  status = status;
  attempt = 1;
  error_category = none;
  completed_at = none;
  revision = 8;
}

abbrev before : Tables
before = record {
  plane = record { generations = staged ∷ []; notes = note ∷ []; jobs = job ∷ [] };
  changes = change ∷ [];
  versions = version 11 CuratedVersionStatus.active ∷ version 12 CuratedVersionStatus.staging ∷ [];
  runs = run PublicationRunStatus.activating ∷ [];
}

abbrev request : ActivationRequest
request = record {
  run_id = 40;
  job_id = 20;
  expected_run_revision = 8;
  expected_note_revision = 4;
  expected_version_revision = 2;
  expected_job_revision = 3;
  expected_change_revision = 2;
  expected_generation_revision = 1;
}

abbrev after : Tables
after = record {
  plane = record {
    generations =
        record staged { status = IndexGenerationStatus.active; activated_at = some 9; revision = 2 }
        ∷ [];
    notes =
        record note {
          current_curated_version_id = some 12;
          active_index_generation_id = some 10;
          revision = 5;
        }
        ∷ [];
    jobs = record job { status = IndexJobStatus.active_indexed; revision = 4 } ∷ [];
  };
  changes = record change { status = KnowledgeChangeStatus.active; revision = 3 } ∷ [];
  versions =
      record (version 11 CuratedVersionStatus.superseded) { revision = 3 }
      ∷ record (version 12 CuratedVersionStatus.active) { published_at = some 9; revision = 3 }
      ∷ [];
  runs = record (run PublicationRunStatus.completed) { completed_at = some 9; revision = 9 } ∷ [];
}

activated : activate_publication before request 9 ≡ ok after
unfolding activate_publication load switch_pointers required_row note_row cas supersede_version
    update_curated_version activate_generation supersede_generation get_active set_status
activated = refl

activation_switches_example :
    (r : RunRow) × (run_row before.runs 40 ≡ ok r) × IsActivated before after r 20
activation_switches_example = activation_switches before after request 9 activated

abbrev served : ControlPlane
served = after.plane

abbrev recycled : ControlPlane
recycled = record served {
  notes =
      record note { current_curated_version_id = some 12; deleted_at = some 15; revision = 6 } ∷ [];
  jobs = record job { status = IndexJobStatus.delete_pending; revision = 5 } ∷ [];
}

abbrev published_note : NoteRow
published_note = record note { current_curated_version_id = some 12; revision = 5 }

found : any_note_row served.notes 1 ≡ ok published_note
unfolding required_row
found = refl

deleted : prepare_note_deletion served 1 20 5 4 15 ≡ ok recycled
unfolding prepare_note_deletion required_row cas
deleted = refl

deletion_hides_example :
    resolve_current_versions recycled.notes (1 ∷ [])
    ≡ filter
        (λ (c : CurrentRow). not (c.note_id == 1))
        (resolve_current_versions served.notes (1 ∷ []))
deletion_hides_example =
    deletion_hides served recycled 1 20 5 4 15 published_note found deleted (1 ∷ []) refl

-- The note's chunks were deleted, and indexed again.
abbrev indexed_again : ControlPlane
indexed_again = record recycled { jobs = record job { revision = 9 } ∷ [] }

job_found : job_row indexed_again.jobs 20 ≡ ok (record job { revision = 9 })
unfolding required_row
job_found = refl

restore_returns_example :
    (plane : ControlPlane) × (restore_note indexed_again 1 20 6 9 18 ≡ ok plane)
    × (any_note_row plane.notes 1 ≡ ok (record published_note { revision = 7 }))
    × ((k : ℕ) → k ≢ 1 → any_note_row plane.notes k ≡ any_note_row served.notes k)
    × ((j : JobRow) × (job_row plane.jobs 20 ≡ ok j) × (j.status ≡ IndexJobStatus.active_indexed))
restore_returns_example =
    restore_returns served recycled 1 20 5 4 15 published_note found deleted indexed_again
      (record job { revision = 9 }) 18 refl job_found refl refl refl

abbrev failed : RunRow
failed = record (run PublicationRunStatus.failed) { error_category = some (codes "timeout") }

abbrev restarted : RunRow
restarted = record (run PublicationRunStatus.indexing) { attempt = 2; revision = 9 }

restarts :
    transition_publication_run (failed ∷ []) 40 PublicationRunStatus.indexing 8 none 9
    ≡ ok (restarted ∷ [])
unfolding transition_publication_run required_row cas
restarts = refl

run_moves_once_example :
    ((r : RunRow) × (r' : RunRow) × (run_row (failed ∷ []) 40 ≡ ok r)
      × (r.revision ≡ 8)
      × (run_row (restarted ∷ []) 40 ≡ ok r')
      × IsMoved r r' PublicationRunStatus.indexing none 9)
    × ((k : ℕ) → k ≢ 40 → run_row (restarted ∷ []) k ≡ run_row (failed ∷ []) k)
    × ((target : PublicationRunStatus) (error : Option Text) (now : ℕ)
        → transition_publication_run (restarted ∷ []) 40 target 8 error now
          ≡ raised concurrent_modification)
run_moves_once_example =
    run_moves_once (failed ∷ []) (restarted ∷ []) 40 8 9 PublicationRunStatus.indexing none restarts

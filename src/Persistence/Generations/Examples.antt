-- ===== src/Persistence/Generations/Examples.antt =====
-- A promotion (persistence/publication_repository.py) over one live note and one deleted note.
use trustworthy_personal_kno.Prelude.{
  ℕ, ◌≡◌, refl, false, none, some, [], ◌∷◌, ok, All, inl, inr, length, filter, codes,
}
use trustworthy_personal_kno.Domain.Enums.Publication.{IndexGenerationStatus, IndexJobStatus}
use trustworthy_personal_kno.Domain.Enums.Entity.{EntityType}
use trustworthy_personal_kno.Persistence.Generations.{
  GenerationRow, NoteRow, JobRow, ControlPlane, get_generation, get_active, find_job, switch_jobs,
  set_status, switch_note, switch_notes, switch_generation, is_stray, live_on,
}
use trustworthy_personal_kno.Persistence.Generations.Switch.{IsSole, ActiveIs, switch_moves_all}

abbrev serving : GenerationRow
serving = record {
  id = 9;
  generation_number = 1;
  status = IndexGenerationStatus.active;
  activated_at = some 5;
  revision = 2;
}

abbrev staged : GenerationRow
staged = record {
  id = 10;
  generation_number = 2;
  status = IndexGenerationStatus.staging;
  activated_at = none;
  revision = 1;
}

abbrev live_note : NoteRow
live_note = record {
  id = 1;
  canonical_path = codes "notes/a.md";
  deleted_at = none;
  current_curated_version_id = some 11;
  active_index_generation_id = some 9;
  revision = 4;
}

abbrev deleted_note : NoteRow
deleted_note = record live_note { id = 2; deleted_at = some 3 }

abbrev job : ℕ → ℕ → IndexJobStatus → JobRow
job id generation status = record {
  id = id;
  object_type = EntityType.curated_version;
  object_id = 11;
  generation_id = generation;
  status = status;
  content_hash = none;
  indexed_chunk_count = 0;
  operation_id = none;
  last_verified_at = none;
  error_category = none;
  revision = 1;
}

abbrev before : ControlPlane
before = record {
  generations = serving ∷ staged ∷ [];
  notes = live_note ∷ deleted_note ∷ [];
  jobs = job 21 9 IndexJobStatus.active_indexed ∷ job 22 10 IndexJobStatus.indexed ∷ [];
}

abbrev after : ControlPlane
after = record {
  generations =
      record serving { status = IndexGenerationStatus.superseded; revision = 3 }
      ∷ record staged { status = IndexGenerationStatus.active; activated_at = some 8; revision = 2 }
      ∷ [];
  notes =
      record live_note { active_index_generation_id = some 10; revision = 5 } ∷ deleted_note ∷ [];
  jobs =
      record (job 21 9 IndexJobStatus.delete_pending) { last_verified_at = some 8; revision = 2 }
      ∷ record (job 22 10 IndexJobStatus.active_indexed) { last_verified_at = some 8; revision = 2 }
      ∷ [];
}

promoted : switch_generation IndexJobStatus.indexed before 10 1 8 ≡ ok (after, 1)
unfolding switch_generation get_generation get_active find_job switch_jobs set_status switch_note
    switch_notes
promoted = refl

sole : IsSole serving before.generations
sole = (inr refl, (inl refl, tt))

switch_moves_all_example :
    ((g : GenerationRow) × (get_active after.generations ≡ some g) × (g.id ≡ 10))
    × ActiveIs 10 after.generations
    × All (λ x. is_stray 10 x ≡ false) after.notes
    × (1 ≡ length (filter (live_on serving.id) before.notes))
switch_moves_all_example =
    switch_moves_all IndexJobStatus.indexed before after 10 1 8 1 serving sole promoted

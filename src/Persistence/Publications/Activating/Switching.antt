-- ===== src/Persistence/Publications/Activating/Switching.antt =====
-- What `activate_publication` (persistence/publication_repository.py) leaves behind.
use trustworthy_personal_kno.Prelude.{
  ℕ, ◌≡◌, ◌≢◌, refl, sym, ap, ◌∙◌, subst, true, ◌&&◌, some, and_split, ◌==◌, nat_eq, ==→eq, ==-self,
  ok, require_inv, bind_inv, ok_injective,
}
use trustworthy_personal_kno.Domain.Enums.Entity.{EntityType, entity_type_eq}
use trustworthy_personal_kno.Domain.Enums.Publication.{
  CuratedVersionStatus, curated_version_status_eq, IndexGenerationStatus,
  index_generation_status_eq, IndexJobStatus, index_job_status_eq, PublicationRunStatus,
  publication_run_status_eq, KnowledgeChangeStatus, knowledge_change_status_eq,
}
use trustworthy_personal_kno.Domain.Transitions.Publication.{
  curated_version_status_machine, index_generation_status_machine,
}
use trustworthy_personal_kno.Persistence.Tables.{
  cas, cas_inv, cas_found, cas_others, required_row_id,
}
use trustworthy_personal_kno.Persistence.Generations.{GenerationRow, NoteRow, JobRow}
use trustworthy_personal_kno.Persistence.Generations.Switch.{IsSole, ActiveIs}
use trustworthy_personal_kno.Persistence.Publications.{
  ChangeRow, VersionRow, RunRow, Tables, change_row, curated_row, run_row, job_row, any_note_row,
  generation_row, note_row,
}
use trustworthy_personal_kno.Persistence.Publications.Activating.{
  ActivationRequest, Loaded, load, is_expected, is_ready, is_owned, supersede_version,
  activate_generation, live_at, published, active_version, active_job, active_change, completed_run,
  switch_pointers, activate_publication,
}
use trustworthy_personal_kno.Persistence.Publications.Activating.Steps.{
  conj, selects, note_row_lem, note_row-rewritten, supersede_version_lem, activate_generation_lem,
}

-- What an activation leaves: the pointers of the note, the version before superseded, the other notes
-- untouched, the statuses of the rows of the run.
pub record IsActivated (t t' : Tables) (run : RunRow) (job_id : ℕ) : Type 0 where
  pub note :
      (n : NoteRow) × (note_row t'.plane.notes run.note_id ≡ ok n)
      × (n.current_curated_version_id ≡ some run.curated_version_id)
      × (n.active_index_generation_id ≡ some run.target_generation_id)
  pub others :
      (k : ℕ) → k ≢ run.note_id → any_note_row t'.plane.notes k ≡ any_note_row t.plane.notes k
  pub version :
      (v : VersionRow) × (curated_row t'.versions run.curated_version_id ≡ ok v)
      × (v.status ≡ CuratedVersionStatus.active)
  pub replaced :
      (n : NoteRow)
      → note_row t.plane.notes run.note_id ≡ ok n
      → (id : ℕ) → n.current_curated_version_id ≡ some id
      → id ≢ run.curated_version_id
      → (v : VersionRow) × (curated_row t'.versions id ≡ ok v)
        × (v.status ≡ CuratedVersionStatus.superseded)
  pub job :
      (j : JobRow) × (job_row t'.plane.jobs job_id ≡ ok j)
      × (j.status ≡ IndexJobStatus.active_indexed)
      × (j.object_id ≡ run.curated_version_id)
      × (j.generation_id ≡ run.target_generation_id)
  pub change :
      (c : ChangeRow) × (change_row t'.changes run.knowledge_change_id ≡ ok c)
      × (c.status ≡ KnowledgeChangeStatus.active)
  pub completed :
      (r : RunRow) × (run_row t'.runs run.id ≡ ok r) × (r.status ≡ PublicationRunStatus.completed)
  pub generation :
      (g : GenerationRow) × (generation_row t'.plane.generations run.target_generation_id ≡ ok g)
      × (g.status ≡ IndexGenerationStatus.active)
  pub only :
      (s : GenerationRow)
      → IsSole s t.plane.generations
      → ActiveIs run.target_generation_id t'.plane.generations

-- What a load that returned has read.
record IsLoaded (t : Tables) (a : ActivationRequest) (l : Loaded) : Type 0 where
  pub run : run_row t.runs a.run_id ≡ ok l.run
  pub note : note_row t.plane.notes l.run.note_id ≡ ok l.note
  pub version : curated_row t.versions l.run.curated_version_id ≡ ok l.version
  pub job : job_row t.plane.jobs a.job_id ≡ ok l.job
  pub change : change_row t.changes l.run.knowledge_change_id ≡ ok l.change
  pub generation : generation_row t.plane.generations l.run.target_generation_id ≡ ok l.generation

load_inv : (t : Tables) (a : ActivationRequest) (l : Loaded) → load t a ≡ ok l → IsLoaded t a l
unfolding load
load_inv t a l h =
    let (run, e₁, h₁) = bind_inv (run_row t.runs a.run_id) _ h in
    let (note, e₂, h₂) = bind_inv (note_row t.plane.notes run.note_id) _ h₁ in
    let (version, e₃, h₃) = bind_inv (curated_row t.versions run.curated_version_id) _ h₂ in
    let (job, e₄, h₄) = bind_inv (job_row t.plane.jobs a.job_id) _ h₃ in
    let (change, e₅, h₅) = bind_inv (change_row t.changes run.knowledge_change_id) _ h₄ in
    let (generation, e₆, h₆) =
      bind_inv (generation_row t.plane.generations run.target_generation_id) _ h₅ in
    subst (IsLoaded t a) (ok_injective h₆)
      (record { run = e₁; note = e₂; version = e₃; job = e₄; change = e₅; generation = e₆ })

-- The expected revisions, one by one.
record AsExpected (a : ActivationRequest) (l : Loaded) : Type 0 where
  pub run : l.run.revision ≡ a.expected_run_revision
  pub note : l.note.revision ≡ a.expected_note_revision
  pub version : l.version.revision ≡ a.expected_version_revision
  pub job : l.job.revision ≡ a.expected_job_revision
  pub change : l.change.revision ≡ a.expected_change_revision

expected_inv : (a : ActivationRequest) (l : Loaded) → is_expected a l ≡ true → AsExpected a l
expected_inv a l h =
    let (e₁, h₁) = and_split (l.run.revision == a.expected_run_revision) _ h in
    let (e₂, h₂) = and_split (l.note.revision == a.expected_note_revision) _ h₁ in
    let (e₃, h₃) = and_split (l.version.revision == a.expected_version_revision) _ h₂ in
    let (e₄, h₄) = and_split (l.job.revision == a.expected_job_revision) _ h₃ in
    let (e₅, h₅) = and_split (l.change.revision == a.expected_change_revision) _ h₄ in
    record {
      run = ==→eq _ _ e₁;
      note = ==→eq _ _ e₂;
      version = ==→eq _ _ e₃;
      job = ==→eq _ _ e₄;
      change = ==→eq _ _ e₅;
    }

owned_inv :
    (l : Loaded)
    → is_owned l ≡ true
    → (l.job.object_id ≡ l.version.id) × (l.job.generation_id ≡ l.generation.id)
owned_inv l h =
    let (e₁, h₁) = and_split (l.version.note_id == l.note.id) _ h in
    let (e₂, h₂) = and_split (l.version.based_on_change_id == l.change.id) _ h₁ in
    let (e₃, h₃) = and_split (l.job.object_type == EntityType.curated_version) _ h₂ in
    let (e₄, e₅) = and_split (l.job.object_id == l.version.id) _ h₃ in (==→eq _ _ e₄, ==→eq _ _ e₅)

switch_pointers_lem :
    (t t' : Tables) (a : ActivationRequest) (now : ℕ) (l : Loaded)
    → IsLoaded t a l
    → AsExpected a l
    → is_owned l ≡ true
    → switch_pointers t a now l ≡ ok t'
    → IsActivated t t' l.run a.job_id
unfolding switch_pointers
switch_pointers_lem t t' a now l i x owned h =
    let (superseded, e₁, h₁) =
      bind_inv (supersede_version t.versions l.note.current_curated_version_id l.version) _ h in
    let (generations, e₂, h₂) =
      bind_inv (activate_generation t.plane.generations t.plane.notes l.generation now) _ h₁ in
    let (versions, e₃, h₃) =
      bind_inv
        (cas (λ (v : VersionRow). v.id)
          (λ v. v.id == l.version.id && v.revision == a.expected_version_revision) l.version.id
          (active_version a.expected_version_revision now) superseded)
        _ h₂ in
    let (notes, e₄, h₄) =
      bind_inv
        (cas (λ (n : NoteRow). n.id) (live_at l.note.id a.expected_note_revision) l.note.id
          (published l.version.id l.generation.id a.expected_note_revision) t.plane.notes)
        _ h₃ in
    let (jobs, e₅, h₅) =
      bind_inv
        (cas (λ (j : JobRow). j.id) (λ j. j.id == l.job.id && j.revision == a.expected_job_revision)
          l.job.id (active_job a.expected_job_revision) t.plane.jobs)
        _ h₄ in
    let (changes, e₆, h₆) =
      bind_inv
        (cas (λ (c : ChangeRow). c.id)
          (λ c. c.id == l.change.id && c.revision == a.expected_change_revision) l.change.id
          (active_change a.expected_change_revision) t.changes)
        _ h₅ in
    let (runs, e₇, h₇) =
      bind_inv
        (cas (λ (r : RunRow). r.id) (λ r. r.id == l.run.id && r.revision == a.expected_run_revision)
          l.run.id (completed_run a.expected_run_revision now) t.runs)
        _ h₆ in
    let note_selects = live_at l.note.id a.expected_note_revision in
    let publish = published l.version.id l.generation.id a.expected_note_revision in
    let version_selects =
      λ (v : VersionRow). v.id == l.version.id && v.revision == a.expected_version_revision in
    let version_id =
      required_row_id (λ (v : VersionRow). v.id) t.versions l.run.curated_version_id l.version
        i.version in
    let generation_id =
      required_row_id (λ (g : GenerationRow). g.id) t.plane.generations l.run.target_generation_id
        l.generation i.generation in
    let run_id = required_row_id (λ (r : RunRow). r.id) t.runs a.run_id l.run i.run in
    let (note_id, live) = note_row_lem t.plane.notes l.run.note_id l.note i.note in
    let (object, in_generation) = owned_inv l owned in
    let (kept, old) =
      supersede_version_lem t.versions superseded l.note.current_curated_version_id l.version
        (ap (curated_row t.versions) version_id ∙ i.version) e₁ in
    let ((g, found, active), sole) =
      activate_generation_lem t.plane.generations generations t.plane.notes l.generation now
        (ap (generation_row t.plane.generations) generation_id ∙ i.generation) e₂ in
    subst (λ u. IsActivated t u l.run a.job_id) (ok_injective h₇)
      (record {
        note = (
          publish l.note,
          ap (λ ns. note_row ns l.run.note_id)
                (cas_inv (λ (n : NoteRow). n.id) note_selects l.note.id publish t.plane.notes notes
                  e₄)
              ∙ note_row-rewritten note_selects publish t.plane.notes l.run.note_id l.note
                  (λ y. refl) (λ y. refl) i.note
                  (conj (==-self l.note.id) (
                    conj
                      (ap (λ n. n == a.expected_note_revision) x.note
                        ∙ ==-self a.expected_note_revision)
                      live)),
          ap some version_id,
          ap some generation_id,
        );
        others = λ k other.
            cas_others (λ (n : NoteRow). n.id) note_selects l.note.id publish t.plane.notes notes
              (λ y. refl) e₄ k (λ y s. ==→eq _ _ (and_split _ _ s).0) (λ e. other (e ∙ note_id));
        version = (
          active_version a.expected_version_revision now l.version,
          ap (curated_row versions) (sym version_id)
              ∙ cas_found (λ (v : VersionRow). v.id) version_selects l.version.id
                  (active_version a.expected_version_revision now) superseded versions (λ y. refl)
                  e₃ l.version.id l.version kept
                  (selects {k = l.version.id} {r = a.expected_version_revision} refl x.version),
          refl,
        );
        replaced = λ n before id current other.
            let (v, there, status) =
              old id
                (ap (λ (m : NoteRow). m.current_curated_version_id)
                    (ok_injective (sym i.note ∙ before))
                  ∙ current)
                (λ e. other (e ∙ version_id)) in
            (
              v,
              cas_others (λ (y : VersionRow). y.id) version_selects l.version.id
                    (active_version a.expected_version_revision now) superseded versions (λ y. refl)
                    e₃ id (λ y s. ==→eq _ _ (and_split _ _ s).0) (λ e. other (e ∙ version_id))
                  ∙ there,
              status,
            );
        job = (
          active_job a.expected_job_revision l.job,
          cas_found (λ (j : JobRow). j.id) _ l.job.id (active_job a.expected_job_revision)
              t.plane.jobs jobs (λ y. refl) e₅ a.job_id l.job i.job
              (selects {k = l.job.id} {r = a.expected_job_revision} refl x.job),
          refl,
          object ∙ version_id,
          in_generation ∙ generation_id,
        );
        change = (
          active_change a.expected_change_revision l.change,
          cas_found (λ (c : ChangeRow). c.id) _ l.change.id
              (active_change a.expected_change_revision) t.changes changes (λ y. refl) e₆
              l.run.knowledge_change_id l.change i.change
              (selects {k = l.change.id} {r = a.expected_change_revision} refl x.change),
          refl,
        );
        completed = (
          completed_run a.expected_run_revision now l.run,
          ap (run_row runs) run_id
              ∙ cas_found (λ (r : RunRow). r.id) _ l.run.id
                  (completed_run a.expected_run_revision now) t.runs runs (λ y. refl) e₇ a.run_id
                  l.run i.run (selects {k = l.run.id} {r = a.expected_run_revision} refl x.run),
          refl,
        );
        generation = (g, ap (generation_row generations) (sym generation_id) ∙ found, active);
        only = λ s once. subst (λ n. ActiveIs n generations) generation_id (sole s once);
      })

-- An activation that returns: the note points to the version and the generation of the run, the
-- version before, if there is another, is superseded, no other note is touched, the version, the
-- job of this version in this generation, the change and the run have their last statuses, the
-- generation is active, and if at most one generation was active before, no other is now.
pub activation_switches :
    (t t' : Tables) (a : ActivationRequest) (now : ℕ)
    → activate_publication t a now ≡ ok t'
    → (run : RunRow) × (run_row t.runs a.run_id ≡ ok run) × IsActivated t t' run a.job_id
unfolding activate_publication
activation_switches t t' a now h =
    let (l, loaded, h₁) = bind_inv (load t a) _ h in
    let (expected, h₂) = require_inv (is_expected a l) _ _ h₁ in
    let (valid, h₃) = require_inv (is_ready l && is_owned l) _ _ h₂ in
    let i = load_inv t a l loaded in
    (
      l.run,
      i.run,
      switch_pointers_lem t t' a now l i (expected_inv a l expected)
          (and_split (is_ready l) _ valid).1 h₃,
    )

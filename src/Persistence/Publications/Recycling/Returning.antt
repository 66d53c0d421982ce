-- ===== src/Persistence/Publications/Recycling/Returning.antt =====
-- A note that was deleted and restored, and what is served in between
-- (persistence/publication_repository.py).
use trustworthy_personal_kno.Prelude.{
  ℕ, ◌+◌, ◌≡◌, ◌≢◌, refl, sym, ap, ◌∙◌, subst, Bool, true, false, not, ◌&&◌, Option, none, some,
  List, [], ◌∷◌, ◌++◌, map, any, filter, distinct, All, All-map, Bool-cases, and_split, inl, inr,
  ◌⊎◌, ◌==◌, nat_eq, text_eq, ==→eq, ==-self, if◌then◌else◌, ok, bind_ok, require_ok, require_inv,
  bind_inv, ok_injective, arith,
}
use trustworthy_personal_kno.Domain.Enums.Entity.{entity_type_eq}
use trustworthy_personal_kno.Domain.Enums.Publication.{IndexJobStatus, index_job_status_eq}
use trustworthy_personal_kno.Domain.Machine.{require_transition}
use trustworthy_personal_kno.Domain.Transitions.Publication.{index_job_status_machine}
use trustworthy_personal_kno.Persistence.Tables.{
  cas, cas_inv, cas_hits, rewritten, required_row_id, required_row-rewritten, required_row-others,
  required_row-Only,
}
use trustworthy_personal_kno.Persistence.Generations.Notes.{All-mapped}
use trustworthy_personal_kno.Persistence.Generations.{NoteRow, JobRow, ControlPlane, is_null}
use trustworthy_personal_kno.Persistence.Publications.{
  any_note_row, job_row, CurrentRow, current_of, resolve_current_versions,
}
use trustworthy_personal_kno.Persistence.Publications.Recycling.{
  is_job_for, deletable, deleted_note, prepare_note_deletion, restorable, restored_note, takes_path,
  restore_note,
}

conj : {a b : Bool} → a ≡ true → b ≡ true → (a && b) ≡ true
conj {a = a} {b = b} h k = ground arith

null_none : (o : Option ℕ) → is_null o ≡ true → o ≡ none
null_none none h = refl
null_none (some n) h = cc

-- What a deletion that returned has found and done.
record Deletion (plane plane₁ : ControlPlane) (note_id revision now : ℕ) (n : NoteRow)
    : Type 0 where
  pub present : n.deleted_at ≡ none
  pub current : n.revision ≡ revision
  pub notes :
      plane₁.notes
      ≡ rewritten
          (λ (x : NoteRow). x.id)
          (deletable note_id revision)
          (deleted_note revision now)
          plane.notes

module _ (plane plane₁ : ControlPlane) (note_id job_id revision job_revision now : ℕ) where
  prepare_note_deletion_inv :
      (n : NoteRow)
      → any_note_row plane.notes note_id ≡ ok n
      → prepare_note_deletion plane note_id job_id revision job_revision now ≡ ok plane₁
      → Deletion plane plane₁ note_id revision now n
  unfolding prepare_note_deletion
  prepare_note_deletion_inv n found h =
      let (note, e₁, h₁) = bind_inv (any_note_row plane.notes note_id) _ h in
      let (job, e₂, h₂) = bind_inv (job_row plane.jobs job_id) _ h₁ in
      let (fresh, h₃) = require_inv (note.revision == revision) _ _ h₂ in
      let (job_fresh, h₄) = require_inv (job.revision == job_revision) _ _ h₃ in
      let (valid, h₅) = require_inv (is_null note.deleted_at && is_job_for note job) _ _ h₄ in
      let (allowed, e₃, h₆) =
        bind_inv (require_transition job.status IndexJobStatus.delete_pending) _ h₅ in
      let (notes, e₄, h₇) =
        bind_inv
          (cas (λ (x : NoteRow). x.id) (deletable note_id revision) note_id
            (deleted_note revision now) plane.notes)
          _ h₆ in
      let (jobs, e₅, h₈) =
        bind_inv
          (cas (λ (x : JobRow). x.id) (λ x. x.id == job_id && x.revision == job_revision) job_id _
            plane.jobs)
          _ h₇ in
      let same : note ≡ n = ok_injective (sym e₁ ∙ found) in
      record {
        present =
            null_none n.deleted_at
              (ap (λ (x : NoteRow). is_null x.deleted_at) (sym same) ∙ (and_split _ _ valid).0);
        current = ap (λ (x : NoteRow). x.revision) (sym same) ∙ ==→eq _ _ fresh;
        notes = sym (ap (λ (p : ControlPlane). p.notes) (ok_injective h₈)) ∙ cas_inv _ _ _ _ _ _ e₄;
      }

same_number : {a b : ℕ} → a ≡ b → (a == b) ≡ true
same_number {b = b} e = ap (λ i. i == b) e ∙ ==-self b

own_deletable :
    (plane plane₁ : ControlPlane) (note_id revision now : ℕ) (n : NoteRow)
    → any_note_row plane.notes note_id ≡ ok n
    → Deletion plane plane₁ note_id revision now n
    → deletable note_id revision n ≡ true
own_deletable plane plane₁ note_id revision now n found d =
    conj (same_number (required_row_id (λ (x : NoteRow). x.id) plane.notes note_id n found))
      (conj (same_number d.current) (ap is_null d.present))

filter_current_dropped :
    (note_id : ℕ) (x : NoteRow) (t v g : Option ℕ) (rest : List CurrentRow)
    → (x.id == note_id) ≡ true
    → filter (λ (c : CurrentRow). not (c.note_id == note_id)) (current_of x t v g ++ rest)
      ≡ filter (λ (c : CurrentRow). not (c.note_id == note_id)) rest
filter_current_dropped note_id x (some t) v g rest e = refl
filter_current_dropped note_id x none none g rest e = refl
filter_current_dropped note_id x none (some v) none rest e = refl
filter_current_dropped note_id x none (some v) (some g) rest e = rw e refl

filter_current_kept :
    (note_id : ℕ) (x : NoteRow) (t v g : Option ℕ) (rest : List CurrentRow)
    → (x.id == note_id) ≡ false
    → filter (λ (c : CurrentRow). not (c.note_id == note_id)) (current_of x t v g ++ rest)
      ≡ current_of x t v g ++ filter (λ (c : CurrentRow). not (c.note_id == note_id)) rest
filter_current_kept note_id x (some t) v g rest e = refl
filter_current_kept note_id x none none g rest e = refl
filter_current_kept note_id x none (some v) none rest e = refl
filter_current_kept note_id x none (some v) (some g) rest e = rw e refl

-- A query of the current versions, after a deletion.
resolve_lem :
    (note_id revision now : ℕ) (ids : List ℕ) (rows : List NoteRow)
    → All (λ (x : NoteRow). x.id ≡ note_id → deletable note_id revision x ≡ true) rows
    → resolve_current_versions
        (rewritten
          (λ (x : NoteRow). x.id)
          (deletable note_id revision)
          (deleted_note revision now)
          rows)
        ids
      ≡ filter (λ (c : CurrentRow). not (c.note_id == note_id)) (resolve_current_versions rows ids)
unfolding resolve_current_versions
resolve_lem note_id revision now ids [] a = refl
resolve_lem note_id revision now ids (x ∷ rows) a = elim (Bool-cases (x.id == note_id)) [
  | inl b ↦ rw (a.0 (==→eq _ _ b)) (
      hidden (any (λ n. n == x.id) ids)
      ∙ resolve_lem note_id revision now ids rows a.1
      ∙ sym (dropped b (any (λ n. n == x.id) ids)))
  | inr b ↦ rw (untouched b) (
      ap
        (λ r.
          (if any (λ n. n == x.id) ids
            then current_of x x.deleted_at x.current_curated_version_id x.active_index_generation_id
            else [])
          ++ r)
        (resolve_lem note_id revision now ids rows a.1)
      ∙ sym (kept b (any (λ n. n == x.id) ids)))
]
  where
    hidden : {rest : List CurrentRow} (b : Bool) → (if b then [] else []) ++ rest ≡ rest
    hidden true = refl
    hidden false = refl

    untouched : (x.id == note_id) ≡ false → deletable note_id revision x ≡ false
    untouched b = rw b refl

    dropped :
        (x.id == note_id) ≡ true
        → (b : Bool)
        → filter
            (λ (c : CurrentRow). not (c.note_id == note_id))
            ((if b
                then current_of x x.deleted_at x.current_curated_version_id
                    x.active_index_generation_id
                else [])
              ++ resolve_current_versions rows ids)
          ≡ filter
              (λ (c : CurrentRow). not (c.note_id == note_id))
              (resolve_current_versions rows ids)
    dropped e false = refl
    dropped e true =
        filter_current_dropped note_id x x.deleted_at x.current_curated_version_id
          x.active_index_generation_id (resolve_current_versions rows ids) e

    kept :
        (x.id == note_id) ≡ false
        → (b : Bool)
        → filter
            (λ (c : CurrentRow). not (c.note_id == note_id))
            ((if b
                then current_of x x.deleted_at x.current_curated_version_id
                    x.active_index_generation_id
                else [])
              ++ resolve_current_versions rows ids)
          ≡ (if b
              then current_of x x.deleted_at x.current_curated_version_id
                  x.active_index_generation_id
              else [])
            ++ filter
                (λ (c : CurrentRow). not (c.note_id == note_id))
                (resolve_current_versions rows ids)
    kept e false = refl
    kept e true =
        filter_current_kept note_id x x.deleted_at x.current_curated_version_id
          x.active_index_generation_id (resolve_current_versions rows ids) e

module _ (plane plane₁ : ControlPlane) (note_id job_id revision job_revision now : ℕ) (n : NoteRow)
    (found : any_note_row plane.notes note_id ≡ ok n)
    (deleted : prepare_note_deletion plane note_id job_id revision job_revision now
      ≡ ok plane₁) where
  -- A deletion takes the note, and no other, out of what is current, whatever ids are asked for.
  pub deletion_hides :
      (ids : List ℕ)
      → distinct (map (λ (x : NoteRow). x.id) plane.notes) ≡ true
      → resolve_current_versions plane₁.notes ids
        ≡ filter
            (λ (c : CurrentRow). not (c.note_id == note_id))
            (resolve_current_versions plane.notes ids)
  deletion_hides ids unique =
      let d =
        prepare_note_deletion_inv plane plane₁ note_id job_id revision job_revision now n found
          deleted in
      let own = own_deletable plane plane₁ note_id revision now n found d in
      ap (λ ns. resolve_current_versions ns ids) d.notes
      ∙ resolve_lem note_id revision now ids plane.notes (
          All-map _ _ plane.notes
            (λ x only same. subst (λ y. deletable note_id revision y ≡ true) (sym (only same)) own)
            (required_row-Only (λ (x : NoteRow). x.id) plane.notes note_id n unique found))

  -- After a deletion each row of the note is deleted.
  pub deletion-Gone :
      distinct (map (λ (x : NoteRow). x.id) plane.notes) ≡ true
      → All (λ (x : NoteRow). x.id ≡ note_id → x.deleted_at ≡ some now) plane₁.notes
  deletion-Gone unique =
      let d =
        prepare_note_deletion_inv plane plane₁ note_id job_id revision job_revision now n found
          deleted in
      let own = own_deletable plane plane₁ note_id revision now n found d in
      subst (All (λ (x : NoteRow). x.id ≡ note_id → x.deleted_at ≡ some now)) (sym d.notes) (
        All-mapped (λ (x : NoteRow). x.id ≡ note_id → x ≡ n)
          (λ (x : NoteRow). x.id ≡ note_id → x.deleted_at ≡ some now)
          (λ x. if deletable note_id revision x then deleted_note revision now x else x) plane.notes
          (λ x only same. gone x only own (Bool-cases (deletable note_id revision x)) same)
          (required_row-Only (λ (x : NoteRow). x.id) plane.notes note_id n unique found))
    where
      gone :
          (x : NoteRow)
          → (x.id ≡ note_id → x ≡ n)
          → deletable note_id revision n ≡ true
          → (deletable note_id revision x ≡ true) ⊎ (deletable note_id revision x ≡ false)
          → (if deletable note_id revision x then deleted_note revision now x else x).id ≡ note_id
          → (if deletable note_id revision x then deleted_note revision now x else x).deleted_at
            ≡ some now
      gone x only own (inl b) same = rw b refl
      gone x only own (inr b) same =
          let e : x ≡ n = only (rw b at same) in
          cc (sym b ∙ ap (deletable note_id revision) e ∙ own)

  -- A deleted note comes back: whatever was done to the jobs since, if the job is indexed and still
  -- that of the note, and no live note has taken the path, then the restoration returns; the note is
  -- as before but for two revisions more, all other notes are as they were before the deletion, and
  -- the job is active.
  pub restore_returns :
      (plane₂ : ControlPlane) (j : JobRow) (later : ℕ)
      → plane₂.notes ≡ plane₁.notes
      → job_row plane₂.jobs job_id ≡ ok j
      → j.status ≡ IndexJobStatus.indexed
      → is_job_for n j ≡ true
      → any (takes_path n) plane₂.notes ≡ false
      → (plane₃ : ControlPlane) × (restore_note plane₂ note_id job_id
            (revision + 1)
            j.revision
            later
          ≡ ok plane₃)
        × (any_note_row plane₃.notes note_id ≡ ok (record n { revision = n.revision + 1 + 1 }))
        × ((k : ℕ) → k ≢ note_id → any_note_row plane₃.notes k ≡ any_note_row plane.notes k)
        × ((j' : JobRow) × (job_row plane₃.jobs job_id ≡ ok j')
            × (j'.status ≡ IndexJobStatus.active_indexed))
  unfolding restore_note
  restore_returns plane₂ j later kept found_job indexed belongs free =
      let d =
        prepare_note_deletion_inv plane plane₁ note_id job_id revision job_revision now n found
          deleted in
      let own = own_deletable plane plane₁ note_id revision now n found d in
      let named = required_row_id (λ (x : NoteRow). x.id) plane.notes note_id n found in
      let m = deleted_note revision now n in
      let there : any_note_row plane₂.notes note_id ≡ ok m =
        ap (λ ns. any_note_row ns note_id) (kept ∙ d.notes)
        ∙ required_row-rewritten (λ (x : NoteRow). x.id) (deletable note_id revision)
            (deleted_note revision now) plane.notes note_id n (λ x. refl) found own in
      let mine : restorable note_id (revision + 1) m ≡ true =
        conj (same_number named) (conj (same_number refl) refl) in
      let my_job =
        conj (same_number (required_row_id (λ (x : JobRow). x.id) plane₂.jobs job_id j found_job))
          (same_number {a = j.revision} refl) in
      let notes =
        rewritten (λ (x : NoteRow). x.id) (restorable note_id (revision + 1))
          (restored_note (revision + 1)) plane₂.notes in
      let selected = λ (x : JobRow). x.id == job_id && x.revision == j.revision in
      let update = λ (x : JobRow). record x {
        status = IndexJobStatus.active_indexed;
        error_category = none;
        last_verified_at = some later;
        revision = j.revision + 1;
      } in
      let jobs = rewritten (λ (x : JobRow). x.id) selected update plane₂.jobs in
      (
        record plane₂ { notes = notes; jobs = jobs },
        bind_ok _ _ there (
            bind_ok _ _ found_job (
              require_ok _ _ _ (same_number refl) (
                require_ok _ _ _ (same_number {a = j.revision} refl) (
                  require_ok _ _ _ (conj (ap (λ s. s == IndexJobStatus.indexed) indexed) belongs) (
                    bind_ok _ _
                      (ap (λ s. require_transition s IndexJobStatus.active_indexed) indexed)
                      (require_ok _ _ _ (ap not free) (
                        bind_ok _ _
                          (cas_hits (λ (x : NoteRow). x.id) (restorable note_id (revision + 1))
                            note_id note_id (restored_note (revision + 1)) plane₂.notes m there
                            mine)
                          (bind_ok _ _
                            (cas_hits (λ (x : JobRow). x.id) selected job_id job_id update
                              plane₂.jobs j found_job my_job)
                            refl)))))))),
        required_row-rewritten (λ (x : NoteRow). x.id) (restorable note_id (revision + 1))
              (restored_note (revision + 1)) plane₂.notes note_id m (λ x. refl) there mine
            ∙ ap ok (λ i. record n {
              deleted_at = sym d.present i;
              revision = sym d.current i + 1 + 1;
            }),
        λ k other.
            required_row-others (λ (x : NoteRow). x.id) (restorable note_id (revision + 1))
              (restored_note (revision + 1)) plane₂.notes note_id k (λ x. refl)
              (λ x s. ==→eq _ _ (and_split _ _ s).0) other
            ∙ ap (λ ns. any_note_row ns k) (kept ∙ d.notes)
            ∙ required_row-others (λ (x : NoteRow). x.id) (deletable note_id revision)
                (deleted_note revision now) plane.notes note_id k (λ x. refl)
                (λ x s. ==→eq _ _ (and_split _ _ s).0) other,
        (
          update j,
          required_row-rewritten (λ (x : JobRow). x.id) selected update plane₂.jobs job_id j
              (λ x. refl) found_job my_job,
          refl,
        ),
      )

-- ===== src/Persistence/Publications/Restarting.antt =====
-- The status changes of a publication run (persistence/publication_repository.py).
use trustworthy_personal_kno.Prelude.{
  ℕ, ◌+◌, ◌≡◌, ◌≢◌, refl, ap, ◌∙◌, subst, Bool, true, false, ◌&&◌, Option, none, some, List,
  Bool-cases, and_split, inl, inr, ◌==◌, nat_eq, ==→eq, ==-self, Text, ok, raised, bind_ok,
  require_inv, bind_inv, arith,
}
use trustworthy_personal_kno.Domain.Enums.Publication.{
  PublicationRunStatus, publication_run_status_eq,
}
use trustworthy_personal_kno.Domain.Errors.{concurrent_modification}
use trustworthy_personal_kno.Domain.Machine.{require_transition, can_transition}
use trustworthy_personal_kno.Domain.Transitions.Publication.{publication_run_status_machine}
use trustworthy_personal_kno.Persistence.Tables.{required_row_id, cas_found, cas_others}
use trustworthy_personal_kno.Persistence.Publications.{
  RunRow, run_row, moved_run, transition_publication_run,
}

-- The run afterwards: a restart after a failure counts another attempt and clears the error, any other
-- move keeps the attempts and records the error given, or none; and only completion sets the time.
pub record IsMoved (r r' : RunRow) (target : PublicationRunStatus) (error : Option Text) (now : ℕ)
    : Type 0 where
  pub allowed : can_transition r.status target ≡ true
  pub status : r'.status ≡ target
  pub revision : r'.revision ≡ r.revision + 1
  pub restarted :
      r.status ≡ PublicationRunStatus.failed
      → (r'.attempt ≡ r.attempt + 1) × (r'.error_category ≡ none)
  pub went_on :
      r.status ≢ PublicationRunStatus.failed
      → (r'.attempt ≡ r.attempt) × (r'.error_category ≡ error)
  pub ended : target ≡ PublicationRunStatus.completed → r'.completed_at ≡ some now
  pub not_ended : target ≢ PublicationRunStatus.completed → r'.completed_at ≡ r.completed_at

same_status : (a b : PublicationRunStatus) → a ≡ b → (a == b) ≡ true
same_status a b e = ap (λ s. s == b) e ∙ ==-self b

other_status : (a b : PublicationRunStatus) → a ≢ b → (a == b) ≡ false
other_status a b n = elim (Bool-cases (a == b)) [ inl e ↦ absurd (n (==→eq a b e)) | inr e ↦ e ]

moved_lem :
    (r : RunRow) (target : PublicationRunStatus) (error : Option Text) (now : ℕ)
    → can_transition r.status target ≡ true
    → IsMoved r (moved_run r target error r.revision now r) target error now
moved_lem r target error now allowed = record {
  allowed = allowed;
  status = refl;
  revision = refl;
  restarted = λ e. rw (same_status r.status PublicationRunStatus.failed e) (refl, refl);
  went_on = λ n. rw (other_status r.status PublicationRunStatus.failed n) (refl, refl);
  ended = λ e. rw (same_status target PublicationRunStatus.completed e) refl;
  not_ended = λ n. rw (other_status target PublicationRunStatus.completed n) refl;
}

transition_allowed :
    (s t u : PublicationRunStatus) → require_transition s t ≡ ok u → can_transition s t ≡ true
transition_allowed s t u h = elim (Bool-cases (can_transition s t)) [
  | inl b ↦ b
  | inr b ↦ cc (rw b at h)
]

-- A status change of a run that returns: the run was there with the revision expected and is moved
-- along a declared transition. A restart after a failure counts another attempt and clears the error;
-- any other move keeps the attempts and records the error that the call gives, or that there is none.
-- Only a move to COMPLETED sets the time of completion. All other runs are as before, and a second
-- call that expects the same revision raises, whatever it asks for.
pub run_moves_once :
    (runs runs' : List RunRow) (id revision now : ℕ) (target : PublicationRunStatus)
    (error : Option Text)
    → transition_publication_run runs id target revision error now ≡ ok runs'
    → ((r : RunRow) × (r' : RunRow) × (run_row runs id ≡ ok r)
        × (r.revision ≡ revision)
        × (run_row runs' id ≡ ok r')
        × IsMoved r r' target error now)
      × ((k : ℕ) → k ≢ id → run_row runs' k ≡ run_row runs k)
      × ((target' : PublicationRunStatus) (error' : Option Text) (now' : ℕ)
          → transition_publication_run runs' id target' revision error' now'
            ≡ raised concurrent_modification)
unfolding transition_publication_run
run_moves_once runs runs' id revision now target error h =
    let (r, found, h₁) = bind_inv (run_row runs id) _ h in
    let (fresh, h₂) = require_inv (r.revision == revision) _ _ h₁ in
    let (s, allowed, h₃) = bind_inv (require_transition r.status target) _ h₂ in
    let named = required_row_id (λ (x : RunRow). x.id) runs id r found in
    let current = ==→eq r.revision revision fresh in
    let there =
      cas_found (λ (x : RunRow). x.id) _ id (moved_run r target error revision now) runs runs'
        (λ x. refl) h₃ id r found (both (ap (λ n. n == id) named ∙ ==-self id) fresh) in
    (
      (
        r,
        moved_run r target error revision now r,
        found,
        current,
        there,
        subst (λ n. IsMoved r (moved_run r target error n now r) target error now) current
            (moved_lem r target error now (transition_allowed r.status target s allowed)),
      ),
      λ k other.
          cas_others (λ (x : RunRow). x.id) _ id (moved_run r target error revision now) runs runs'
            (λ x. refl) h₃ k (λ x e. ==→eq _ _ (and_split _ _ e).0) other,
      λ target' error' now'. bind_ok (run_row runs' id) _ there (rw (stale revision) refl),
    )
  where
    both : {a b : Bool} → a ≡ true → b ≡ true → (a && b) ≡ true
    both {a = a} {b = b} h k = ground arith

    stale : (n : ℕ) → (n + 1 == n) ≡ false
    stale n = ground arith

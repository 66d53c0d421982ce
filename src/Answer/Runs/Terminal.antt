-- ===== src/Answer/Runs/Terminal.antt =====
-- A run of persistence/answer_repository.py ends once, in a row of the right shape.
use trustworthy_personal_kno.Prelude.{
  ℕ, ◌+◌, ◌≡◌, ◌≢◌, refl, sym, ap, ◌∙◌, true, Option, none, some, [], ◌∷◌, arith, ◌==◌, ==→eq,
  nat_eq, text_eq, ok, raised, require, require_inv, bind_inv, subst, All, Bool-cases, inl, inr,
  ◌⊎◌, raised-ne-ok, ok_injective,
}
use trustworthy_personal_kno.Domain.Enums.Execution.{AnswerRunStatus, answer_run_status_eq}
use trustworthy_personal_kno.Domain.Errors.{
  invariant_violation, concurrent_modification, invalid_state_transition,
}
use trustworthy_personal_kno.Domain.Machine.{require_transition}
use trustworthy_personal_kno.Domain.Transitions.Execution.{answer_run_status_machine}
use trustworthy_personal_kno.Answer.Contracts.{Identifier}
use trustworthy_personal_kno.Answer.Runs.{
  AnswerRunRecord, Runs, allowed, get_row, put_row, ended_row, Ending, finish, or_missing,
}

-- What a successful `_finish` did.
pub record Finished (runs : Runs) (run_id : Identifier) (revision : ℕ) (e : Ending) (after : Runs)
    (updated : AnswerRunRecord) : Type 0 where
  pub before : AnswerRunRecord
  pub found : get_row runs run_id ≡ some before
  pub current : before.revision ≡ revision
  pub was_open : before.status ≡ AnswerRunStatus.in_progress
  pub ended :
      (updated.status ≡ AnswerRunStatus.answered)
      ⊎ (updated.status ≡ AnswerRunStatus.refused)
      ⊎ (updated.status ≡ AnswerRunStatus.failed)
  pub meant : updated.status ≡ e.target
  pub counted : updated.revision ≡ revision + 1
  pub same_id : updated.id ≡ before.id
  pub same_operation : updated.operation_id ≡ before.operation_id
  pub valid : allowed updated ≡ true
  pub written : after ≡ put_row runs updated

transition_inv :
    (s target : AnswerRunStatus) {t : AnswerRunStatus}
    → require_transition s target ≡ ok t
    → (t ≡ target)
      × (s ≡ AnswerRunStatus.in_progress)
      × ((t ≡ AnswerRunStatus.answered)
          ⊎ (t ≡ AnswerRunStatus.refused)
          ⊎ (t ≡ AnswerRunStatus.failed))
transition_inv s target h = ground arith

or_missing_inv :
    (o : Option AnswerRunRecord) {r : AnswerRunRecord} → or_missing o ≡ ok r → o ≡ some r
or_missing_inv none h = absurd (raised-ne-ok h)
or_missing_inv (some r) h = ap some (ok_injective h)

finish-Finished :
    (runs : Runs) (run_id : Identifier) (revision : ℕ) (e : Ending) (now : ℕ) {after : Runs}
    {updated : AnswerRunRecord}
    → finish runs run_id revision e now ≡ ok (after, updated)
    → Finished runs run_id revision e after updated
unfolding finish
finish-Finished runs run_id revision e now {after = after} {updated = updated} h =
    let (row, found, h₁) = bind_inv (or_missing (get_row runs run_id)) _ h in
    let (current, h₂) = require_inv (row.revision == revision) concurrent_modification _ h₁ in
    let (t, moved, h₃) = bind_inv (require_transition row.status e.target) _ h₂ in
    let (valid, h₄) =
      require_inv (allowed (ended_row row e revision t now)) invariant_violation _ h₃ in
    let (meant, was_open, ended) = transition_inv row.status e.target moved in
    let same : ◌≡◌ {A = Runs × AnswerRunRecord}
        (put_row runs (ended_row row e revision t now), ended_row row e revision t now)
        (after, updated) =
      ok_injective h₄ in
    finished row t (or_missing_inv _ found) (==→eq row.revision revision current) was_open ended
      meant valid same
  where
    finished :
        (row : AnswerRunRecord) (t : AnswerRunStatus)
        → get_row runs run_id ≡ some row
        → row.revision ≡ revision
        → row.status ≡ AnswerRunStatus.in_progress
        → ((t ≡ AnswerRunStatus.answered)
            ⊎ (t ≡ AnswerRunStatus.refused)
            ⊎ (t ≡ AnswerRunStatus.failed))
        → t ≡ e.target
        → allowed (ended_row row e revision t now) ≡ true
        → ◌≡◌ {A = Runs × AnswerRunRecord}
            (put_row runs (ended_row row e revision t now), ended_row row e revision t now)
            (after, updated)
        → Finished runs run_id revision e after updated
    finished row t found current was_open ended meant valid same =
        let u : ended_row row e revision t now ≡ updated =
          ap (λ (x : Runs × AnswerRunRecord). x.1) same in
        let w : put_row runs (ended_row row e revision t now) ≡ after =
          ap (λ (x : Runs × AnswerRunRecord). x.0) same in
        subst (λ x. Finished runs run_id revision e after x) u
          (record {
            before = row;
            found = found;
            current = current;
            was_open = was_open;
            ended = ended;
            meant = meant;
            counted = refl;
            same_id = refl;
            same_operation = refl;
            valid = valid;
            written = sym w;
          })

get_row_id :
    (runs : Runs) (id : Identifier) (r : AnswerRunRecord) → get_row runs id ≡ some r → r.id ≡ id
unfolding get_row
get_row_id [] id r h = cc
get_row_id (x ∷ xs) id r h = ground (arith, get_row_id xs id r)

get_row-put_row_self :
    (runs : Runs) (row r : AnswerRunRecord)
    → get_row runs row.id ≡ some r
    → get_row (put_row runs row) row.id ≡ some row
unfolding get_row put_row
get_row-put_row_self [] row r h = cc
get_row-put_row_self (x ∷ xs) row r h = ground (arith, get_row-put_row_self xs row r)

get_row-put_row_ne :
    (runs : Runs) (row : AnswerRunRecord) (id : Identifier)
    → id ≢ row.id
    → get_row (put_row runs row) id ≡ get_row runs id
unfolding get_row put_row
get_row-put_row_ne [] row id n = refl
get_row-put_row_ne (x ∷ xs) row id n = ground (arith, get_row-put_row_ne xs row id n)

closed_transition :
    (s target : AnswerRunStatus)
    → (s ≡ AnswerRunStatus.answered) ⊎ (s ≡ AnswerRunStatus.refused) ⊎ (s ≡ AnswerRunStatus.failed)
    → require_transition s target ≡ raised invalid_state_transition
closed_transition s target h = ground arith

-- No later call ends the run again.
finish_ended :
    (runs : Runs) (run_id : Identifier) (revision : ℕ) (e : Ending) (now : ℕ)
    (row : AnswerRunRecord)
    → get_row runs run_id ≡ some row
    → (row.status ≡ AnswerRunStatus.answered)
      ⊎ (row.status ≡ AnswerRunStatus.refused)
      ⊎ (row.status ≡ AnswerRunStatus.failed)
    → (finish runs run_id revision e now ≡ raised concurrent_modification)
      ⊎ (finish runs run_id revision e now ≡ raised invalid_state_transition)
unfolding finish
finish_ended runs run_id revision e now row found ended =
    elim (Bool-cases (row.revision == revision)) [
      | inl same ↦ inr (
          rw (found, or_missing)
            (rw (same, require) (rw (closed_transition row.status e.target ended) refl)))
      | inr other ↦ inl (rw (found, or_missing) (rw (other, require) refl))
    ]

-- Ending a run succeeds at most once: after it the row of the run is the one returned, the rows of
-- all other runs are untouched, and whatever a later call asks for, it raises.
pub finish_once :
    (runs : Runs) (run_id other : Identifier) (revision : ℕ) (e : Ending) (now : ℕ)
    (later_revision : ℕ) (later : Ending) (later_now : ℕ) {after : Runs} {updated : AnswerRunRecord}
    → finish runs run_id revision e now ≡ ok (after, updated)
    → other ≢ run_id
    → (get_row after run_id ≡ some updated)
      × (get_row after other ≡ get_row runs other)
      × ((finish after run_id later_revision later later_now ≡ raised concurrent_modification)
          ⊎ (finish after run_id later_revision later later_now ≡ raised invalid_state_transition))
finish_once runs run_id other revision e now later_revision later later_now {after = after}
      {updated = updated} h n =
    let f : Finished runs run_id revision e after updated =
      finish-Finished runs run_id revision e now h in
    let named : updated.id ≡ run_id = f.same_id ∙ get_row_id runs run_id f.before f.found in
    let found : get_row runs updated.id ≡ some f.before = ap (get_row runs) named ∙ f.found in
    let here : get_row after run_id ≡ some updated =
      ap (λ a. get_row a run_id) f.written
      ∙ ap (get_row (put_row runs updated)) (sym named)
      ∙ get_row-put_row_self runs updated f.before found in
    (
      here,
      ap (λ a. get_row a other) f.written
          ∙ get_row-put_row_ne runs updated other (λ same. n (same ∙ named)),
      finish_ended after run_id later_revision later later_now updated here f.ended,
    )

-- Every row meets the check constraints of the table.
abbrev pub AllAllowed : Runs → Type 0
AllAllowed = All (λ r. allowed r ≡ true)

put_row-AllAllowed :
    (runs : Runs) (row : AnswerRunRecord)
    → AllAllowed runs
    → allowed row ≡ true
    → AllAllowed (put_row runs row)
unfolding put_row
put_row-AllAllowed [] row h ok_row = tt
put_row-AllAllowed (x ∷ xs) row h ok_row = elim (Bool-cases (x.id == row.id)) [
  | inl same ↦ rw same (ok_row, h.1)
  | inr other ↦ rw other (h.0, put_row-AllAllowed xs row h.1 ok_row)
]

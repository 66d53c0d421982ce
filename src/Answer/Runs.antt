-- ===== src/Answer/Runs.antt =====
-- persistence/answer_repository.py over the table of persistence/answer_tables.py: the runs of the
-- answer service. A time is a number; an operation that raises leaves the table as it was, since
-- its unit of work is rolled back.
pub mod Terminal
mod Examples
use trustworthy_personal_kno.Prelude.{
  ℕ, suc, ◌+◌, ◌≡◌, Bool, true, false, not, ◌&&◌, ◌||◌, Option, none, some, List, [], ◌∷◌, map, ltb,
  leb, ◌==◌, nat_eq, text_eq, contains, if◌then◌else◌, Text, strip, Result, ok, raised, ◌>>=◌, ◌>>◌,
  require, or_else,
}
use trustworthy_personal_kno.Domain.Enums.Execution.{
  AnswerRunStatus, answer_run_status_eq, AnswerScope,
}
use trustworthy_personal_kno.Domain.Errors.{
  Error, invariant_violation, record_not_found, duplicate_record, concurrent_modification,
  value_error,
}
use trustworthy_personal_kno.Domain.Machine.{require_transition}
use trustworthy_personal_kno.Domain.Transitions.Execution.{answer_run_status_machine}
use trustworthy_personal_kno.Answer.Contracts.{Digest, Identifier}

-- domain/answer.py
pub record AnswerRunRecord : Type 0 where
  pub id : Identifier
  pub operation_id : Text
  pub question_hash : Digest
  pub plan_hash : Option Digest
  pub scope : AnswerScope
  pub generation_id : Option Identifier
  pub status : AnswerRunStatus
  pub refusal_code : Option Text
  pub answer_hash : Option Digest
  pub citation_manifest_hash : Option Digest
  pub revision : ℕ
  pub started_at : ℕ
  pub completed_at : Option ℕ

-- The table of runs.
abbrev pub Runs : Type 0
Runs = List AnswerRunRecord

abbrev pub given {ℓ} : {A : Type ℓ} → Option A → Bool
given none = false
given (some a) = true

-- `CHECK (...)` named `answer_run_terminal_shape`, for a status.
abbrev pub shape : AnswerRunStatus → AnswerRunRecord → Bool
shape AnswerRunStatus.in_progress r =
    not (given r.completed_at)
    && not (given r.refusal_code)
    && not (given r.answer_hash)
    && not (given r.citation_manifest_hash)
shape AnswerRunStatus.answered r =
    given r.completed_at
    && given r.generation_id
    && not (given r.refusal_code)
    && given r.answer_hash
    && given r.citation_manifest_hash
shape AnswerRunStatus.refused r =
    given r.completed_at
    && given r.refusal_code
    && not (given r.answer_hash)
    && not (given r.citation_manifest_hash)
shape AnswerRunStatus.failed r =
    given r.completed_at && not (given r.answer_hash) && not (given r.citation_manifest_hash)

-- `completed_at IS NULL OR completed_at >= started_at`.
abbrev pub completed_after : Option ℕ → ℕ → Bool
completed_after none started = true
completed_after (some t) started = leb started t

abbrev pub is_empty_text : Text → Bool
is_empty_text [] = true
is_empty_text (c ∷ s) = false

-- The check constraints of the table that an operation could break.
abbrev pub allowed : AnswerRunRecord → Bool
allowed r =
    shape r.status r
    && completed_after r.completed_at r.started_at
    && leb 1 r.revision
    && not (is_empty_text r.operation_id)

-- `session.get(AnswerRunTable, id)`: the id is the primary key.
unfoldable pub get_row : Runs → Identifier → Option AnswerRunRecord
get_row [] id = none
get_row (r ∷ rs) id = if r.id == id then some r else get_row rs id

-- `find_run`: the operation id is unique.
unfoldable pub find_run : Runs → Text → Option AnswerRunRecord
find_run [] operation_id = none
find_run (r ∷ rs) operation_id =
    if r.operation_id == operation_id then some r else find_run rs operation_id

-- `UPDATE ... WHERE id = ...`.
unfoldable pub put_row : Runs → AnswerRunRecord → Runs
put_row [] row = []
put_row (r ∷ rs) row = if r.id == row.id then row ∷ rs else r ∷ put_row rs row

abbrev pub or_missing : Option AnswerRunRecord → Result Error AnswerRunRecord
or_missing none = raised record_not_found
or_missing (some r) = ok r

unfoldable pub add_run : Runs → AnswerRunRecord → Result Error Runs
add_run runs r = do
  require
      (r.revision == 1
        && r.status == AnswerRunStatus.in_progress
        && not (given r.completed_at)
        && not (given r.generation_id)
        && not (given r.plan_hash)
        && not (given r.refusal_code)
        && not (given r.answer_hash)
        && not (given r.citation_manifest_hash))
      invariant_violation
  require (not (given (get_row runs r.id)) && not (given (find_run runs r.operation_id)))
      duplicate_record
  require (allowed r) invariant_violation
  ok (r ∷ runs)

-- What `_finish` writes.
pub record Ending : Type 0 where
  pub target : AnswerRunStatus
  pub generation_id : Option Identifier
  pub plan_hash : Option Digest
  pub refusal_code : Option Text
  pub answer_hash : Option Digest
  pub citation_manifest_hash : Option Digest

-- The values of the update statement.
abbrev pub ended_row : AnswerRunRecord → Ending → ℕ → AnswerRunStatus → ℕ → AnswerRunRecord
ended_row row e expected_revision target now = record row {
  generation_id = e.generation_id;
  plan_hash = e.plan_hash;
  status = target;
  refusal_code = e.refusal_code;
  answer_hash = e.answer_hash;
  citation_manifest_hash = e.citation_manifest_hash;
  completed_at = some now;
  revision = expected_revision + 1;
}

-- `_finish`; `now` is the reading of `utc_now()`. Within the transaction the row that was read is
-- the row that is updated.
unfoldable pub finish : Runs → Identifier → ℕ → Ending → ℕ → Result Error (Runs × AnswerRunRecord)
finish runs run_id expected_revision e now = do
  row ← or_missing (get_row runs run_id)
  require (row.revision == expected_revision) concurrent_modification
  target ← require_transition row.status e.target
  let updated = ended_row row e expected_revision target now
  require (allowed updated) invariant_violation
  ok (put_row runs updated, updated)

-- `complete_answer`, over the ids of the stored generations.
unfoldable pub complete_answer :
    Runs
    → List Identifier
    → Identifier
    → Identifier
    → Digest
    → Digest
    → Digest
    → ℕ
    → ℕ
    → Result Error (Runs × AnswerRunRecord)
complete_answer runs generations run_id generation_id plan_hash answer_hash manifest revision now =
    do
      require (contains generations generation_id) invariant_violation
      finish runs run_id revision
          (record {
            target = AnswerRunStatus.answered;
            generation_id = some generation_id;
            plan_hash = some plan_hash;
            refusal_code = none;
            answer_hash = some answer_hash;
            citation_manifest_hash = some manifest;
          })
          now

pub refuse :
    Runs
    → Identifier
    → Text
    → Option Identifier
    → Option Digest
    → ℕ
    → ℕ
    → Result Error (Runs × AnswerRunRecord)
refuse runs run_id reason_code generation_id plan_hash revision now = do
  require (not (is_empty_text (strip reason_code))) value_error
  finish runs run_id revision
      (record {
        target = AnswerRunStatus.refused;
        generation_id = generation_id;
        plan_hash = plan_hash;
        refusal_code = some reason_code;
        answer_hash = none;
        citation_manifest_hash = none;
      })
      now

pub fail : Runs → Identifier → Text → ℕ → ℕ → Result Error (Runs × AnswerRunRecord)
fail runs run_id reason_code revision now = do
  require (not (is_empty_text (strip reason_code))) value_error
  finish runs run_id revision
      (record {
        target = AnswerRunStatus.failed;
        generation_id = none;
        plan_hash = none;
        refusal_code = some reason_code;
        answer_hash = none;
        citation_manifest_hash = none;
      })
      now

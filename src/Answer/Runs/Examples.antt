-- ===== src/Answer/Runs/Examples.antt =====
-- The answer runs (persistence/answer_repository.py) on a table of one run.
use trustworthy_personal_kno.Prelude.{◌≡◌, refl, none, some, [], ◌∷◌, codes, ok, raised, ◌⊎◌, arith}
use trustworthy_personal_kno.Domain.Enums.Execution.{AnswerRunStatus, AnswerScope}
use trustworthy_personal_kno.Domain.Errors.{concurrent_modification, invalid_state_transition}
use trustworthy_personal_kno.Answer.Runs.{
  AnswerRunRecord, Ending, get_row, put_row, finish, ended_row,
}
use trustworthy_personal_kno.Answer.Runs.Terminal.{finish_once}

abbrev started : AnswerRunRecord
started = record {
  id = 1;
  operation_id = codes "operation";
  question_hash = 7;
  plan_hash = none;
  scope = AnswerScope.auto;
  generation_id = none;
  status = AnswerRunStatus.in_progress;
  refusal_code = none;
  answer_hash = none;
  citation_manifest_hash = none;
  revision = 1;
  started_at = 10;
  completed_at = none;
}

abbrev refusal : Ending
refusal = record {
  target = AnswerRunStatus.refused;
  generation_id = none;
  plan_hash = none;
  refusal_code = some (codes "PLANNING_FAILED");
  answer_hash = none;
  citation_manifest_hash = none;
}

abbrev refused_row : AnswerRunRecord
refused_row = ended_row started refusal 1 AnswerRunStatus.refused 12

finished : finish (started ∷ []) 1 1 refusal 12 ≡ ok (refused_row ∷ [], refused_row)
unfolding finish get_row put_row
finished = refl

finish_once_example :
    (get_row (refused_row ∷ []) 1 ≡ some refused_row)
    × (get_row (refused_row ∷ []) 2 ≡ get_row (started ∷ []) 2)
    × ((finish (refused_row ∷ []) 1 2 refusal 15 ≡ raised concurrent_modification)
        ⊎ (finish (refused_row ∷ []) 1 2 refusal 15 ≡ raised invalid_state_transition))
finish_once_example =
    finish_once (started ∷ []) 1 2 1 refusal 12 2 refusal 15 finished
      (λ e. absurd (omega (arith, e)))

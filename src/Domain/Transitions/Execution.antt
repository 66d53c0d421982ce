-- ===== src/Domain/Transitions/Execution.antt =====
-- domain/transitions.py: the rows of `_TRANSITIONS` for the enumerations of Domain/Enums/Execution.antt.
-- A status that has no key in the source has the empty set.
use trustworthy_personal_kno.Prelude.{List, [], ◌∷◌}
use trustworthy_personal_kno.Domain.Enums.Execution.{
  AnswerRunStatus, ModelRunStatus, IdempotencyStatus,
}
use trustworthy_personal_kno.Domain.Machine.{StateMachine}

abbrev pub answer_run_status_next : AnswerRunStatus → List AnswerRunStatus
answer_run_status_next AnswerRunStatus.in_progress =
    AnswerRunStatus.answered ∷ AnswerRunStatus.refused ∷ AnswerRunStatus.failed ∷ []
answer_run_status_next AnswerRunStatus.answered = []
answer_run_status_next AnswerRunStatus.refused = []
answer_run_status_next AnswerRunStatus.failed = []

instance abbrev pub answer_run_status_machine : StateMachine AnswerRunStatus
answer_run_status_machine = record { next = answer_run_status_next }

abbrev pub model_run_status_next : ModelRunStatus → List ModelRunStatus
model_run_status_next ModelRunStatus.started =
    ModelRunStatus.succeeded ∷ ModelRunStatus.failed ∷ ModelRunStatus.cancelled ∷ []
model_run_status_next ModelRunStatus.succeeded = []
model_run_status_next ModelRunStatus.failed = []
model_run_status_next ModelRunStatus.cancelled = []

instance abbrev pub model_run_status_machine : StateMachine ModelRunStatus
model_run_status_machine = record { next = model_run_status_next }

abbrev pub idempotency_status_next : IdempotencyStatus → List IdempotencyStatus
idempotency_status_next IdempotencyStatus.in_progress =
    IdempotencyStatus.succeeded ∷ IdempotencyStatus.failed ∷ IdempotencyStatus.unknown ∷ []
idempotency_status_next IdempotencyStatus.succeeded = []
idempotency_status_next IdempotencyStatus.failed = []
idempotency_status_next IdempotencyStatus.unknown =
    IdempotencyStatus.succeeded ∷ IdempotencyStatus.failed ∷ []

instance abbrev pub idempotency_status_machine : StateMachine IdempotencyStatus
idempotency_status_machine = record { next = idempotency_status_next }

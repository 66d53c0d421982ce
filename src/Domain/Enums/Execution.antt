-- ===== src/Domain/Enums/Execution.antt =====
-- domain/enums.py: the string enumerations of answers, model runs and idempotency. Members are told apart by their
-- position in the class.
use trustworthy_personal_kno.Prelude.{ℕ, ◌≡◌, arith, Eq, eq_of_code}

pub data AnswerScope : Type 0 where
  auto general personal : AnswerScope

abbrev pub answer_scope_code : AnswerScope → ℕ
answer_scope_code auto = 0
answer_scope_code general = 1
answer_scope_code personal = 2

pub answer_scope_code-injective :
    (a b : AnswerScope) → answer_scope_code a ≡ answer_scope_code b → a ≡ b
answer_scope_code-injective a b h = ground arith

instance abbrev pub answer_scope_eq : Eq AnswerScope
answer_scope_eq = eq_of_code answer_scope_code answer_scope_code-injective

pub data AnswerRunStatus : Type 0 where
  in_progress answered refused failed : AnswerRunStatus

abbrev pub answer_run_status_code : AnswerRunStatus → ℕ
answer_run_status_code in_progress = 0
answer_run_status_code answered = 1
answer_run_status_code refused = 2
answer_run_status_code failed = 3

pub answer_run_status_code-injective :
    (a b : AnswerRunStatus) → answer_run_status_code a ≡ answer_run_status_code b → a ≡ b
answer_run_status_code-injective a b h = ground arith

instance abbrev pub answer_run_status_eq : Eq AnswerRunStatus
answer_run_status_eq = eq_of_code answer_run_status_code answer_run_status_code-injective

pub data ModelRunStatus : Type 0 where
  started succeeded failed cancelled : ModelRunStatus

abbrev pub model_run_status_code : ModelRunStatus → ℕ
model_run_status_code started = 0
model_run_status_code succeeded = 1
model_run_status_code failed = 2
model_run_status_code cancelled = 3

pub model_run_status_code-injective :
    (a b : ModelRunStatus) → model_run_status_code a ≡ model_run_status_code b → a ≡ b
model_run_status_code-injective a b h = ground arith

instance abbrev pub model_run_status_eq : Eq ModelRunStatus
model_run_status_eq = eq_of_code model_run_status_code model_run_status_code-injective

pub data IdempotencyStatus : Type 0 where
  in_progress succeeded failed unknown : IdempotencyStatus

abbrev pub idempotency_status_code : IdempotencyStatus → ℕ
idempotency_status_code in_progress = 0
idempotency_status_code succeeded = 1
idempotency_status_code failed = 2
idempotency_status_code unknown = 3

pub idempotency_status_code-injective :
    (a b : IdempotencyStatus) → idempotency_status_code a ≡ idempotency_status_code b → a ≡ b
idempotency_status_code-injective a b h = ground arith

instance abbrev pub idempotency_status_eq : Eq IdempotencyStatus
idempotency_status_eq = eq_of_code idempotency_status_code idempotency_status_code-injective

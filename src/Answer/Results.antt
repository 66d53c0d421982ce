-- ===== src/Answer/Results.antt =====
-- answer/contracts.py and answer/service.py: results, events, and the codes of refusals.
use trustworthy_personal_kno.Prelude.{
  ℕ, Bool, Option, none, some, List, [], ◌∷◌, ◌==◌, nat_eq, text_eq, if◌then◌else◌, Text, codes,
}
use trustworthy_personal_kno.Domain.Enums.Publication.{index_generation_status_eq}
use trustworthy_personal_kno.Domain.Enums.Execution.{answer_run_status_eq}
use trustworthy_personal_kno.Answer.Contracts.{
  Identifier, RefusalCode, AnswerEventType, DraftAnswerClaim, AnswerCitation,
}
use trustworthy_personal_kno.Answer.Rendering.{Line}

-- The rendered text is kept as its lines.
pub record AnsweredResult : Type 0 where
  pub run_id : Identifier
  pub answer_lines : List Line
  pub claims : List DraftAnswerClaim
  pub citations : List AnswerCitation
  pub generation_id : Identifier
  pub degraded : Bool

pub record RefusedResult : Type 0 where
  pub run_id : Identifier
  pub reason_code : RefusalCode

pub data AnswerResult : Type 0 where
  answered : AnsweredResult → AnswerResult
  refused : RefusedResult → AnswerResult

pub record AnswerEvent : Type 0 where
  pub event_id : ℕ
  pub event : AnswerEventType
  pub run_id : Identifier
  pub result : Option AnswerResult

-- The value of a refusal code, and its parse.
abbrev pub reason_text : RefusalCode → Text
reason_text RefusalCode.no_active_generation = codes "NO_ACTIVE_GENERATION"
reason_text RefusalCode.no_trusted_evidence = codes "NO_TRUSTED_EVIDENCE"
reason_text RefusalCode.evidence_not_locatable = codes "EVIDENCE_NOT_LOCATABLE"
reason_text RefusalCode.version_mismatch = codes "VERSION_MISMATCH"
reason_text RefusalCode.stale_evidence = codes "STALE_EVIDENCE"
reason_text RefusalCode.retrieval_unavailable = codes "RETRIEVAL_UNAVAILABLE"
reason_text RefusalCode.planning_failed = codes "PLANNING_FAILED"
reason_text RefusalCode.generation_failed = codes "GENERATION_FAILED"
reason_text RefusalCode.citation_validation_failed = codes "CITATION_VALIDATION_FAILED"
reason_text RefusalCode.policy_blocked = codes "POLICY_BLOCKED"

abbrev pub all_reasons : List RefusalCode
all_reasons =
    RefusalCode.no_active_generation ∷ RefusalCode.no_trusted_evidence
    ∷ RefusalCode.evidence_not_locatable ∷ RefusalCode.version_mismatch ∷ RefusalCode.stale_evidence
    ∷ RefusalCode.retrieval_unavailable ∷ RefusalCode.planning_failed
    ∷ RefusalCode.generation_failed ∷ RefusalCode.citation_validation_failed
    ∷ RefusalCode.policy_blocked ∷ []

pub reason_among : List RefusalCode → Text → Option RefusalCode
reason_among [] text = none
reason_among (r ∷ rs) text = if reason_text r == text then some r else reason_among rs text

-- `RefusalCode(text)`.
unfoldable pub parse_reason : Text → Option RefusalCode
unfolding reason_among
parse_reason text = reason_among all_reasons text

abbrev pub progress : ℕ → AnswerEventType → Identifier → AnswerEvent
progress event_id event run_id = record {
  event_id = event_id;
  event = event;
  run_id = run_id;
  result = none;
}

abbrev pub event_for : AnswerResult → AnswerEventType
event_for (answered r) = AnswerEventType.answer
event_for (refused r) = AnswerEventType.refusal

abbrev pub run_of : AnswerResult → Identifier
run_of (answered r) = r.run_id
run_of (refused r) = r.run_id

abbrev pub terminal_event : ℕ → AnswerResult → AnswerEvent
terminal_event event_id result = record {
  event_id = event_id;
  event = event_for result;
  run_id = run_of result;
  result = some result;
}

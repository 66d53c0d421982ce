-- ===== src/Answer/Environment.antt =====
-- What the answer service (answer/service.py) stands on: its settings, the stored state, and the
-- gateways to models and files. A gateway call that raises is `none`.
use trustworthy_personal_kno.Prelude.{
  ℕ, Bool, true, false, ◌&&◌, ◌||◌, Option, none, some, List, [], ◌∷◌, map, ◌==◌, nat_eq, text_eq,
  if◌then◌else◌, Text, Result, ok, raised,
}
use trustworthy_personal_kno.Domain.Enums.Publication.{
  IndexGenerationStatus, index_generation_status_eq,
}
use trustworthy_personal_kno.Domain.Enums.Execution.{answer_run_status_eq, AnswerScope}
use trustworthy_personal_kno.Domain.Errors.{Error}
use trustworthy_personal_kno.Publication.Contracts.{RetrievalQuery, RetrievalResult}
use trustworthy_personal_kno.Answer.Contracts.{
  Digest, Identifier, QueryScope, AnswerRequest, QueryPlan, AnswerEvidence, AnswerDraft,
  CitationVerificationOutput, AnswerCitation,
}
use trustworthy_personal_kno.Answer.Runs.{Runs}
use trustworthy_personal_kno.Answer.Results.{AnsweredResult}

-- config/answer.py: the settings that the service reads.
pub record AnswerSettings : Type 0 where
  pub max_question_characters : ℕ
  pub max_answer_claims : ℕ
  pub max_claim_characters : ℕ
  pub min_evidence_count : ℕ

pub record IndexGeneration : Type 0 where
  pub id : Identifier
  pub generation_number : ℕ
  pub status : IndexGenerationStatus

-- What the service reads and writes: the run table, the generations, and the snapshot files.
pub record Store : Type 0 where
  pub runs : Runs
  pub generations : List IndexGeneration
  pub snapshots : List (Digest × Text)

-- What stands outside of the service. `read` parses the bytes that `write` produced.
pub record Gateways : Type 0 where
  pub plan : AnswerRequest → Option QueryPlan
  pub retrieve : RetrievalQuery → Identifier → ℕ → Option RetrievalResult
  pub resolve : RetrievalResult → Option (List AnswerEvidence)
  pub generate : QueryPlan → List AnswerEvidence → Option AnswerDraft
  pub verify : AnswerDraft → List AnswerEvidence → Option CitationVerificationOutput

pub record Runtime : Type 0 where
  pub casefold : Text → Text
  pub question_hash : AnswerRequest → Digest
  pub plan_hash : QueryPlan → Digest
  pub answer_hash : AnsweredResult → Digest
  pub citation_hash : List AnswerCitation → Digest
  pub write : AnsweredResult → Text
  pub read : Text → Option AnsweredResult
  pub max_bytes : ℕ
  pub operation_id_for : Digest → Identifier → Text

-- The errors that leave `stream`.
pub data Failure : Type 0 where
  stored : Error → Failure
  question_too_long operation_reused missing_snapshot_hash lineage_changed : Failure
  missing_reason invalid_reason not_answered : Failure
  snapshot_too_large snapshot_conflict snapshot_unavailable snapshot_invalid : Failure

unfoldable pub find_snapshot : List (Digest × Text) → Digest → Option Text
find_snapshot [] hash = none
find_snapshot ((h, raw) ∷ rest) hash = if h == hash then some raw else find_snapshot rest hash

-- `SELECT ... WHERE status = 'ACTIVE'`, and the check of the row.
unfoldable pub active_generation : List IndexGeneration → Option IndexGeneration
active_generation [] = none
active_generation (g ∷ gs) =
    if g.status == IndexGenerationStatus.active then some g else active_generation gs

abbrev pub generation_ids : List IndexGeneration → List Identifier
generation_ids = map (λ (g : IndexGeneration). g.id)

abbrev pub stored_scope : QueryScope → AnswerScope
stored_scope QueryScope.auto = AnswerScope.auto
stored_scope QueryScope.general = AnswerScope.general
stored_scope QueryScope.personal = AnswerScope.personal

-- `needle in text`.
unfoldable pub is_prefix : Text → Text → Bool
is_prefix [] text = true
is_prefix (c ∷ needle) [] = false
is_prefix (c ∷ needle) (d ∷ text) = c == d && is_prefix needle text

unfoldable pub occurs_in : Text → Text → Bool
occurs_in needle [] = is_prefix needle []
occurs_in needle (c ∷ text) = is_prefix needle (c ∷ text) || occurs_in needle text

abbrev pub lift_error {ℓ} : {A : Type ℓ} → Result Error A → Result Failure A
lift_error (ok a) = ok a
lift_error (raised e) = raised (stored e)

abbrev pub or_raise {ℓ} : {A : Type ℓ} → Option A → Failure → Result Failure A
or_raise none e = raised e
or_raise (some a) e = ok a

-- `result.generation_id != run.generation_id`, negated.
abbrev pub is_generation : Option Identifier → Identifier → Bool
is_generation none g = false
is_generation (some h) g = g == h

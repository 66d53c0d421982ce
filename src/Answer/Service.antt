-- ===== src/Answer/Service.antt =====
-- answer/service.py: `TrustedAnswerService.stream` as a function of the stored state, of what its
-- gateways return, and of the clock.
pub mod Outcomes
pub mod Drafts
pub mod Safety
use trustworthy_personal_kno.Prelude.{
  ℕ, suc, ◌+◌, ◌≡◌, Bool, true, false, not, ◌&&◌, ◌||◌, Option, none, some, List, [], ◌∷◌, ◌++◌,
  map, ltb, leb, ◌==◌, nat_eq, text_eq, any, length, if◌then◌else◌, Text, codes, Result, ok, raised,
  ◌>>=◌, ◌>>◌, require, or_else,
}
use trustworthy_personal_kno.Domain.Enums.Publication.{
  IndexGenerationStatus, index_generation_status_eq,
}
use trustworthy_personal_kno.Domain.Enums.Execution.{
  AnswerRunStatus, answer_run_status_eq, AnswerScope,
}
use trustworthy_personal_kno.Domain.Errors.{Error}
use trustworthy_personal_kno.Publication.Contracts.{RetrievalQuery, RetrievalHit, RetrievalResult}
use trustworthy_personal_kno.Answer.Contracts.{
  Digest, Identifier, QueryScope, RefusalCode, AnswerEventType, AnswerRequest, QueryPlan,
  AnswerEvidence, DraftAnswerClaim, AnswerDraft, CitationVerificationOutput, AnswerCitation,
}
use trustworthy_personal_kno.Answer.Planning.{retrieval_query_for_plan}
use trustworthy_personal_kno.Answer.Rendering.{Line, render_verified_answer}
use trustworthy_personal_kno.Answer.Runs.{
  AnswerRunRecord, Runs, find_run, add_run, complete_answer, refuse,
}
use trustworthy_personal_kno.Answer.Verification.{
  validate_citation_closed_set, validate_semantic_support,
}
use trustworthy_personal_kno.Answer.Results.{AnsweredResult, progress, answered}
use trustworthy_personal_kno.Answer.Environment.{
  AnswerSettings, IndexGeneration, Store, Gateways, Runtime, active_generation, generation_ids,
  occurs_in, stored, question_too_long, not_answered,
}
use trustworthy_personal_kno.Answer.Sessions.{
  Outcome, emit, fails, ends, put_snapshot, begin, refuse_run,
}

-- The result of a run whose draft was checked.
abbrev pub verified_result :
    AnswerRunRecord
    → IndexGeneration
    → RetrievalResult
    → AnswerDraft
    → List Line
    → List AnswerCitation
    → AnsweredResult
verified_result run generation retrieval draft lines citations = record {
  run_id = run.id;
  answer_lines = lines;
  claims = draft.claims;
  citations = citations;
  generation_id = generation.id;
  degraded = retrieval.degraded;
}

module _ (rt : Runtime) (gw : Gateways) (settings : AnswerSettings) (now : ℕ) where
  -- The block that verifies, checks and renders a draft: `none` where any step of it raises.
  unfoldable pub checked :
      AnswerDraft
      → List AnswerEvidence
      → Option (CitationVerificationOutput × List Line × List AnswerCitation)
  checked draft evidence = elim (gw.verify draft evidence) [
    | none ↦ none
    | some verification ↦
        elim (do
          validate_citation_closed_set draft evidence settings.max_answer_claims
              settings.max_claim_characters
          validate_semantic_support draft verification
          render_verified_answer draft evidence) [
            | raised e ↦ none
            | ok (lines, citations) ↦ some (verification, lines, citations)
          ]
  ]

  -- The end of `stream`: the result is stored, the run completed, and the result is shown.
  unfoldable pub complete_run :
      Store
      → AnswerRunRecord
      → QueryPlan
      → ℕ
      → AnsweredResult
      → List (Digest × Text)
      → Digest
      → Outcome
  complete_run store run p event_id result snapshots hash =
      elim (complete_answer store.runs (generation_ids store.generations) run.id
        result.generation_id (rt.plan_hash p) hash (rt.citation_hash result.citations) run.revision
        now) [
          | raised e ↦ fails (record store { snapshots = snapshots }) (stored e)
          | ok (runs, row) ↦
              if row.status == AnswerRunStatus.answered
              then ends (record store { runs = runs; snapshots = snapshots }) event_id
                  (answered result)
              else fails (record store { runs = runs; snapshots = snapshots }) not_answered
        ]

  unfoldable pub complete : Store → AnswerRunRecord → QueryPlan → ℕ → AnsweredResult → Outcome
  complete store run p event_id result = elim (put_snapshot rt store.snapshots result) [
    | raised e ↦ fails store e
    | ok (snapshots, hash) ↦ complete_run store run p event_id result snapshots hash
  ]

  -- From the draft on.
  unfoldable pub judge_draft :
      Store
      → AnswerRunRecord
      → QueryPlan
      → IndexGeneration
      → RetrievalResult
      → List AnswerEvidence
      → ℕ
      → AnswerDraft
      → Outcome
  judge_draft store run p generation retrieval evidence event_id draft =
      elim (checked draft evidence) [
        | none ↦
            refuse_run rt store run RefusalCode.citation_validation_failed (some generation.id)
              (some (rt.plan_hash p)) now event_id
        | some (verification, lines, citations) ↦
            emit (progress event_id AnswerEventType.verified run.id) (
              complete store run p (suc event_id)
                (verified_result run generation retrieval draft lines citations))
      ]

  -- From the evidence on.
  unfoldable pub answer_from :
      Store
      → AnswerRunRecord
      → QueryPlan
      → IndexGeneration
      → RetrievalResult
      → List AnswerEvidence
      → ℕ
      → Outcome
  answer_from store run p generation retrieval evidence event_id = elim (gw.generate p evidence) [
    | none ↦
        refuse_run rt store run RefusalCode.generation_failed (some generation.id)
          (some (rt.plan_hash p)) now event_id
    | some draft ↦ judge_draft store run p generation retrieval evidence event_id draft
  ]

  -- `plan.target_version and not any(...)`.
  abbrev pub version_missing : Option Text → List AnswerEvidence → Bool
  version_missing none evidence = false
  version_missing (some []) evidence = false
  version_missing (some (c ∷ v)) evidence =
      not (any (λ e. occurs_in (rt.casefold (c ∷ v)) (rt.casefold e.text)) evidence)

  abbrev pub has_hits : List RetrievalHit → Bool
  has_hits [] = false
  has_hits (h ∷ hs) = true

  -- From the retrieved hits on.
  unfoldable pub weigh_evidence :
      Store → AnswerRunRecord → QueryPlan → IndexGeneration → RetrievalResult → ℕ → Outcome
  weigh_evidence store run p generation retrieval event_id = elim (gw.resolve retrieval) [
    | none ↦
        refuse_run rt store run RefusalCode.evidence_not_locatable (some generation.id)
          (some (rt.plan_hash p)) now event_id
    | some evidence ↦
        if ltb (length evidence) settings.min_evidence_count
        then refuse_run rt store run
            (if p.requires_current && has_hits retrieval.hits
              then RefusalCode.stale_evidence
              else RefusalCode.no_trusted_evidence)
            (some generation.id) (some (rt.plan_hash p)) now event_id
        else if version_missing p.target_version evidence
        then refuse_run rt store run RefusalCode.version_mismatch (some generation.id)
            (some (rt.plan_hash p)) now event_id
        else answer_from store run p generation retrieval evidence event_id
  ]

  -- From the plan on.
  unfoldable pub search_for : AnswerRequest → Store → AnswerRunRecord → QueryPlan → ℕ → Outcome
  search_for request store run p event_id = elim (active_generation store.generations) [
    | none ↦
        refuse_run rt store run RefusalCode.no_active_generation none (some (rt.plan_hash p)) now
          event_id
    | some generation ↦
        elim (gw.retrieve (retrieval_query_for_plan request p now) generation.id
          generation.generation_number) [
            | none ↦
                refuse_run rt store run RefusalCode.retrieval_unavailable (some generation.id)
                  (some (rt.plan_hash p)) now event_id
            | some retrieval ↦
                emit (progress event_id AnswerEventType.retrieved run.id)
                  (weigh_evidence store run p generation retrieval (suc event_id))
          ]
  ]

  -- The execution of a run that has no result yet.
  unfoldable pub execute : AnswerRequest → Store → AnswerRunRecord → ℕ → Outcome
  execute request store run event_id = elim (gw.plan request) [
    | none ↦ refuse_run rt store run RefusalCode.planning_failed none none now event_id
    | some p ↦
        emit (progress event_id AnswerEventType.planned run.id)
          (search_for request store run p (suc event_id))
  ]

  -- `stream`
  unfoldable pub stream : AnswerRequest → Identifier → Store → Outcome
  stream request fresh store =
      if ltb settings.max_question_characters (length request.question)
      then fails store question_too_long
      else elim (begin rt request fresh now store) [
        | raised e ↦ fails store e
        | ok (store', run, known) ↦ emit (progress 1 AnswerEventType.accepted run.id) (elim known [
          | some result ↦ ends store' 2 result
          | none ↦ execute request store' run 2
        ])
      ]

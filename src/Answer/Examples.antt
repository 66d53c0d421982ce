-- ===== src/Answer/Examples.antt =====
-- The answer service (answer/) over one piece of evidence.
use trustworthy_personal_kno.Prelude.{
  ◌≤◌, ◌≡◌, refl, true, false, none, some, List, [], ◌∷◌, codes, ok, All, ◌⊎◌, inl, inr, arith,
  text_eq, nat_eq, ◌==◌,
}
use trustworthy_personal_kno.Domain.Enums.Source.{Sensitivity}
use trustworthy_personal_kno.Domain.Enums.Claim.{ClaimStatus}
use trustworthy_personal_kno.Domain.Enums.Publication.{IndexGenerationStatus}
use trustworthy_personal_kno.Publication.Contracts.{RetrievalMode, RetrievalResult}
use trustworthy_personal_kno.Answer.Contracts.{
  QueryScope, PlannedScope, AnswerRequest, QueryPlan, AnswerEvidence, AnswerDraft,
  CitationVerificationOutput, AnswerCitation,
}
use trustworthy_personal_kno.Answer.Planning.{plan, retrieval_query_for_plan}
use trustworthy_personal_kno.Answer.Planning.Scope.{Reachable, plan-Reachable}
use trustworthy_personal_kno.Answer.Rendering.{
  Line, order_citations, order_claims, citation, number_citations, render_verified_answer,
}
use trustworthy_personal_kno.Answer.Rendering.Numbering.{IsNumbered, render-IsNumbered}
use trustworthy_personal_kno.Answer.Runs.{
  AnswerRunRecord, get_row, find_run, put_row, add_run, finish, complete_answer,
}
use trustworthy_personal_kno.Answer.Verification.{
  check_claims, validate_citation_closed_set, check_support, validate_semantic_support,
}
use trustworthy_personal_kno.Answer.Verification.Grounding.{AllGrounded, validated_grounded}
use trustworthy_personal_kno.Answer.Results.{AnsweredResult, answered}
use trustworthy_personal_kno.Answer.Environment.{
  AnswerSettings, Store, Gateways, Runtime, find_snapshot, is_prefix, occurs_in, active_generation,
}
use trustworthy_personal_kno.Answer.Sessions.{put_snapshot, begin, replay, operation_of}
use trustworthy_personal_kno.Answer.Service.{
  checked, complete_run, complete, judge_draft, answer_from, weigh_evidence, search_for, execute,
  stream,
}
use trustworthy_personal_kno.Answer.Service.Outcomes.{Numbered, Protocol, stream-Protocol}
use trustworthy_personal_kno.Answer.Service.Drafts.{Shows}
use trustworthy_personal_kno.Answer.Service.Safety.{IsTrusted, stream_answers-IsTrusted}

abbrev note : AnswerEvidence
note = record {
  chunk_id = 100;
  text = codes "Antt 3.12 is out.";
  claim_ids = 5 ∷ [];
  quality_status = ClaimStatus.verified;
  sensitivity = Sensitivity.private;
  note_id = 1;
  curated_version_id = 11;
  generation_id = 9;
  vault_path = codes "notes/antt.md";
  heading_path = [];
  source_version_ids = 3 ∷ [];
}

abbrev draft : AnswerDraft
draft = record {
  claims = record { statement = codes "It is out."; citation_chunk_ids = 100 ∷ [] } ∷ [];
  limitations = [];
}

abbrev support : CitationVerificationOutput
support = record {
  decisions = record { claim_index = 0; supported = true; supporting_chunk_ids = 100 ∷ [] } ∷ [];
}

abbrev request : AnswerRequest
request = record {
  question = codes "Is it out?";
  scope = QueryScope.auto;
  as_of = none;
  software_version = none;
  top_k = 5;
  operation_id = some (codes "operation");
}

abbrev planned : QueryPlan
planned = record {
  normalized_query = codes "antt release";
  scope = PlannedScope.personal;
  requires_current = true;
  target_version = some (codes "3.12");
  include_opinions = false;
}

abbrev settings : AnswerSettings
settings = record {
  max_question_characters = 100;
  max_answer_claims = 4;
  max_claim_characters = 80;
  min_evidence_count = 1;
}

closed : validate_citation_closed_set draft (note ∷ []) 4 80 ≡ ok tt
unfolding validate_citation_closed_set check_claims
closed = refl

supported : validate_semantic_support draft support ≡ ok tt
unfolding validate_semantic_support check_support
supported = refl

validated_grounded_example : AllGrounded (note ∷ []) support.decisions 0 draft.claims
validated_grounded_example = validated_grounded draft (note ∷ []) support 4 80 closed supported

render-IsNumbered_example :
    (lines : List Line) × (cs : List AnswerCitation) × (render_verified_answer draft (note ∷ [])
      ≡ ok (lines, cs))
    × IsNumbered draft (note ∷ []) lines cs
render-IsNumbered_example = render-IsNumbered draft (note ∷ []) 4 80 closed

plan-Reachable_example :
    All
      (Reachable QueryScope.auto planned)
      (retrieval_query_for_plan request (plan request planned) 20).allowed_quality_statuses
    × (5 ≤ (retrieval_query_for_plan request (plan request planned) 20).candidate_k)
    × ((retrieval_query_for_plan request (plan request planned) 20).candidate_k ≤ 500)
plan-Reachable_example = plan-Reachable request planned 20 (omega arith) (omega arith)

abbrev hits : RetrievalResult
hits = record { hits = []; mode = RetrievalMode.hybrid; degraded = false; generation_id = 9 }

abbrev gateways : Gateways
gateways = record {
  plan = λ r. some planned;
  retrieve = λ q id number. some hits;
  resolve = λ r. some (note ∷ []);
  generate = λ p es. some draft;
  verify = λ d es. some support;
}

abbrev shown : AnsweredResult
shown = record {
  run_id = 50;
  answer_lines = record { statement = codes "It is out."; marks = some 1 ∷ [] } ∷ [];
  claims = draft.claims;
  citations =
      record {
        number = 1;
        chunk_id = 100;
        note_id = 1;
        curated_version_id = 11;
        source_version_ids = 3 ∷ [];
        quality_status = ClaimStatus.verified;
        vault_path = codes "notes/antt.md";
        heading_path = [];
      }
      ∷ [];
  generation_id = 9;
  degraded = false;
}

abbrev runtime : Runtime
runtime = record {
  casefold = λ t. t;
  question_hash = λ r. 7;
  plan_hash = λ p. 8;
  answer_hash = λ r. 12;
  citation_hash = λ cs. 13;
  write = λ r. codes "answer";
  read = λ t. some shown;
  max_bytes = 1000;
  operation_id_for = λ hash id. codes "fresh";
}

abbrev start : Store
start = record {
  runs = [];
  generations =
      record { id = 9; generation_number = 2; status = IndexGenerationStatus.active } ∷ [];
  snapshots = [];
}

stream-Shows : Shows (stream runtime gateways settings 20 request 50 start) shown
unfolding is_prefix occurs_in stream begin find_run add_run get_row execute search_for
    active_generation weigh_evidence answer_from judge_draft checked validate_citation_closed_set
    check_claims validate_semantic_support check_support render_verified_answer order_claims
    order_citations number_citations citation complete put_snapshot find_snapshot complete_run
    complete_answer finish put_row
stream-Shows = inr (inr (inr (inr (inl refl))))

stream_answers-IsTrusted_example :
    ((run : AnswerRunRecord) × (find_run start.runs (operation_of runtime request 50) ≡ some run)
      × (run.question_hash == 7 ≡ true)
      × (replay runtime start.snapshots run ≡ ok (some (answered shown))))
    ⊎ IsTrusted runtime gateways settings 20 request start.generations shown
stream_answers-IsTrusted_example =
    stream_answers-IsTrusted runtime gateways settings 20 request 50 start shown stream-Shows

stream-Protocol_example :
    Numbered 1 (stream runtime gateways settings 20 request 50 start).events
    × Protocol
        (stream runtime gateways settings 20 request 50 start).failure
        (stream runtime gateways settings 20 request 50 start).events
stream-Protocol_example = stream-Protocol runtime gateways settings 20 request 50 start

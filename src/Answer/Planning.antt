-- ===== src/Answer/Planning.antt =====
-- answer/planning.py: the overrides that code makes to a planned query, and the retrieval query.
-- The model call of `AnswerPlanner.plan` is a parameter: its answer is the argument `planned`.
pub mod Scope
use trustworthy_personal_kno.Prelude.{
  ℕ, ◌*◌, ◌≡◌, Bool, true, false, not, Option, none, some, List, [], ◌∷◌, min, max, if◌then◌else◌,
  Text, or_else,
}
use trustworthy_personal_kno.Domain.Enums.Source.{Sensitivity}
use trustworthy_personal_kno.Domain.Enums.Claim.{ClaimStatus}
use trustworthy_personal_kno.Answer.Contracts.{QueryScope, PlannedScope, AnswerRequest, QueryPlan}
use trustworthy_personal_kno.Publication.Contracts.{RetrievalQuery}

-- The scope that the request asks for, or else the planned one.
abbrev pub scope_for : QueryScope → PlannedScope → PlannedScope
scope_for QueryScope.auto planned = planned
scope_for QueryScope.general planned = PlannedScope.general
scope_for QueryScope.personal planned = PlannedScope.personal

abbrev pub opinions_for : PlannedScope → Bool → Bool
opinions_for PlannedScope.general asked = false
opinions_for PlannedScope.personal asked = asked

-- `AnswerPlanner.plan` after the model has answered. A validated version is never empty, so `or`
-- is `or_else`.
unfoldable pub plan : AnswerRequest → QueryPlan → QueryPlan
plan request planned =
    let scope = scope_for request.scope planned.scope in
    record planned {
      scope = scope;
      target_version = or_else request.software_version planned.target_version;
      include_opinions = opinions_for scope planned.include_opinions;
    }

abbrev pub statuses_for : PlannedScope → Bool → List ClaimStatus
statuses_for PlannedScope.general include_opinions = ClaimStatus.verified ∷ []
statuses_for PlannedScope.personal include_opinions =
    ClaimStatus.verified
    ∷ ClaimStatus.user_asserted
    ∷ (if include_opinions then ClaimStatus.opinion ∷ [] else [])

abbrev pub moment : Option ℕ → ℕ → ℕ
moment none at = at
moment (some t) at = t

unfoldable pub retrieval_query_for_plan : AnswerRequest → QueryPlan → ℕ → RetrievalQuery
retrieval_query_for_plan request p at = record {
  text = p.normalized_query;
  top_k = request.top_k;
  candidate_k = min 500 (max (request.top_k * 6) 30);
  allowed_quality_statuses = statuses_for p.scope p.include_opinions;
  max_sensitivity = Sensitivity.private;
  at = moment request.as_of at;
  allow_stale = not p.requires_current;
}

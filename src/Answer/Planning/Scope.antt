-- ===== src/Answer/Planning/Scope.antt =====
-- Which statuses a planned question may reach (answer/planning.py).
use trustworthy_personal_kno.Prelude.{
  ℕ, ◌≤◌, ◌≡◌, refl, true, arith, All, ◌⊎◌, inl, inr, Bool, false, [], ◌∷◌, if◌then◌else◌,
}
use trustworthy_personal_kno.Domain.Enums.Claim.{ClaimStatus}
use trustworthy_personal_kno.Answer.Contracts.{QueryScope, PlannedScope, AnswerRequest, QueryPlan}
use trustworthy_personal_kno.Answer.Planning.{
  plan, retrieval_query_for_plan, scope_for, statuses_for, opinions_for,
}

-- The personal scope is the one requested, or the planned one where none is.
abbrev pub IsPersonal : QueryScope → QueryPlan → Type 0
IsPersonal requested planned =
    (requested ≡ QueryScope.personal)
    ⊎ ((requested ≡ QueryScope.auto) × (planned.scope ≡ PlannedScope.personal))

-- A status that the validator of `RetrievalQuery` lets through, in the scopes that may see it.
abbrev pub Reachable : QueryScope → QueryPlan → ClaimStatus → Type 0
Reachable requested planned s =
    (s ≡ ClaimStatus.verified)
    ⊎ ((s ≡ ClaimStatus.user_asserted) × IsPersonal requested planned)
    ⊎ ((s ≡ ClaimStatus.opinion) × IsPersonal requested planned × (planned.include_opinions ≡ true))

scope_for-IsPersonal :
    (q : QueryScope) (p : QueryPlan) → scope_for q p.scope ≡ PlannedScope.personal → IsPersonal q p
scope_for-IsPersonal QueryScope.auto p e = inr (refl, e)
scope_for-IsPersonal QueryScope.general p e = cc
scope_for-IsPersonal QueryScope.personal p e = inl refl

statuses-Reachable :
    (q : QueryScope) (s : PlannedScope) (p : QueryPlan)
    → scope_for q p.scope ≡ s
    → All (Reachable q p) (statuses_for s (opinions_for s p.include_opinions))
statuses-Reachable q PlannedScope.general p e = (inl refl, tt)
statuses-Reachable q PlannedScope.personal p e =
    let own = scope_for-IsPersonal q p e in
    (inl refl, (inr (inl (refl, own)), opinions p.include_opinions refl own))
  where
    opinions :
        (b : Bool)
        → p.include_opinions ≡ b
        → IsPersonal q p
        → All (Reachable q p) (if b then ClaimStatus.opinion ∷ [] else [])
    opinions true e own = (inr (inr (refl, own, e)), tt)
    opinions false e own = tt

-- Whatever plan the model returns, the query reaches verified claims, the user's own assertions only
-- in the personal scope, and opinions only there and where they were asked for, where the personal scope
-- is the one requested, or the planned one if none is; and of 1 to 10 results asked for, the
-- candidates are at least as many and at most 500.
pub plan-Reachable :
    (request : AnswerRequest) (planned : QueryPlan) (at : ℕ)
    → 1 ≤ request.top_k
    → request.top_k ≤ 10
    → All
        (Reachable request.scope planned)
        (retrieval_query_for_plan request (plan request planned) at).allowed_quality_statuses
      × (request.top_k ≤ (retrieval_query_for_plan request (plan request planned) at).candidate_k)
      × ((retrieval_query_for_plan request (plan request planned) at).candidate_k ≤ 500)
unfolding plan retrieval_query_for_plan
plan-Reachable request planned at low high =
    (statuses-Reachable request.scope _ planned refl, omega arith, omega arith)

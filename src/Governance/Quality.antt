-- ===== src/Governance/Quality.antt =====
-- governance/quality.py: the deterministic quality policy, `QualityPolicyEngine.evaluate`.
pub mod Justification
pub mod Consistency
pub mod Totality
mod Examples
use trustworthy_personal_kno.Prelude.{
  ℕ, suc, ◌*◌, ◌+◌, ◌≡◌, Bool, true, false, not, ◌&&◌, ◌||◌, String, Option, none, some, List, [],
  ◌∷◌, map, min, max, or_else, Text, codes, strip, lower, truthy, or_empty, if◌then◌else◌, leb,
  ◌==◌, string_eq, nat_eq, text_eq, contains, subset, filter, any, all, length, Result, ok, raised,
  ◌>>=◌,
}
use trustworthy_personal_kno.Domain.Enums.Source.{
  TrustTier, trust_tier_eq, Sensitivity, sensitivity_eq,
}
use trustworthy_personal_kno.Domain.Enums.Claim.{
  ClaimType, claim_type_eq, ClaimStatus, EvidenceStance, evidence_stance_eq, QualityVerdict,
  RiskLevel, risk_level_eq,
}
use trustworthy_personal_kno.Governance.Contracts.{
  Score, unit, Ratio, ClaimDraft, EvidencePackCandidate, EvidencePack, CandidateVerification,
  MetricState, QualityMetric, SafetyStatus, QualityDimensions,
}
use trustworthy_personal_kno.Governance.RiskLevels.{is_subjective, is_user_asserted, classify_risk}
use trustworthy_personal_kno.Governance.Metrics.{by_id, from_trusted, max_coverage, one, dimensions}

-- `EvidencePackIntegrityError`, and the `KeyError` of a subscript.
pub data GovernanceError : Type 0 where
  evidence_pack_integrity missing_candidate : GovernanceError

pub record PolicyDecision : Type 0 where
  pub verdict : QualityVerdict
  pub claim_status : ClaimStatus
  pub risk_level : RiskLevel
  pub reason_code : String
  pub review_required : Bool
  pub publishable : Bool
  pub dimensions : QualityDimensions

abbrev pub decide_as :
    QualityVerdict
    → ClaimStatus
    → RiskLevel
    → String
    → QualityDimensions
    → Bool
    → Bool
    → PolicyDecision
decide_as verdict claim_status risk reason_code dims review publishable = record {
  verdict = verdict;
  claim_status = claim_status;
  risk_level = risk;
  reason_code = reason_code;
  review_required = review;
  publishable = publishable;
  dimensions = record dims { risk_level = risk };
}

abbrev pub insufficient : RiskLevel → QualityDimensions → String → PolicyDecision
insufficient risk dims reason_code =
    decide_as QualityVerdict.insufficient ClaimStatus.insufficient risk reason_code dims true false

-- The condition of `trusted_support` and `trusted_contradiction`, on a result that names a candidate:
-- 0.8 is 800000 millionths.
abbrev pub is_decisive : EvidenceStance → List EvidencePackCandidate → CandidateVerification → Bool
is_decisive stance candidates item =
    item.stance == stance && from_trusted candidates item && leb 800000 item.relevance

abbrev pub decisive :
    EvidenceStance
    → List EvidencePackCandidate
    → List CandidateVerification
    → List CandidateVerification
decisive stance candidates results = filter (is_decisive stance candidates) results

abbrev pub is_empty {ℓ} : {A : Type ℓ} → List A → Bool
is_empty [] = true
is_empty (x ∷ xs) = false

abbrev pub is_some {ℓ} : {A : Type ℓ} → Option A → Bool
is_some none = false
is_some (some a) = true

-- The subscript `candidate_by_id[item.candidate_id]` is read of each result with the stance.
abbrev pub is_readable : EvidenceStance → List EvidencePackCandidate → CandidateVerification → Bool
is_readable stance candidates item =
    not (item.stance == stance) || is_some (by_id candidates item.candidate_id)

-- `trusted_support` and `trusted_contradiction`.
unfoldable pub trusted_results :
    EvidenceStance
    → List EvidencePackCandidate
    → List CandidateVerification
    → Result GovernanceError (List CandidateVerification)
trusted_results stance candidates results =
    if all (is_readable stance candidates) results
    then ok (decisive stance candidates results)
    else raised missing_candidate

abbrev pub is_yes : Option Bool → Bool
is_yes (some true) = true
is_yes _ = false

-- `not required or any(match is True for item in support)`.
abbrev pub version_ok : ClaimDraft → List CandidateVerification → Bool
version_ok claim support =
    not (claim.claim_type == ClaimType.code_behavior || truthy claim.scope.version)
    || any (λ item. is_yes item.version_match) support

abbrev pub freshness_ok : ClaimDraft → List CandidateVerification → Bool
freshness_ok claim support =
    not (is_some claim.freshness_at) || any (λ item. is_yes item.freshness_match) support

-- The end of `evaluate`, from the two lists of decisive results. 0.95 is 950000 millionths.
pub weigh :
    ClaimDraft
    → RiskLevel
    → QualityDimensions
    → List CandidateVerification
    → List CandidateVerification
    → PolicyDecision
weigh claim risk dims support contradiction =
    if not (is_empty support) && not (is_empty contradiction)
    then decide_as QualityVerdict.contested ClaimStatus.contested risk "TRUSTED_EVIDENCE_CONFLICT"
        dims true false
    else if not (is_empty support)
        && leb 950000 (max_coverage support)
        && version_ok claim support
        && freshness_ok claim support
    then decide_as QualityVerdict.verified ClaimStatus.verified risk "AUTHORITATIVE_SUPPORT" dims
        (not (risk == RiskLevel.low)) (risk == RiskLevel.low)
    else if not (is_empty contradiction)
        && is_empty support
        && leb 950000 (max_coverage contradiction)
    then decide_as QualityVerdict.rejected ClaimStatus.rejected risk "AUTHORITATIVE_CONTRADICTION"
        dims (not (risk == RiskLevel.low)) false
    else insufficient risk dims "EVIDENCE_COVERAGE_INSUFFICIENT"

abbrev pub verified_ids : List CandidateVerification → List String
verified_ids = map (λ (x : CandidateVerification). x.candidate_id)

abbrev pub candidate_ids : List EvidencePackCandidate → List String
candidate_ids = map (λ (x : EvidencePackCandidate). x.candidate_id)

-- Two sets of ids are equal.
abbrev pub same_ids : List String → List String → Bool
same_ids xs ys = subset xs ys && subset ys xs

abbrev pub weigh_trusted :
    ClaimDraft
    → RiskLevel
    → QualityDimensions
    → Result GovernanceError (List CandidateVerification)
    → Result GovernanceError (List CandidateVerification)
    → Result GovernanceError PolicyDecision
weigh_trusted claim risk dims supporting contradicting = do
  support ← supporting
  contradiction ← contradicting
  ok (weigh claim risk dims support contradiction)

-- The part of `evaluate` that reads the evidence.
pub judge :
    ClaimDraft
    → RiskLevel
    → QualityDimensions
    → Option EvidencePack
    → List CandidateVerification
    → Result GovernanceError PolicyDecision
unfolding trusted_results
judge claim risk dims none results = ok (insufficient risk dims "EVIDENCE_MISSING")
judge claim risk dims (some pack) [] = ok (insufficient risk dims "EVIDENCE_MISSING")
judge claim risk dims (some pack) (item ∷ items) =
    if same_ids (verified_ids (item ∷ items)) (candidate_ids pack.candidates)
    then weigh_trusted claim risk dims
        (trusted_results EvidenceStance.supports pack.candidates (item ∷ items))
        (trusted_results EvidenceStance.contradicts pack.candidates (item ∷ items))
    else raised evidence_pack_integrity

-- `QualityPolicyEngine.evaluate`.
pub evaluate :
    ClaimDraft
    → TrustTier
    → Option EvidencePack
    → List CandidateVerification
    → Bool
    → List String
    → Result GovernanceError PolicyDecision
evaluate claim origin_trust_tier pack results search_available safety_signals =
    let risk = classify_risk claim in
    let dims = dimensions risk pack results safety_signals in
    if not (is_empty safety_signals)
    then ok (
        decide_as QualityVerdict.quarantined ClaimStatus.quarantined RiskLevel.high "SAFETY_BLOCKED"
          dims false false)
    else if is_subjective claim.claim_type
    then ok (
        decide_as QualityVerdict.opinion ClaimStatus.opinion risk "SUBJECTIVE_CLAIM" dims
          (not (risk == RiskLevel.low)) (risk == RiskLevel.low))
    else if origin_trust_tier == TrustTier.t0
        && is_user_asserted claim.claim_type
        && truthy claim.scope.owner
    then ok (
        decide_as QualityVerdict.user_asserted ClaimStatus.user_asserted risk
          "OWNER_SCOPED_ASSERTION" dims (not (risk == RiskLevel.low)) (risk == RiskLevel.low))
    else if not search_available
    then ok (insufficient risk dims "SEARCH_CAPABILITY_UNAVAILABLE")
    else judge claim risk dims pack results

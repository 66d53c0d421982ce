-- ===== src/Governance/RiskLevels.antt =====
-- governance/quality.py: the risk of a claim, and the kinds of claims.
pub mod Spelling
use trustworthy_personal_kno.Prelude.{
  ℕ, suc, ◌*◌, ◌+◌, ◌≡◌, Bool, true, false, not, ◌&&◌, ◌||◌, String, Option, none, some, List, [],
  ◌∷◌, map, min, max, or_else, Text, codes, strip, lower, truthy, or_empty, if◌then◌else◌, leb,
  ◌==◌, string_eq, nat_eq, text_eq, contains, subset, filter, any, length, Result, ok, raised,
}
use trustworthy_personal_kno.Domain.Enums.Source.{
  TrustTier, trust_tier_eq, Sensitivity, sensitivity_eq,
}
use trustworthy_personal_kno.Domain.Enums.Claim.{
  ClaimType, claim_type_eq, ClaimStatus, EvidenceStance, evidence_stance_eq, QualityVerdict,
  RiskLevel, risk_level_eq,
}
use trustworthy_personal_kno.Governance.Contracts.{
  Score, unit, Ratio, ClaimDraft, EvidencePackCandidate, EvidencePack, CandidateVerification,
  MetricState, QualityMetric, SafetyStatus, QualityDimensions,
}

abbrev pub high_risk_domains : List Text
high_risk_domains =
    codes "medical"
    ∷ codes "medicine"
    ∷ codes "health"
    ∷ codes "legal"
    ∷ codes "law"
    ∷ codes "financial"
    ∷ codes "finance"
    ∷ codes "security"
    ∷ []

abbrev pub is_subjective : ClaimType → Bool
is_subjective ClaimType.opinion = true
is_subjective ClaimType.prediction = true
is_subjective _ = false

abbrev pub is_user_asserted : ClaimType → Bool
is_user_asserted ClaimType.user_experience = true
is_user_asserted ClaimType.preference = true
is_user_asserted ClaimType.decision = true
is_user_asserted _ = false

abbrev pub normalized_domain : ClaimDraft → Text
normalized_domain claim = lower (strip (or_empty claim.scope.domain))

pub classify_risk : ClaimDraft → RiskLevel
classify_risk claim =
    if contains high_risk_domains (normalized_domain claim)
    then RiskLevel.high
    else if is_subjective claim.claim_type || is_user_asserted claim.claim_type
    then RiskLevel.low
    else if claim.sensitivity == Sensitivity.public
    then RiskLevel.low
    else RiskLevel.medium

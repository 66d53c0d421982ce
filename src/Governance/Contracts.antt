-- ===== src/Governance/Contracts.antt =====
-- governance/contracts.py: the values that the quality policy reads and writes, with the fields
-- that it uses. A score is a float of the range 0 to 1: it is kept in millionths, and a score that
-- the policy computes is an exact ratio.
use trustworthy_personal_kno.Prelude.{ℕ, ◌≤◌, Bool, String, Option, none, some, List, Text}
use trustworthy_personal_kno.Domain.Enums.Source.{TrustTier, Sensitivity}
use trustworthy_personal_kno.Domain.Enums.Claim.{ClaimType, EvidenceStance, RiskLevel}

abbrev pub Score : Type 0
Score = ℕ

abbrev pub unit : Score
unit = 1000000

pub record Ratio : Type 0 where
  pub num : ℕ
  pub den : ℕ

-- The scope of a claim: of its fields the policy reads three.
pub record ClaimScope : Type 0 where
  pub owner : Option Text
  pub domain : Option Text
  pub version : Option Text

-- A draft of a claim: of its fields the policy reads four. A time is a number.
pub record ClaimDraft : Type 0 where
  pub claim_type : ClaimType
  pub scope : ClaimScope
  pub freshness_at : Option ℕ
  pub sensitivity : Sensitivity

pub record EvidencePackCandidate : Type 0 where
  pub candidate_id : String
  pub trust_tier : TrustTier
  pub complete : Bool
  pub evidence_family : String

pub record EvidencePack : Type 0 where
  pub candidates : List EvidencePackCandidate

pub record CandidateVerification : Type 0 where
  pub candidate_id : String
  pub stance : EvidenceStance
  pub evidence_coverage : Score
  pub version_match : Option Bool
  pub freshness_match : Option Bool
  pub relevance : Score

pub data MetricState : Type 0 where
  pass fail unknown not_applicable : MetricState

pub record QualityMetric : Type 0 where
  pub state : MetricState
  pub score : Option Ratio

pub data SafetyStatus : Type 0 where
  safe unsafe : SafetyStatus

pub record QualityDimensions : Type 0 where
  pub evidence_coverage : QualityMetric
  pub source_reliability : QualityMetric
  pub source_independence : QualityMetric
  pub source_agreement : QualityMetric
  pub freshness : QualityMetric
  pub version_match : QualityMetric
  pub extraction_quality : QualityMetric
  pub verifier_agreement : QualityMetric
  pub risk_level : RiskLevel
  pub safety_status : SafetyStatus

-- The validators of the contracts.
abbrev pub IsScore : Score → Type 0
IsScore s = s ≤ unit

abbrev pub MetricShape : MetricState → Option Ratio → Type 0
MetricShape MetricState.pass none = ⊥
MetricShape MetricState.pass (some r) = (1 ≤ r.den) × (r.num ≤ r.den)
MetricShape MetricState.fail none = ⊥
MetricShape MetricState.fail (some r) = (1 ≤ r.den) × (r.num ≤ r.den)
MetricShape MetricState.unknown none = Unit
MetricShape MetricState.unknown (some r) = ⊥
MetricShape MetricState.not_applicable none = Unit
MetricShape MetricState.not_applicable (some r) = ⊥

-- A score exactly where the metric is known, and within the range 0 to 1, of a denominator that
-- is not 0.
abbrev pub IsMetric : QualityMetric → Type 0
IsMetric m = MetricShape m.state m.score

-- ===== src/Governance/Metrics.antt =====
-- governance/quality.py: the dimensions of quality that are computed from the evidence.
pub mod Ranges
use trustworthy_personal_kno.Prelude.{
  ℕ, suc, ◌*◌, ◌+◌, ◌≡◌, Bool, true, false, not, ◌&&◌, ◌||◌, String, Option, none, some, List, [],
  ◌∷◌, map, min, max, or_else, Text, codes, strip, lower, truthy, or_empty, if◌then◌else◌, leb,
  ◌==◌, string_eq, nat_eq, text_eq, contains, subset, filter, any, length, Result, ok, raised,
}
use trustworthy_personal_kno.Domain.Enums.Source.{
  TrustTier, trust_tier_eq, Sensitivity, sensitivity_eq,
}
use trustworthy_personal_kno.Domain.Enums.Claim.{
  ClaimType, claim_type_eq, ClaimStatus, EvidenceStance, evidence_stance_eq, QualityVerdict,
  RiskLevel, risk_level_eq,
}
use trustworthy_personal_kno.Governance.Contracts.{
  Score, unit, Ratio, ClaimDraft, EvidencePackCandidate, EvidencePack, CandidateVerification,
  MetricState, QualityMetric, SafetyStatus, QualityDimensions,
}

-- `value >= pass_at`, on ratios.
abbrev pub reaches : Ratio → Ratio → Bool
reaches value pass_at = leb (pass_at.num * value.den) (value.num * pass_at.den)

pub metric : Option Ratio → Ratio → QualityMetric
metric none pass_at = record { state = MetricState.unknown; score = none }
metric (some value) pass_at = record {
  state = if reaches value pass_at then MetricState.pass else MetricState.fail;
  score = some value;
}

abbrev pub known : List (Option Bool) → List Bool
known [] = []
known (none ∷ values) = known values
known (some b ∷ values) = b ∷ known values

-- `sum` of a list of booleans.
abbrev pub count_true : List Bool → ℕ
count_true [] = 0
count_true (true ∷ bs) = suc (count_true bs)
count_true (false ∷ bs) = count_true bs

boolean_metric_of : List Bool → QualityMetric
boolean_metric_of [] = record { state = MetricState.not_applicable; score = none }
boolean_metric_of (b ∷ bs) =
    let score : Ratio = record { num = count_true (b ∷ bs); den = length (b ∷ bs) } in
    record {
      state = if count_true (b ∷ bs) == length (b ∷ bs) then MetricState.pass else MetricState.fail;
      score = some score;
    }

pub boolean_metric : List (Option Bool) → QualityMetric
unfolding boolean_metric_of
boolean_metric values = boolean_metric_of (known values)

-- `{candidate.candidate_id: candidate for candidate in candidates}.get(id)`: of candidates with one
-- id the last is kept.
abbrev pub by_id : List EvidencePackCandidate → String → Option EvidencePackCandidate
by_id [] key = none
by_id (c ∷ cs) key = or_else (by_id cs key) (if c.candidate_id == key then some c else none)

abbrev pub is_trusted_tier : TrustTier → Bool
is_trusted_tier TrustTier.t1 = true
is_trusted_tier TrustTier.t2 = true
is_trusted_tier _ = false

abbrev pub tier_of_candidate : Option EvidencePackCandidate → Bool
tier_of_candidate none = false
tier_of_candidate (some c) = is_trusted_tier c.trust_tier

-- The result names a candidate of tier T1 or T2.
abbrev pub from_trusted : List EvidencePackCandidate → CandidateVerification → Bool
from_trusted candidates item = tier_of_candidate (by_id candidates item.candidate_id)

abbrev pub candidates_of : Option EvidencePack → List EvidencePackCandidate
candidates_of none = []
candidates_of (some pack) = pack.candidates

-- `max((item.evidence_coverage for item in items), default=0.0)`.
abbrev pub max_coverage : List CandidateVerification → Score
max_coverage [] = 0
max_coverage (item ∷ items) = max item.evidence_coverage (max_coverage items)

abbrev pub best_coverage : List CandidateVerification → Option Ratio
best_coverage [] = none
best_coverage (item ∷ items) = some (record { num = max_coverage (item ∷ items); den = unit })

-- The evidence families of the results, each once.
abbrev pub family_of : Option EvidencePackCandidate → List String → List String
family_of none families = families
family_of (some c) families =
    if contains families c.evidence_family then families else c.evidence_family ∷ families

abbrev pub families : List EvidencePackCandidate → List CandidateVerification → List String
families candidates [] = []
families candidates (item ∷ items) =
    family_of (by_id candidates item.candidate_id) (families candidates items)

abbrev pub has_stance : EvidenceStance → List CandidateVerification → Bool
has_stance stance = any (λ item. item.stance == stance)

abbrev pub as_ℕ : Bool → ℕ
as_ℕ true = 1
as_ℕ false = 0

-- `len({item.stance for item in items})`.
abbrev pub stance_count : List CandidateVerification → ℕ
stance_count items =
    as_ℕ (has_stance EvidenceStance.supports items)
    + as_ℕ (has_stance EvidenceStance.contradicts items)
    + as_ℕ (has_stance EvidenceStance.neutral items)

abbrev pub one : Ratio
one = record { num = 1; den = 1 }

abbrev pub nothing : Ratio
nothing = record { num = 0; den = 1 }

abbrev pub when {ℓ} : {A : Type ℓ} → List A → Ratio → Option Ratio
when [] r = none
when (x ∷ xs) r = some r

abbrev pub reliability : List CandidateVerification → List CandidateVerification → Option Ratio
reliability [] results = when results (record { num = 4; den = 10 })
reliability (t ∷ ts) results = some one

abbrev pub agreement : List CandidateVerification → Option Ratio
agreement [] = none
agreement (t ∷ ts) = some (
    if has_stance EvidenceStance.supports (t ∷ ts) && has_stance EvidenceStance.contradicts (t ∷ ts)
    then nothing
    else one)

abbrev pub completeness : List EvidencePackCandidate → Option Ratio
completeness [] = none
completeness (c ∷ cs) = some (record {
  num = count_true (map (λ (x : EvidencePackCandidate). x.complete) (c ∷ cs));
  den = length (c ∷ cs);
})

abbrev pub safety_of : List String → SafetyStatus
safety_of [] = SafetyStatus.safe
safety_of (s ∷ ss) = SafetyStatus.unsafe

pub dimensions :
    RiskLevel → Option EvidencePack → List CandidateVerification → List String → QualityDimensions
dimensions risk pack results safety_signals =
    let candidates = candidates_of pack in
    let trusted = filter (from_trusted candidates) results in
    record {
      evidence_coverage = metric (best_coverage results) (record { num = 95; den = 100 });
      source_reliability = metric (reliability trusted results) (record { num = 8; den = 10 });
      source_independence =
          metric
            (when results (record { num = min (length (families candidates results)) 2; den = 2 }))
            one;
      source_agreement = metric (agreement trusted) one;
      freshness = boolean_metric (map (λ (x : CandidateVerification). x.freshness_match) results);
      version_match = boolean_metric (map (λ (x : CandidateVerification). x.version_match) results);
      extraction_quality = metric (completeness candidates) one;
      verifier_agreement =
          metric (when results (if leb (stance_count trusted) 1 then one else nothing)) one;
      risk_level = risk;
      safety_status = safety_of safety_signals;
    }

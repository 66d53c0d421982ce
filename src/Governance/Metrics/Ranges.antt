-- ===== src/Governance/Metrics/Ranges.antt =====
-- The quality dimensions of governance/quality.py meet the validators of governance/contracts.py.
use trustworthy_personal_kno.Prelude.{
  ℕ, ◌≤◌, ◌≡◌, Bool, true, false, String, Option, none, some, List, [], ◌∷◌, map, arith, length,
  All, filter, leb, ◌==◌, nat_eq, if◌then◌else◌, Bool-cases, inl, inr,
}
use trustworthy_personal_kno.Domain.Enums.Claim.{RiskLevel}
use trustworthy_personal_kno.Governance.Contracts.{
  unit, Ratio, EvidencePackCandidate, EvidencePack, CandidateVerification, QualityDimensions,
  IsScore, IsMetric,
}
use trustworthy_personal_kno.Governance.Metrics.{
  metric, boolean_metric_of, boolean_metric, known, count_true, max_coverage, best_coverage,
  reliability, agreement, completeness, when, stance_count, candidates_of, from_trusted, dimensions,
  reaches,
}

-- A ratio that is missing or within the range 0 to 1.
abbrev InRange : Option Ratio → Type 0
InRange none = Unit
InRange (some r) = (1 ≤ r.den) × (r.num ≤ r.den)

metric-IsMetric :
    (value : Option Ratio) (pass_at : Ratio) → InRange value → IsMetric (metric value pass_at)
unfolding metric
metric-IsMetric none pass_at h = tt
metric-IsMetric (some value) pass_at h = elim (Bool-cases (reaches value pass_at)) [
  | inl e ↦ rw e h
  | inr e ↦ rw e h
]

count_true-le : (bs : List Bool) → count_true bs ≤ length bs
count_true-le [] = omega arith
count_true-le (true ∷ bs) = omega (arith, count_true-le bs)
count_true-le (false ∷ bs) = omega (arith, count_true-le bs)

boolean_metric_of-IsMetric : (bs : List Bool) → IsMetric (boolean_metric_of bs)
unfolding boolean_metric_of
boolean_metric_of-IsMetric [] = tt
boolean_metric_of-IsMetric (b ∷ bs) = elim (Bool-cases (count_true (b ∷ bs) == length (b ∷ bs))) [
  | inl e ↦ rw e (omega arith, count_true-le (b ∷ bs))
  | inr e ↦ rw e (omega arith, count_true-le (b ∷ bs))
]

boolean_metric-IsMetric : (values : List (Option Bool)) → IsMetric (boolean_metric values)
unfolding boolean_metric
boolean_metric-IsMetric values = boolean_metric_of-IsMetric (known values)

max_coverage-le :
    (results : List CandidateVerification)
    → All (λ r. IsScore r.evidence_coverage) results
    → max_coverage results ≤ unit
max_coverage-le [] h = omega arith
max_coverage-le (r ∷ rs) h = omega (arith, h.0, max_coverage-le rs h.1)

length-map {ℓ κ} :
    {A : Type ℓ} {B : Type κ} (f : A → B) (xs : List A) → length (map f xs) ≡ length xs
length-map f [] = omega arith
length-map f (x ∷ xs) = omega (arith, length-map f xs)

-- Every metric of the dimensions that hold beside a decision.
pub record AreMetrics (d : QualityDimensions) : Type 0 where
  pub evidence_coverage : IsMetric d.evidence_coverage
  pub source_reliability : IsMetric d.source_reliability
  pub source_independence : IsMetric d.source_independence
  pub source_agreement : IsMetric d.source_agreement
  pub freshness : IsMetric d.freshness
  pub version_match : IsMetric d.version_match
  pub extraction_quality : IsMetric d.extraction_quality
  pub verifier_agreement : IsMetric d.verifier_agreement

coverage-InRange :
    (results : List CandidateVerification)
    → All (λ r. IsScore r.evidence_coverage) results
    → InRange (best_coverage results)
coverage-InRange [] h = tt
coverage-InRange (r ∷ rs) h = (omega arith, max_coverage-le (r ∷ rs) h)

when-InRange {ℓ} : {A : Type ℓ} (xs : List A) (r : Ratio) → InRange (some r) → InRange (when xs r)
when-InRange [] r h = tt
when-InRange (x ∷ xs) r h = h

reliability-InRange : (ts rs : List CandidateVerification) → InRange (reliability ts rs)
reliability-InRange [] [] = tt
reliability-InRange [] (r ∷ rs) = (omega arith, omega arith)
reliability-InRange (t ∷ ts) rs = (omega arith, omega arith)

agreement-InRange : (ts : List CandidateVerification) → InRange (agreement ts)
agreement-InRange [] = tt
agreement-InRange (t ∷ ts) = ground arith

completeness-InRange : (cs : List EvidencePackCandidate) → InRange (completeness cs)
completeness-InRange [] = tt
completeness-InRange (c ∷ cs) = (
  omega arith,
  omega (
    arith,
    count_true-le (map (λ (x : EvidencePackCandidate). x.complete) (c ∷ cs)),
    length-map (λ (x : EvidencePackCandidate). x.complete) (c ∷ cs),
  ),
)

agreed-InRange :
    (n : ℕ)
    → (let r : Ratio =
          if leb n 1 then record { num = 1; den = 1 } else record { num = 0; den = 1 } in
        InRange (some r))
agreed-InRange n = ground arith

-- Where the coverage of each result is a score, every metric that the policy computes has a score
-- exactly if it passes or fails, and that score is a ratio within the range 0 to 1 whose denominator
-- is not 0: no division of the source fails, and the validators of the contract never refuse it.
pub dimensions-AreMetrics :
    (risk : RiskLevel) (pack : Option EvidencePack) (results : List CandidateVerification)
    (signals : List String)
    → All (λ r. IsScore r.evidence_coverage) results
    → AreMetrics (dimensions risk pack results signals)
unfolding dimensions
dimensions-AreMetrics risk pack results signals h =
    let trusted : List CandidateVerification = filter (from_trusted (candidates_of pack)) results in
    record {
      evidence_coverage = metric-IsMetric _ _ (coverage-InRange results h);
      source_reliability = metric-IsMetric _ _ (reliability-InRange trusted results);
      source_independence = metric-IsMetric _ _ (when-InRange results _ (omega arith, omega arith));
      source_agreement = metric-IsMetric _ _ (agreement-InRange trusted);
      freshness = boolean_metric-IsMetric _;
      version_match = boolean_metric-IsMetric _;
      extraction_quality = metric-IsMetric _ _ (completeness-InRange (candidates_of pack));
      verifier_agreement =
          metric-IsMetric _ _ (when-InRange results _ (agreed-InRange (stance_count trusted)));
    }

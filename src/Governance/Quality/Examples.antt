-- ===== src/Governance/Quality/Examples.antt =====
-- The quality policy (governance/quality.py) on concrete claims.
use trustworthy_personal_kno.Prelude.{
  ◌≡◌, refl, true, ◌⊎◌, none, some, List, [], ◌∷◌, String, codes, strip, lower, lstrip, rstrip,
  arith, ok, raised,
}
use trustworthy_personal_kno.Domain.Enums.Source.{TrustTier, Sensitivity}
use trustworthy_personal_kno.Domain.Enums.Claim.{ClaimType, EvidenceStance, QualityVerdict}
use trustworthy_personal_kno.Governance.Contracts.{ClaimDraft, EvidencePack, CandidateVerification}
use trustworthy_personal_kno.Governance.RiskLevels.{classify_risk}
use trustworthy_personal_kno.Governance.Metrics.{dimensions, candidates_of}
use trustworthy_personal_kno.Governance.Quality.{
  PolicyDecision, evidence_pack_integrity, weigh, judge, evaluate, decisive, version_ok,
  freshness_ok,
}
use trustworthy_personal_kno.Governance.Quality.Justification.{
  Justification, verified_justified, rejected_justified,
}
use trustworthy_personal_kno.Governance.Quality.Consistency.{IsConsistent, evaluate-IsConsistent}
use trustworthy_personal_kno.Governance.Quality.Totality.{Mismatch, evaluate_total}
use trustworthy_personal_kno.Governance.Metrics.Ranges.{AreMetrics, dimensions-AreMetrics}
use trustworthy_personal_kno.Governance.RiskLevels.Spelling.{in_domain, risk_ignores_spelling}

abbrev fact : ClaimDraft
fact = record {
  claim_type = ClaimType.fact;
  scope = record { owner = none; domain = none; version = some (codes "3.12") };
  freshness_at = none;
  sensitivity = Sensitivity.public;
}

abbrev official : EvidencePack
official = record {
  candidates =
      record {
        candidate_id = "C1";
        trust_tier = TrustTier.t1;
        complete = true;
        evidence_family = "docs";
      }
      ∷ [];
}

abbrev reading : EvidenceStance → CandidateVerification
reading stance = record {
  candidate_id = "C1";
  stance = stance;
  evidence_coverage = 970000;
  version_match = some true;
  freshness_match = none;
  relevance = 900000;
}

abbrev supporting : List CandidateVerification
supporting = reading EvidenceStance.supports ∷ []

abbrev contradicting : List CandidateVerification
contradicting = reading EvidenceStance.contradicts ∷ []

abbrev verified_fact : PolicyDecision
verified_fact =
    weigh fact (classify_risk fact) (dimensions (classify_risk fact) (some official) supporting [])
      supporting []

abbrev rejected_fact : PolicyDecision
rejected_fact =
    weigh fact (classify_risk fact)
      (dimensions (classify_risk fact) (some official) contradicting []) [] contradicting

fact_verified : evaluate fact TrustTier.t2 (some official) supporting true [] ≡ ok verified_fact
unfolding evaluate judge
fact_verified = refl

fact_rejected : evaluate fact TrustTier.t2 (some official) contradicting true [] ≡ ok rejected_fact
unfolding evaluate judge
fact_rejected = refl

verdict_verified : verified_fact.verdict ≡ QualityVerdict.verified
unfolding weigh
verdict_verified = refl

verdict_rejected : rejected_fact.verdict ≡ QualityVerdict.rejected
unfolding weigh
verdict_rejected = refl

verified_justified_example :
    (◌≡◌ {A = List String} [] [])
    × (true ≡ true)
    × Justification EvidenceStance.supports EvidenceStance.contradicts
        (candidates_of (some official))
        supporting
    × (version_ok fact (decisive EvidenceStance.supports (candidates_of (some official)) supporting)
        ≡ true)
    × (freshness_ok fact
          (decisive EvidenceStance.supports (candidates_of (some official)) supporting)
        ≡ true)
verified_justified_example =
    verified_justified fact TrustTier.t2 (some official) supporting true [] fact_verified
      verdict_verified

rejected_justified_example :
    (◌≡◌ {A = List String} [] [])
    × (true ≡ true)
    × Justification EvidenceStance.contradicts EvidenceStance.supports
        (candidates_of (some official))
        contradicting
rejected_justified_example =
    rejected_justified fact TrustTier.t2 (some official) contradicting true [] fact_rejected
      verdict_rejected

evaluate-IsConsistent_example : IsConsistent verified_fact
evaluate-IsConsistent_example =
    evaluate-IsConsistent fact TrustTier.t2 (some official) supporting true [] fact_verified

evaluate_total_example :
    ((d : PolicyDecision) × (evaluate fact TrustTier.t2 (some official) supporting true [] ≡ ok d)
      × (Mismatch fact TrustTier.t2 (some official) supporting true [] → ⊥))
    ⊎ ((evaluate fact TrustTier.t2 (some official) supporting true []
          ≡ raised evidence_pack_integrity)
        × Mismatch fact TrustTier.t2 (some official) supporting true [])
evaluate_total_example = evaluate_total fact TrustTier.t2 (some official) supporting true []

-- A pack of other candidates raises.
mismatch_test :
    evaluate fact TrustTier.t2 (some (record official { candidates = [] })) supporting true []
    ≡ raised evidence_pack_integrity
unfolding evaluate judge
mismatch_test = refl

dimensions-AreMetrics_example :
    AreMetrics (dimensions (classify_risk fact) (some official) supporting [])
dimensions-AreMetrics_example =
    dimensions-AreMetrics (classify_risk fact) (some official) supporting [] (omega arith, tt)

same_spelling : lower (strip (codes " Medical ")) ≡ lower (strip (codes "medical"))
unfolding lower strip lstrip rstrip
same_spelling = refl

risk_ignores_spelling_example :
    (classify_risk (in_domain fact (codes " Medical "))
      ≡ classify_risk (in_domain fact (codes "medical")))
    × (classify_risk (in_domain fact (codes " Medical "))
        ≡ classify_risk (in_domain fact (lower (strip (codes " Medical ")))))
risk_ignores_spelling_example =
    risk_ignores_spelling fact (codes " Medical ") (codes "medical") same_spelling

-- ===== src/Governance/Quality/Justification.antt =====
-- The evidence behind a decision of `QualityPolicyEngine.evaluate` (governance/quality.py).
use trustworthy_personal_kno.Prelude.{
  ℕ, ◌≤◌, ◌<◌, ◌≡◌, ◌≢◌, refl, Bool, true, false, ◌⊎◌, inl, inr, String, Option, none, some, List,
  [], ◌∷◌, max, arith, leb, leb→le, ◌==◌, string_eq, Member, ok, Bool-cases, and_split, ap, ◌∙◌,
  sym, all, bind_inv, ok_injective, raised-ne-ok, ==→eq, filter-Member,
}
use trustworthy_personal_kno.Domain.Enums.Source.{TrustTier, trust_tier_eq}
use trustworthy_personal_kno.Domain.Enums.Claim.{
  claim_status_eq, EvidenceStance, evidence_stance_eq, QualityVerdict, RiskLevel, risk_level_eq,
}
use trustworthy_personal_kno.Domain.Transitions.Claim.{claim_status_machine}
use trustworthy_personal_kno.Governance.Contracts.{
  ClaimDraft, EvidencePackCandidate, EvidencePack, CandidateVerification, QualityDimensions,
}
use trustworthy_personal_kno.Governance.RiskLevels.{classify_risk}
use trustworthy_personal_kno.Governance.Metrics.{
  max_coverage, by_id, tier_of_candidate, candidates_of, dimensions,
}
use trustworthy_personal_kno.Governance.Quality.{
  PolicyDecision, evaluate, judge, weigh, decisive, is_decisive, is_readable, trusted_results,
  same_ids, verified_ids, candidate_ids, insufficient, version_ok, freshness_ok,
}

-- A result that the policy counts: it has the stance, a relevance of at least 0.8, and names a
-- candidate of tier T1 or T2 in the pack.
pub record Counts (stance : EvidenceStance) (candidates : List EvidencePackCandidate)
    (item : CandidateVerification) : Type 0 where
  pub has_stance : item.stance ≡ stance
  pub relevant : 800000 ≤ item.relevance
  pub candidate : EvidencePackCandidate
  pub named : by_id candidates item.candidate_id ≡ some candidate
  pub trusted : (candidate.trust_tier ≡ TrustTier.t1) ⊎ (candidate.trust_tier ≡ TrustTier.t2)

tier_split :
    (o : Option EvidencePackCandidate)
    → tier_of_candidate o ≡ true
    → (c : EvidencePackCandidate) × (o ≡ some c)
      × ((c.trust_tier ≡ TrustTier.t1) ⊎ (c.trust_tier ≡ TrustTier.t2))
tier_split none h = cc
tier_split (some c) h = (c, refl, ground arith)

decisive-Counts :
    (stance : EvidenceStance) (candidates : List EvidencePackCandidate)
    (item : CandidateVerification)
    → is_decisive stance candidates item ≡ true
    → Counts stance candidates item
decisive-Counts stance candidates item h =
    let (front, relevant) = and_split _ (leb 800000 item.relevance) h in
    let (same, trusted) = and_split (item.stance == stance) _ front in
    let (c, e, t) = tier_split (by_id candidates item.candidate_id) trusted in
    record {
      has_stance = ==→eq item.stance stance same;
      relevant = leb→le _ _ relevant;
      candidate = c;
      named = e;
      trusted = t;
    }

max_other : (bound a b : ℕ) → bound ≤ max a b → leb bound a ≡ false → bound ≤ b
max_other bound a b h e = ground arith

-- The largest coverage of a list is that of a member.
max_coverage-Member :
    (bound : ℕ) (items : List CandidateVerification)
    → 0 < bound
    → bound ≤ max_coverage items
    → (item : CandidateVerification) × Member item items × (bound ≤ item.evidence_coverage)
max_coverage-Member bound [] pos h = absurd (omega arith)
max_coverage-Member bound (item ∷ items) pos h =
    elim (Bool-cases (leb bound item.evidence_coverage)) [
      | inl here ↦ (item, inl refl, leb→le _ _ here)
      | inr there ↦
          let (x, m, b) =
            max_coverage-Member bound items pos
              (max_other bound item.evidence_coverage (max_coverage items) h there) in
          (x, inr m, b)
    ]

-- The evidence behind a decision: a counted result of the stance covers at least 0.95 of the claim,
-- and no result of the opposite stance counts.
pub record Justification (stance opposite : EvidenceStance)
    (candidates : List EvidencePackCandidate) (results : List CandidateVerification) : Type 0 where
  pub item : CandidateVerification
  pub stands : Member item results
  pub counts : Counts stance candidates item
  pub covers : 950000 ≤ item.evidence_coverage
  pub unopposed : decisive opposite candidates results ≡ []

justify :
    (stance opposite : EvidenceStance) (candidates : List EvidencePackCandidate)
    (results : List CandidateVerification)
    → 950000 ≤ max_coverage (decisive stance candidates results)
    → decisive opposite candidates results ≡ []
    → Justification stance opposite candidates results
justify stance opposite candidates results covers unopposed =
    let (item, m, b) =
      max_coverage-Member 950000 (decisive stance candidates results) (omega arith) covers in
    let (stands, passes) = filter-Member (is_decisive stance candidates) results item m in
    record {
      item = item;
      stands = stands;
      counts = decisive-Counts stance candidates item passes;
      covers = b;
      unopposed = unopposed;
    }

weigh_verified :
    (claim : ClaimDraft) (risk : RiskLevel) (dims : QualityDimensions)
    (support contradiction : List CandidateVerification)
    → (weigh claim risk dims support contradiction).verdict ≡ QualityVerdict.verified
    → (950000 ≤ max_coverage support)
      × (contradiction ≡ [])
      × (version_ok claim support ≡ true)
      × (freshness_ok claim support ≡ true)
unfolding weigh
weigh_verified claim risk dims [] [] h = ground arith
weigh_verified claim risk dims [] (c ∷ cs) h = ground arith
weigh_verified claim risk dims (s ∷ ss) [] h = ground arith
weigh_verified claim risk dims (s ∷ ss) (c ∷ cs) h = ground arith

weigh_rejected :
    (claim : ClaimDraft) (risk : RiskLevel) (dims : QualityDimensions)
    (support contradiction : List CandidateVerification)
    → (weigh claim risk dims support contradiction).verdict ≡ QualityVerdict.rejected
    → (950000 ≤ max_coverage contradiction) × (support ≡ [])
unfolding weigh
weigh_rejected claim risk dims [] [] h = ground arith
weigh_rejected claim risk dims [] (c ∷ cs) h = ground arith
weigh_rejected claim risk dims (s ∷ ss) [] h = ground arith
weigh_rejected claim risk dims (s ∷ ss) (c ∷ cs) h = ground arith

trusted_inv :
    (stance : EvidenceStance) (candidates : List EvidencePackCandidate)
    (results counted : List CandidateVerification)
    → trusted_results stance candidates results ≡ ok counted
    → counted ≡ decisive stance candidates results
unfolding trusted_results
trusted_inv stance candidates results counted h =
    elim (Bool-cases (all (is_readable stance candidates) results)) [
      | inl b ↦ sym (ok_injective (rw b at h))
      | inr b ↦ absurd (raised-ne-ok (rw b at h))
    ]

-- A decision that rests on evidence is the one that the two lists of counted results give.
pub judge_inv :
    (claim : ClaimDraft) (risk : RiskLevel) (dims : QualityDimensions) (pack : Option EvidencePack)
    (results : List CandidateVerification) {d : PolicyDecision}
    → judge claim risk dims pack results ≡ ok d
    → (d ≡ insufficient risk dims "EVIDENCE_MISSING")
      ⊎ (d
          ≡ weigh claim risk dims
              (decisive EvidenceStance.supports (candidates_of pack) results)
              (decisive EvidenceStance.contradicts (candidates_of pack) results))
unfolding judge
judge_inv claim risk dims none results h = ground arith
judge_inv claim risk dims (some pack) [] h = ground arith
judge_inv claim risk dims (some pack) (item ∷ items) h =
    elim (Bool-cases (same_ids (verified_ids (item ∷ items)) (candidate_ids pack.candidates))) [
      | inr e ↦ absurd (raised-ne-ok (rw e at h))
      | inl e ↦
          let (support, s, h₁) =
            bind_inv (trusted_results EvidenceStance.supports pack.candidates (item ∷ items)) _
              (rw e at h) in
          let (against, c, h₂) =
            bind_inv (trusted_results EvidenceStance.contradicts pack.candidates (item ∷ items)) _
              h₁ in
          inr (
            sym (ok_injective h₂)
            ∙ ap (λ x. weigh claim risk dims x against)
                (trusted_inv EvidenceStance.supports pack.candidates (item ∷ items) support s)
            ∙ ap
                (weigh claim risk dims
                  (decisive EvidenceStance.supports pack.candidates (item ∷ items)))
                (trusted_inv EvidenceStance.contradicts pack.candidates (item ∷ items) against c))
    ]

-- A verdict from the evidence is reached only with no safety signal and a search at hand.
evaluate_inv :
    (claim : ClaimDraft) (tier : TrustTier) (pack : Option EvidencePack)
    (results : List CandidateVerification) (search_available : Bool) (signals : List String)
    {d : PolicyDecision}
    → evaluate claim tier pack results search_available signals ≡ ok d
    → (d.verdict ≡ QualityVerdict.verified) ⊎ (d.verdict ≡ QualityVerdict.rejected)
    → (signals ≡ [])
      × (search_available ≡ true)
      × (judge claim
            (classify_risk claim)
            (dimensions (classify_risk claim) pack results signals)
            pack
            results
          ≡ ok d)
unfolding evaluate
evaluate_inv claim tier pack results avail [] h v = ground arith
evaluate_inv claim tier pack results avail (s ∷ ss) h v = ground arith

judged_verdict :
    (claim : ClaimDraft) (risk : RiskLevel) (dims : QualityDimensions) (pack : Option EvidencePack)
    (results : List CandidateVerification) {d : PolicyDecision} {v : QualityVerdict}
    → judge claim risk dims pack results ≡ ok d
    → d.verdict ≡ v
    → v ≢ QualityVerdict.insufficient
    → (weigh claim risk dims
        (decisive EvidenceStance.supports (candidates_of pack) results)
        (decisive EvidenceStance.contradicts (candidates_of pack) results)).verdict
      ≡ v
judged_verdict claim risk dims pack results {d = d} h v n =
    elim (judge_inv claim risk dims pack results h) [
      | inl e ↦ absurd (n (sym v ∙ ap (λ (x : PolicyDecision). x.verdict) e))
      | inr e ↦ sym (ap (λ (x : PolicyDecision). x.verdict) e) ∙ v
    ]

-- A claim is VERIFIED only with no safety signal, with a search at hand, on a result of a T1 or T2
-- candidate of the pack that supports it with relevance at least 0.8 and coverage at least 0.95,
-- with no such result against it, and with its version and freshness matched where it states them.
pub verified_justified :
    (claim : ClaimDraft) (tier : TrustTier) (pack : Option EvidencePack)
    (results : List CandidateVerification) (search_available : Bool) (signals : List String)
    {d : PolicyDecision}
    → evaluate claim tier pack results search_available signals ≡ ok d
    → d.verdict ≡ QualityVerdict.verified
    → (signals ≡ [])
      × (search_available ≡ true)
      × Justification EvidenceStance.supports EvidenceStance.contradicts
          (candidates_of pack)
          results
      × (version_ok claim (decisive EvidenceStance.supports (candidates_of pack) results) ≡ true)
      × (freshness_ok claim (decisive EvidenceStance.supports (candidates_of pack) results) ≡ true)
verified_justified claim tier pack results avail signals {d = d} h v =
    let risk : RiskLevel = classify_risk claim in
    let dims : QualityDimensions = dimensions risk pack results signals in
    let support : List CandidateVerification =
      decisive EvidenceStance.supports (candidates_of pack) results in
    let against : List CandidateVerification =
      decisive EvidenceStance.contradicts (candidates_of pack) results in
    let (safe, searched, judged) = evaluate_inv claim tier pack results avail signals h (inl v) in
    let (covers, unopposed, version, fresh) =
      weigh_verified claim risk dims support against
        (judged_verdict claim risk dims pack results judged v (λ e. cc)) in
    (safe, searched, justify _ _ (candidates_of pack) results covers unopposed, version, fresh)

-- A claim is REJECTED only with no safety signal, with a search at hand, on a result of a T1 or T2
-- candidate of the pack that contradicts it with relevance at least 0.8 and coverage at least 0.95,
-- and with no such result in its support.
pub rejected_justified :
    (claim : ClaimDraft) (tier : TrustTier) (pack : Option EvidencePack)
    (results : List CandidateVerification) (search_available : Bool) (signals : List String)
    {d : PolicyDecision}
    → evaluate claim tier pack results search_available signals ≡ ok d
    → d.verdict ≡ QualityVerdict.rejected
    → (signals ≡ [])
      × (search_available ≡ true)
      × Justification EvidenceStance.contradicts EvidenceStance.supports
          (candidates_of pack)
          results
rejected_justified claim tier pack results avail signals {d = d} h v =
    let risk : RiskLevel = classify_risk claim in
    let dims : QualityDimensions = dimensions risk pack results signals in
    let support : List CandidateVerification =
      decisive EvidenceStance.supports (candidates_of pack) results in
    let against : List CandidateVerification =
      decisive EvidenceStance.contradicts (candidates_of pack) results in
    let (safe, searched, judged) = evaluate_inv claim tier pack results avail signals h (inr v) in
    let (covers, unopposed) =
      weigh_rejected claim risk dims support against
        (judged_verdict claim risk dims pack results judged v (λ e. cc)) in
    (safe, searched, justify _ _ (candidates_of pack) results covers unopposed)

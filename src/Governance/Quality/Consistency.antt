-- ===== src/Governance/Quality/Consistency.antt =====
-- The decisions of `QualityPolicyEngine.evaluate` (governance/quality.py) agree with themselves.
use trustworthy_personal_kno.Prelude.{
  ◌≡◌, ◌≢◌, refl, Bool, true, false, not, ◌&&◌, ◌⊎◌, inl, inr, String, Option, List, [], ◌∷◌, arith,
  ◌==◌, string_eq, ok, Bool-cases, subst, ◌∙◌, sym, ok_injective, truthy,
}
use trustworthy_personal_kno.Domain.Enums.Source.{TrustTier, trust_tier_eq}
use trustworthy_personal_kno.Domain.Enums.Claim.{
  ClaimStatus, claim_status_eq, EvidenceStance, evidence_stance_eq, QualityVerdict, RiskLevel,
  risk_level_eq,
}
use trustworthy_personal_kno.Domain.Machine.{can_transition}
use trustworthy_personal_kno.Domain.Transitions.Claim.{claim_status_machine}
use trustworthy_personal_kno.Governance.Contracts.{
  ClaimDraft, EvidencePack, CandidateVerification, QualityDimensions,
}
use trustworthy_personal_kno.Governance.RiskLevels.{is_subjective, is_user_asserted, classify_risk}
use trustworthy_personal_kno.Governance.Metrics.{candidates_of, dimensions}
use trustworthy_personal_kno.Governance.Quality.{
  PolicyDecision, evaluate, judge, weigh, decisive, decide_as,
}
use trustworthy_personal_kno.Governance.Quality.Justification.{judge_inv}

-- A claim leaves the policy with the status that its verdict names, and that status can follow
-- PROPOSED.
abbrev pub status_of : QualityVerdict → ClaimStatus
status_of QualityVerdict.verified = ClaimStatus.verified
status_of QualityVerdict.user_asserted = ClaimStatus.user_asserted
status_of QualityVerdict.opinion = ClaimStatus.opinion
status_of QualityVerdict.insufficient = ClaimStatus.insufficient
status_of QualityVerdict.contested = ClaimStatus.contested
status_of QualityVerdict.rejected = ClaimStatus.rejected
status_of QualityVerdict.quarantined = ClaimStatus.quarantined

-- What every decision satisfies, whichever branch made it.
pub record IsConsistent (d : PolicyDecision) : Type 0 where
  pub status_matches : d.claim_status ≡ status_of d.verdict
  pub follows_proposed : can_transition ClaimStatus.proposed d.claim_status ≡ true
  pub published :
      (d.publishable ≡ false)
      ⊎ ((d.risk_level ≡ RiskLevel.low)
          × (d.review_required ≡ false)
          × ((d.verdict ≡ QualityVerdict.verified)
              ⊎ (d.verdict ≡ QualityVerdict.user_asserted)
              ⊎ (d.verdict ≡ QualityVerdict.opinion)))
  pub unreviewed :
      (d.review_required ≡ true)
      ⊎ (d.publishable ≡ true)
      ⊎ (d.verdict ≡ QualityVerdict.rejected)
      ⊎ (d.verdict ≡ QualityVerdict.quarantined)

weigh-IsConsistent :
    (claim : ClaimDraft) (risk : RiskLevel) (dims : QualityDimensions)
    (support contradiction : List CandidateVerification)
    → IsConsistent (weigh claim risk dims support contradiction)
unfolding weigh
weigh-IsConsistent claim RiskLevel.low dims support contradiction = ground arith
weigh-IsConsistent claim _ dims support contradiction = ground arith

-- A decision that is not made by the evidence.
judge-IsConsistent :
    (claim : ClaimDraft) (risk : RiskLevel) (dims : QualityDimensions) (pack : Option EvidencePack)
    (results : List CandidateVerification) {d : PolicyDecision}
    → judge claim risk dims pack results ≡ ok d
    → IsConsistent d
judge-IsConsistent claim risk dims pack results h =
    elim (judge_inv claim risk dims pack results h) [
      | inl e ↦ subst IsConsistent (sym e) (record {
        status_matches = refl;
        follows_proposed = refl;
        published = inl refl;
        unreviewed = inl refl;
      })
      | inr e ↦ subst IsConsistent (sym e) (
          weigh-IsConsistent claim risk dims
            (decisive EvidenceStance.supports (candidates_of pack) results)
            (decisive EvidenceStance.contradicts (candidates_of pack) results))
    ]

opinion-IsConsistent :
    (risk : RiskLevel) (code : String) (dims : QualityDimensions)
    → IsConsistent (
        decide_as QualityVerdict.opinion ClaimStatus.opinion risk code dims
          (not (risk == RiskLevel.low))
          (risk == RiskLevel.low))
opinion-IsConsistent RiskLevel.low code dims = ground arith
opinion-IsConsistent _ code dims = ground arith

asserted-IsConsistent :
    (risk : RiskLevel) (code : String) (dims : QualityDimensions)
    → IsConsistent (
        decide_as QualityVerdict.user_asserted ClaimStatus.user_asserted risk code dims
          (not (risk == RiskLevel.low))
          (risk == RiskLevel.low))
asserted-IsConsistent RiskLevel.low code dims = ground arith
asserted-IsConsistent _ code dims = ground arith

abbrev pub is_owned : ClaimDraft → TrustTier → Bool
is_owned claim tier =
    tier == TrustTier.t0 && is_user_asserted claim.claim_type && truthy claim.scope.owner

-- What lets `evaluate` decide without the evidence.
abbrev pub Decided : ClaimDraft → TrustTier → Bool → List String → Type 0
Decided claim tier search_available signals =
    (signals ≢ [])
    ⊎ (is_subjective claim.claim_type ≡ true)
    ⊎ (is_owned claim tier ≡ true)
    ⊎ (search_available ≡ false)

-- `evaluate` decides by itself, or with no safety signal and a search at hand by the evidence.
abbrev pub Outcome :
    ClaimDraft
    → TrustTier
    → Option EvidencePack
    → List CandidateVerification
    → Bool
    → List String
    → Type 0
Outcome claim tier pack results search_available signals =
    ((d : PolicyDecision) × (evaluate claim tier pack results search_available signals ≡ ok d)
      × IsConsistent d
      × Decided claim tier search_available signals)
    ⊎ ((signals ≡ [])
        × (search_available ≡ true)
        × (is_subjective claim.claim_type ≡ false)
        × (is_owned claim tier ≡ false)
        × (evaluate claim tier pack results search_available signals
            ≡ judge claim (classify_risk claim)
                (dimensions (classify_risk claim) pack results signals) pack results))

pub evaluate_path :
    (claim : ClaimDraft) (tier : TrustTier) (pack : Option EvidencePack)
    (results : List CandidateVerification) (search_available : Bool) (signals : List String)
    → Outcome claim tier pack results search_available signals
unfolding evaluate
evaluate_path claim tier pack results avail (s ∷ ss) = inl (_, refl, ground arith, inl (λ e. cc))
evaluate_path claim tier pack results avail [] =
    elim (Bool-cases (is_subjective claim.claim_type)) [
      | inl e ↦ rw e (
          inl (
            _,
            refl,
            opinion-IsConsistent _ _ (dimensions (classify_risk claim) pack results []),
            inr (inl refl),
          ))
      | inr e ↦ rw e (elim (Bool-cases (is_owned claim tier)) [
        | inl o ↦ rw o (
            inl (
              _,
              refl,
              asserted-IsConsistent _ _ (dimensions (classify_risk claim) pack results []),
              inr (inr (inl refl)),
            ))
        | inr o ↦ rw o (elim (Bool-cases avail) [
          | inl a ↦ rw a (inr (refl, refl, refl, refl, refl))
          | inr a ↦ rw a (inl (_, refl, ground arith, inr (inr (inr refl))))
        ])
      ])
    ]

-- Every decision, whichever branch made it: the claim's status is the one that the verdict names and
-- can follow PROPOSED; what is publishable has low risk, needs no review and is verified, asserted by
-- its owner or an opinion; and what needs no review is publishable, rejected or quarantined.
pub evaluate-IsConsistent :
    (claim : ClaimDraft) (tier : TrustTier) (pack : Option EvidencePack)
    (results : List CandidateVerification) (search_available : Bool) (signals : List String)
    {d : PolicyDecision}
    → evaluate claim tier pack results search_available signals ≡ ok d
    → IsConsistent d
evaluate-IsConsistent claim tier pack results avail signals h =
    elim (evaluate_path claim tier pack results avail signals) [
      | inl (d', e, c, by) ↦ subst IsConsistent (ok_injective (sym e ∙ h)) c
      | inr (safe, searched, free, unowned, e) ↦
          judge-IsConsistent claim _ _ pack results (sym e ∙ h)
    ]

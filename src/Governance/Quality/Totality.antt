-- ===== src/Governance/Quality/Totality.antt =====
-- When `QualityPolicyEngine.evaluate` (governance/quality.py) returns, and when it raises.
use trustworthy_personal_kno.Prelude.{
  ◌≡◌, ◌≢◌, refl, sym, ◌∙◌, Bool, true, false≢true, not, ◌&&◌, ◌||◌, ◌⊎◌, inl, inr, String, Option,
  none, some, some-injective, List, [], ◌∷◌, all, Member, All, subset, Member-contains, subset-All,
  or_else, if◌then◌else◌, arith, ◌==◌, string_eq, text_eq, ==→eq, ==-self, ok, raised, bind_ok,
  Bool-cases, and_split, truthy, subst,
}
use trustworthy_personal_kno.Domain.Enums.Source.{TrustTier, trust_tier_eq}
use trustworthy_personal_kno.Domain.Enums.Claim.{
  ClaimType, EvidenceStance, evidence_stance_eq, RiskLevel,
}
use trustworthy_personal_kno.Governance.Contracts.{
  ClaimDraft, EvidencePackCandidate, EvidencePack, CandidateVerification, QualityDimensions,
}
use trustworthy_personal_kno.Governance.RiskLevels.{is_subjective, is_user_asserted, classify_risk}
use trustworthy_personal_kno.Governance.Metrics.{by_id, dimensions}
use trustworthy_personal_kno.Governance.Quality.{
  evidence_pack_integrity, PolicyDecision, evaluate, judge, decisive, is_readable, is_some,
  trusted_results, same_ids, verified_ids, candidate_ids,
}
use trustworthy_personal_kno.Governance.Quality.Consistency.{is_owned, Decided, evaluate_path}

-- Opinions and predictions.
abbrev pub IsSubjective : ClaimType → Type 0
IsSubjective t = (t ≡ ClaimType.opinion) ⊎ (t ≡ ClaimType.prediction)

-- What an owner of the knowledge base says of themselves.
pub record IsOwned (claim : ClaimDraft) (tier : TrustTier) : Type 0 where
  pub origin : tier ≡ TrustTier.t0
  pub of_type :
      (claim.claim_type ≡ ClaimType.user_experience)
      ⊎ (claim.claim_type ≡ ClaimType.preference)
      ⊎ (claim.claim_type ≡ ClaimType.decision)
  pub owned : truthy claim.scope.owner ≡ true

-- Two lists have the same elements.
abbrev pub SameIds : List String → List String → Type 0
SameIds xs ys = All (λ x. Member x ys) xs × All (λ y. Member y xs) ys

-- The evidence is asked for, and does not match the frozen pack.
pub record Mismatch (claim : ClaimDraft) (tier : TrustTier) (pack : Option EvidencePack)
    (results : List CandidateVerification) (search_available : Bool) (signals : List String)
    : Type 0 where
  pub safe : signals ≡ []
  pub searched : search_available ≡ true
  pub objective : IsSubjective claim.claim_type → ⊥
  pub unowned : IsOwned claim tier → ⊥
  pub frozen : EvidencePack
  pub given : pack ≡ some frozen
  pub verified : results ≢ []
  pub differ : SameIds (verified_ids results) (candidate_ids frozen.candidates) → ⊥

opinion_inv : (t : ClaimType) → is_subjective t ≡ true → IsSubjective t
opinion_inv t h = ground arith

opinion_holds : (t : ClaimType) → IsSubjective t → is_subjective t ≡ true
opinion_holds t (inl e) = rw e refl
opinion_holds t (inr e) = rw e refl

asserted_inv :
    (t : ClaimType)
    → is_user_asserted t ≡ true
    → (t ≡ ClaimType.user_experience) ⊎ (t ≡ ClaimType.preference) ⊎ (t ≡ ClaimType.decision)
asserted_inv t h = ground arith

self_told_inv :
    (claim : ClaimDraft) (tier : TrustTier) → is_owned claim tier ≡ true → IsOwned claim tier
self_told_inv claim tier h =
    let (front, owner) = and_split _ (truthy claim.scope.owner) h in
    let (origin, asserted) = and_split (tier == TrustTier.t0) _ front in
    record {
      origin = ==→eq tier TrustTier.t0 origin;
      of_type = asserted_inv claim.claim_type asserted;
      owned = owner;
    }

self_told_holds :
    (claim : ClaimDraft) (tier : TrustTier) → IsOwned claim tier → is_owned claim tier ≡ true
self_told_holds claim tier o = rw (o.origin, o.owned, asserted o.of_type) refl
  where
    asserted :
        (claim.claim_type ≡ ClaimType.user_experience)
          ⊎ (claim.claim_type ≡ ClaimType.preference)
          ⊎ (claim.claim_type ≡ ClaimType.decision)
        → is_user_asserted claim.claim_type ≡ true
    asserted (inl e) = rw e refl
    asserted (inr (inl e)) = rw e refl
    asserted (inr (inr e)) = rw e refl

All-subset : (xs ys : List String) → All (λ x. Member x ys) xs → subset xs ys ≡ true
All-subset [] ys a = refl
All-subset (x ∷ xs) ys a = rw (Member-contains ys x a.0, All-subset xs ys a.1) refl

sets_inv : (xs ys : List String) → same_ids xs ys ≡ true → SameIds xs ys
sets_inv xs ys h =
    let (there, back) = and_split (subset xs ys) (subset ys xs) h in
    (subset-All xs ys there, subset-All ys xs back)

sets_hold : (xs ys : List String) → SameIds xs ys → same_ids xs ys ≡ true
sets_hold xs ys (a, b) = rw (All-subset xs ys a, All-subset ys xs b) refl

-- A subscript finds each id of the pack.
by_id-found :
    (candidates : List EvidencePackCandidate) (id : String)
    → Member id (candidate_ids candidates)
    → is_some (by_id candidates id) ≡ true
by_id-found [] id m = absurd m
by_id-found (c ∷ cs) id (inl e) = here (by_id cs id) (rw e (==-self id))
  where
    here :
        (o : Option EvidencePackCandidate)
        → (c.candidate_id == id) ≡ true
        → is_some (or_else o (if c.candidate_id == id then some c else none)) ≡ true
    here none h = rw h refl
    here (some d) h = refl
by_id-found (c ∷ cs) id (inr m) = later (by_id cs id) (by_id-found cs id m)
  where
    later :
        (o : Option EvidencePackCandidate)
        → is_some o ≡ true
        → is_some (or_else o (if c.candidate_id == id then some c else none)) ≡ true
    later none h = cc
    later (some d) h = refl

all_readable :
    (stance : EvidenceStance) (candidates : List EvidencePackCandidate)
    (items : List CandidateVerification)
    → All (λ i. Member i (candidate_ids candidates)) (verified_ids items)
    → all (is_readable stance candidates) items ≡ true
all_readable stance candidates [] a = refl
all_readable stance candidates (item ∷ items) a =
    rw (by_id-found candidates item.candidate_id a.0, all_readable stance candidates items a.1)
      (either (not (item.stance == stance)))
  where
    either : (b : Bool) → ((b || true) && true) ≡ true
    either b = ground arith

trusted_results_returns :
    (stance : EvidenceStance) (candidates : List EvidencePackCandidate)
    (items : List CandidateVerification)
    → All (λ i. Member i (candidate_ids candidates)) (verified_ids items)
    → trusted_results stance candidates items ≡ ok (decisive stance candidates items)
unfolding trusted_results
trusted_results_returns stance candidates items a = rw (all_readable stance candidates items a) refl

-- The evidence is given and does not match the frozen pack.
abbrev Differs : Option EvidencePack → List CandidateVerification → Type 0
Differs pack results =
    (p : EvidencePack) × (pack ≡ some p)
    × (results ≢ [])
    × (SameIds (verified_ids results) (candidate_ids p.candidates) → ⊥)

judge_total :
    (claim : ClaimDraft) (risk : RiskLevel) (dims : QualityDimensions) (pack : Option EvidencePack)
    (results : List CandidateVerification)
    → ((d : PolicyDecision) × (judge claim risk dims pack results ≡ ok d)
        × (Differs pack results → ⊥))
      ⊎ ((judge claim risk dims pack results ≡ raised evidence_pack_integrity)
          × Differs pack results)
unfolding judge
judge_total claim risk dims none results = inl (_, refl, λ d. cc (d.1))
judge_total claim risk dims (some pack) [] = inl (_, refl, λ d. d.2 refl)
judge_total claim risk dims (some pack) (item ∷ items) =
    elim (Bool-cases (same_ids (verified_ids (item ∷ items)) (candidate_ids pack.candidates))) [
      | inl e ↦
          let same = sets_inv (verified_ids (item ∷ items)) (candidate_ids pack.candidates) e in
          rw e (
            inl (
              _,
              bind_ok (trusted_results EvidenceStance.supports pack.candidates (item ∷ items)) _
                  (trusted_results_returns EvidenceStance.supports pack.candidates (item ∷ items)
                    same.0)
                  (bind_ok
                    (trusted_results EvidenceStance.contradicts pack.candidates (item ∷ items)) _
                    (trusted_results_returns EvidenceStance.contradicts pack.candidates
                      (item ∷ items) same.0)
                    refl),
              λ d. d.3 (
                  subst
                    (λ (q : EvidencePack).
                      SameIds (verified_ids (item ∷ items)) (candidate_ids q.candidates))
                    (some-injective _ _ d.1) same),
            ))
      | inr e ↦ inr (
        rw e refl,
        (
          pack,
          refl,
          (λ k. cc k),
          λ s.
              false≢true
                (sym e ∙ sets_hold (verified_ids (item ∷ items)) (candidate_ids pack.candidates) s),
        ),
      )
    ]

-- The policy raises exactly in one case, an integrity error: there is no safety signal, a search is at
-- hand, the claim is neither subjective nor asserted by its owner, evidence is given, and the results
-- do not name the same candidates as the frozen pack. In every other case it returns a decision, and
-- no subscript of the source fails.
pub evaluate_total :
    (claim : ClaimDraft) (tier : TrustTier) (pack : Option EvidencePack)
    (results : List CandidateVerification) (search_available : Bool) (signals : List String)
    → ((d : PolicyDecision) × (evaluate claim tier pack results search_available signals ≡ ok d)
        × (Mismatch claim tier pack results search_available signals → ⊥))
      ⊎ ((evaluate claim tier pack results search_available signals
            ≡ raised evidence_pack_integrity)
          × Mismatch claim tier pack results search_available signals)
evaluate_total claim tier pack results avail signals =
    elim (evaluate_path claim tier pack results avail signals) [
      | inl (d, e, c, by) ↦ inl (d, e, λ m. decided by m)
      | inr (safe, searched, free, unowned, e) ↦
          elim (judge_total claim (classify_risk claim)
            (dimensions (classify_risk claim) pack results signals) pack results) [
              | inl (d, j, agree) ↦
                  inl (d, e ∙ j, λ m. agree (m.frozen, m.given, m.verified, m.differ))
              | inr (j, (p, given, verified, differ)) ↦ inr (
                e ∙ j,
                record {
                  safe = safe;
                  searched = searched;
                  objective = λ s. cc (opinion_holds claim.claim_type s, free);
                  unowned = λ o. cc (self_told_holds claim tier o, unowned);
                  frozen = p;
                  given = given;
                  verified = verified;
                  differ = differ;
                },
              )
            ]
    ]
  where
    decided : Decided claim tier avail signals → Mismatch claim tier pack results avail signals → ⊥
    decided (inl s) m = s m.safe
    decided (inr (inl s)) m = m.objective (opinion_inv claim.claim_type s)
    decided (inr (inr (inl o))) m = m.unowned (self_told_inv claim tier o)
    decided (inr (inr (inr a))) m = cc (sym a ∙ m.searched)

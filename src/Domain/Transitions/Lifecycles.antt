-- ===== src/Domain/Transitions/Lifecycles.antt =====
-- Whole lives under the state machines of domain/transitions.py: how many transitions a record
-- can make, which statuses are never left, and from where a claim becomes verified.
use trustworthy_personal_kno.Prelude.{
  ℕ, ◌≤◌, ◌<◌, ◌≡◌, refl, true, List, [], ◌∷◌, arith, length, inl, ◌⊎◌,
}
use trustworthy_personal_kno.Domain.Enums.Source.{
  SourceVersionStatus, source_version_status_eq, ingestion_run_status_eq,
}
use trustworthy_personal_kno.Domain.Enums.Claim.{
  ClaimStatus, claim_status_eq, GovernanceRunStatus, governance_run_status_eq, GovernanceItemStage,
  governance_item_stage_eq,
}
use trustworthy_personal_kno.Domain.Enums.Publication.{
  CuratedVersionStatus, curated_version_status_eq, KnowledgeChangeStatus,
  knowledge_change_status_eq,
}
use trustworthy_personal_kno.Domain.Enums.Execution.{
  answer_run_status_eq, IdempotencyStatus, idempotency_status_eq,
}
use trustworthy_personal_kno.Domain.Machine.{can_transition}
use trustworthy_personal_kno.Domain.Transitions.Source.{
  source_version_status_machine, ingestion_run_status_machine,
}
use trustworthy_personal_kno.Domain.Transitions.Claim.{
  claim_status_machine, governance_run_status_machine, governance_item_stage_machine,
}
use trustworthy_personal_kno.Domain.Transitions.Publication.{
  curated_version_status_machine, knowledge_change_status_machine,
}
use trustworthy_personal_kno.Domain.Transitions.Execution.{
  answer_run_status_machine, idempotency_status_machine,
}
use trustworthy_personal_kno.Domain.Transitions.Traces.{Trace, here, next, accepted, Trace-rank}

abbrev claim_rank : ClaimStatus → ℕ
claim_rank ClaimStatus.proposed = 2
claim_rank ClaimStatus.outdated = 0
claim_rank ClaimStatus.superseded = 0
claim_rank ClaimStatus.rejected = 0
claim_rank ClaimStatus.quarantined = 0
claim_rank _ = 1

claim_falls : (s t : ClaimStatus) → can_transition s t ≡ true → claim_rank t < claim_rank s
claim_falls s t h = ground arith

abbrev change_rank : KnowledgeChangeStatus → ℕ
change_rank KnowledgeChangeStatus.received = 4
change_rank KnowledgeChangeStatus.validating = 3
change_rank KnowledgeChangeStatus.review_required = 2
change_rank KnowledgeChangeStatus.publish_intent = 1
change_rank _ = 0

change_falls :
    (s t : KnowledgeChangeStatus) → can_transition s t ≡ true → change_rank t < change_rank s
change_falls s t h = ground arith

abbrev governance_rank : GovernanceRunStatus → ℕ
governance_rank GovernanceRunStatus.planning = 4
governance_rank GovernanceRunStatus.extracting = 3
governance_rank GovernanceRunStatus.evaluating = 2
governance_rank GovernanceRunStatus.reconciling = 1
governance_rank _ = 0

governance_falls :
    (s t : GovernanceRunStatus) → can_transition s t ≡ true → governance_rank t < governance_rank s
governance_falls s t h = ground arith

abbrev item_rank : GovernanceItemStage → ℕ
item_rank GovernanceItemStage.extracted = 4
item_rank GovernanceItemStage.evidence_pending = 3
item_rank GovernanceItemStage.verifying = 2
item_rank GovernanceItemStage.deciding = 1
item_rank _ = 0

item_falls : (s t : GovernanceItemStage) → can_transition s t ≡ true → item_rank t < item_rank s
item_falls s t h = ground arith

abbrev curated_rank : CuratedVersionStatus → ℕ
curated_rank CuratedVersionStatus.draft = 5
curated_rank CuratedVersionStatus.validating = 4
curated_rank CuratedVersionStatus.staging = 3
curated_rank CuratedVersionStatus.active = 2
curated_rank CuratedVersionStatus.stale_pending_review = 1
curated_rank _ = 0

curated_falls :
    (s t : CuratedVersionStatus) → can_transition s t ≡ true → curated_rank t < curated_rank s
curated_falls s t h = ground arith

abbrev lease_rank : IdempotencyStatus → ℕ
lease_rank IdempotencyStatus.in_progress = 2
lease_rank IdempotencyStatus.unknown = 1
lease_rank _ = 0

lease_falls : (s t : IdempotencyStatus) → can_transition s t ≡ true → lease_rank t < lease_rank s
lease_falls s t h = ground arith

claim_rank_le : (s : ClaimStatus) → claim_rank s ≤ 2
claim_rank_le s = ground arith

lease_rank_le : (s : IdempotencyStatus) → lease_rank s ≤ 2
lease_rank_le s = ground arith

change_rank_le : (s : KnowledgeChangeStatus) → change_rank s ≤ 4
change_rank_le s = ground arith

governance_rank_le : (s : GovernanceRunStatus) → governance_rank s ≤ 4
governance_rank_le s = ground arith

item_rank_le : (s : GovernanceItemStage) → item_rank s ≤ 4
item_rank_le s = ground arith

curated_rank_le : (s : CuratedVersionStatus) → curated_rank s ≤ 5
curated_rank_le s = ground arith

verified_step :
    (s t : ClaimStatus) {ts : List ClaimStatus}
    → can_transition s t ≡ true
    → ((t ≡ ClaimStatus.verified) × (ts ≡ []))
      ⊎ ((t ≡ ClaimStatus.proposed) × (ts ≡ ClaimStatus.verified ∷ []))
    → ((s ≡ ClaimStatus.verified) × (t ∷ ts ≡ []))
      ⊎ ((s ≡ ClaimStatus.proposed) × (t ∷ ts ≡ ClaimStatus.verified ∷ []))
verified_step s t h e = ground arith

dead_claim :
    {s u : ClaimStatus} {ts : List ClaimStatus}
    → Trace s ts u
    → s ≡ ClaimStatus.quarantined
    → u ≡ ClaimStatus.quarantined
dead_claim here e = e
dead_claim (next {s = s} {t = t} h rest) e = ground arith

dead_change :
    {s u : KnowledgeChangeStatus} {ts : List KnowledgeChangeStatus}
    → Trace s ts u
    → s ≡ KnowledgeChangeStatus.quarantined
    → u ≡ KnowledgeChangeStatus.quarantined
dead_change here e = e
dead_change (next {s = s} {t = t} h rest) e = ground arith

dead_curated :
    {s u : CuratedVersionStatus} {ts : List CuratedVersionStatus}
    → Trace s ts u
    → s ≡ CuratedVersionStatus.quarantined
    → u ≡ CuratedVersionStatus.quarantined
dead_curated here e = e
dead_curated (next {s = s} {t = t} h rest) e = ground arith

dead_governance :
    {s u : GovernanceRunStatus} {ts : List GovernanceRunStatus}
    → Trace s ts u
    → s ≡ GovernanceRunStatus.quarantined
    → u ≡ GovernanceRunStatus.quarantined
dead_governance here e = e
dead_governance (next {s = s} {t = t} h rest) e = ground arith

source_step :
    (s t : SourceVersionStatus)
    → can_transition s t ≡ true
    → (s ≡ SourceVersionStatus.quarantined) ⊎ (s ≡ SourceVersionStatus.deleted)
    → (t ≡ SourceVersionStatus.quarantined) ⊎ (t ≡ SourceVersionStatus.deleted)
source_step s t h e = ground arith

dead_source :
    {s u : SourceVersionStatus} {ts : List SourceVersionStatus}
    → Trace s ts u
    → (s ≡ SourceVersionStatus.quarantined) ⊎ (s ≡ SourceVersionStatus.deleted)
    → (u ≡ SourceVersionStatus.quarantined) ⊎ (u ≡ SourceVersionStatus.deleted)
dead_source here e = e
dead_source (next {s = s} {t = t} h rest) e = dead_source rest (source_step s t (accepted s t h) e)

-- Whatever statuses they start from, a claim and an idempotency record change their status at most
-- twice, a knowledge change, a governance run and a governance item at most four times, and a
-- curated version at most five times.
pub lifecycles_bounded :
    {c c' : ClaimStatus} {cs : List ClaimStatus} {l l' : IdempotencyStatus}
    {ls : List IdempotencyStatus} {k k' : KnowledgeChangeStatus} {ks : List KnowledgeChangeStatus}
    {g g' : GovernanceRunStatus} {gs : List GovernanceRunStatus} {i i' : GovernanceItemStage}
    {is : List GovernanceItemStage} {v v' : CuratedVersionStatus} {vs : List CuratedVersionStatus}
    → Trace c cs c'
    → Trace l ls l'
    → Trace k ks k'
    → Trace g gs g'
    → Trace i is i'
    → Trace v vs v'
    → (length cs ≤ 2)
      × (length ls ≤ 2)
      × (length ks ≤ 4)
      × (length gs ≤ 4)
      × (length is ≤ 4)
      × (length vs ≤ 5)
lifecycles_bounded {c = c} {l = l} {k = k} {g = g} {i = i} {v = v} tc tl tk tg ti tv = (
  omega (arith, Trace-rank claim_rank claim_falls tc, claim_rank_le c),
  omega (arith, Trace-rank lease_rank lease_falls tl, lease_rank_le l),
  omega (arith, Trace-rank change_rank change_falls tk, change_rank_le k),
  omega (arith, Trace-rank governance_rank governance_falls tg, governance_rank_le g),
  omega (arith, Trace-rank item_rank item_falls ti, item_rank_le i),
  omega (arith, Trace-rank curated_rank curated_falls tv, curated_rank_le v),
)

-- A claim is VERIFIED only where it began so, or directly after PROPOSED: no claim that was
-- contested, insufficient, rejected, quarantined, outdated or superseded becomes VERIFIED.
pub verified_from_proposed :
    {s u : ClaimStatus} {ts : List ClaimStatus}
    → Trace s ts u
    → u ≡ ClaimStatus.verified
    → ((s ≡ ClaimStatus.verified) × (ts ≡ []))
      ⊎ ((s ≡ ClaimStatus.proposed) × (ts ≡ ClaimStatus.verified ∷ []))
verified_from_proposed here e = inl (e, refl)
verified_from_proposed (next {s = s} {t = t} h rest) e =
    verified_step s t (accepted s t h) (verified_from_proposed rest e)

-- Nothing that is quarantined is released: a quarantined claim, knowledge change, curated version
-- or governance run changes no more, and a quarantined source version can only be deleted.
pub quarantine_final :
    {c : ClaimStatus} {cs : List ClaimStatus} {k : KnowledgeChangeStatus}
    {ks : List KnowledgeChangeStatus} {v : CuratedVersionStatus} {vs : List CuratedVersionStatus}
    {g : GovernanceRunStatus} {gs : List GovernanceRunStatus} {o : SourceVersionStatus}
    {os : List SourceVersionStatus}
    → Trace ClaimStatus.quarantined cs c
    → Trace KnowledgeChangeStatus.quarantined ks k
    → Trace CuratedVersionStatus.quarantined vs v
    → Trace GovernanceRunStatus.quarantined gs g
    → Trace SourceVersionStatus.quarantined os o
    → (c ≡ ClaimStatus.quarantined)
      × (k ≡ KnowledgeChangeStatus.quarantined)
      × (v ≡ CuratedVersionStatus.quarantined)
      × (g ≡ GovernanceRunStatus.quarantined)
      × ((o ≡ SourceVersionStatus.quarantined) ⊎ (o ≡ SourceVersionStatus.deleted))
quarantine_final tc tk tv tg to = (
  dead_claim tc refl,
  dead_change tk refl,
  dead_curated tv refl,
  dead_governance tg refl,
  dead_source to (inl refl),
)

-- ===== src/Domain/Transitions/Examples.antt =====
-- Series of statuses (domain/transitions.py).
use trustworthy_personal_kno.Prelude.{◌≡◌, ◌≢◌, refl, [], ◌∷◌, ◌≤◌, length, All, ◌⊎◌}
use trustworthy_personal_kno.Domain.Enums.Source.{SourceVersionStatus, source_version_status_eq}
use trustworthy_personal_kno.Domain.Enums.Claim.{
  ClaimStatus, claim_status_eq, GovernanceRunStatus, governance_run_status_eq, GovernanceItemStage,
  governance_item_stage_eq,
}
use trustworthy_personal_kno.Domain.Enums.Publication.{
  KnowledgeChangeStatus, knowledge_change_status_eq, CuratedVersionStatus,
  curated_version_status_eq, PublicationRunStatus, publication_run_status_eq,
}
use trustworthy_personal_kno.Domain.Enums.Execution.{IdempotencyStatus, idempotency_status_eq}
use trustworthy_personal_kno.Domain.Transitions.Source.{source_version_status_machine}
use trustworthy_personal_kno.Domain.Transitions.Claim.{
  claim_status_machine, governance_run_status_machine, governance_item_stage_machine,
}
use trustworthy_personal_kno.Domain.Transitions.Publication.{
  knowledge_change_status_machine, curated_version_status_machine, publication_run_status_machine,
}
use trustworthy_personal_kno.Domain.Transitions.Execution.{idempotency_status_machine}
use trustworthy_personal_kno.Domain.Transitions.Traces.{Trace, here, next}
use trustworthy_personal_kno.Domain.Transitions.Lifecycles.{
  lifecycles_bounded, verified_from_proposed, quarantine_final,
}
use trustworthy_personal_kno.Domain.Transitions.Pipeline.{
  ahead, way_out, publication_in_order, publication_resumable,
}

claim_life :
    Trace ClaimStatus.proposed
      (ClaimStatus.verified ∷ ClaimStatus.outdated ∷ [])
      ClaimStatus.outdated
claim_life = next refl (next refl here)

claim_verified : Trace ClaimStatus.proposed (ClaimStatus.verified ∷ []) ClaimStatus.verified
claim_verified = next refl here

change_life : Trace KnowledgeChangeStatus.quarantined [] KnowledgeChangeStatus.quarantined
change_life = here

claim_held : Trace ClaimStatus.quarantined [] ClaimStatus.quarantined
claim_held = here

curated_held : Trace CuratedVersionStatus.quarantined [] CuratedVersionStatus.quarantined
curated_held = here

governance_held : Trace GovernanceRunStatus.quarantined [] GovernanceRunStatus.quarantined
governance_held = here

source_deleted :
    Trace SourceVersionStatus.quarantined
      (SourceVersionStatus.deleted ∷ [])
      SourceVersionStatus.deleted
source_deleted = next refl here

publication_life :
    Trace PublicationRunStatus.planning
      (ahead PublicationRunStatus.planning)
      PublicationRunStatus.completed
publication_life =
    next refl (next refl (next refl (next refl (next refl (next refl (next refl here))))))

lifecycles_bounded_example :
    (length (ClaimStatus.verified ∷ ClaimStatus.outdated ∷ []) ≤ 2)
    × (length {A = IdempotencyStatus} [] ≤ 2)
    × (length {A = KnowledgeChangeStatus} [] ≤ 4)
    × (length {A = GovernanceRunStatus} [] ≤ 4)
    × (length {A = GovernanceItemStage} [] ≤ 4)
    × (length {A = CuratedVersionStatus} [] ≤ 5)
lifecycles_bounded_example =
    lifecycles_bounded claim_life (here {s = IdempotencyStatus.in_progress}) change_life
      governance_held (here {s = GovernanceItemStage.extracted}) curated_held

verified_from_proposed_example :
    ((ClaimStatus.proposed ≡ ClaimStatus.verified) × (ClaimStatus.verified ∷ [] ≡ []))
    ⊎ ((ClaimStatus.proposed ≡ ClaimStatus.proposed)
        × (ClaimStatus.verified ∷ [] ≡ ClaimStatus.verified ∷ []))
verified_from_proposed_example = verified_from_proposed claim_verified refl

quarantine_final_example :
    (ClaimStatus.quarantined ≡ ClaimStatus.quarantined)
    × (KnowledgeChangeStatus.quarantined ≡ KnowledgeChangeStatus.quarantined)
    × (CuratedVersionStatus.quarantined ≡ CuratedVersionStatus.quarantined)
    × (GovernanceRunStatus.quarantined ≡ GovernanceRunStatus.quarantined)
    × ((SourceVersionStatus.deleted ≡ SourceVersionStatus.quarantined)
        ⊎ (SourceVersionStatus.deleted ≡ SourceVersionStatus.deleted))
quarantine_final_example =
    quarantine_final claim_held change_life curated_held governance_held source_deleted

never_failed : All (λ t. t ≢ PublicationRunStatus.failed) (ahead PublicationRunStatus.planning)
never_failed = (λ e. cc, (λ e. cc, (λ e. cc, (λ e. cc, (λ e. cc, (λ e. cc, (λ e. cc, tt)))))))

publication_in_order_example :
    ahead PublicationRunStatus.planning ≡ ahead PublicationRunStatus.planning
publication_in_order_example = publication_in_order publication_life never_failed

publication_resumable_example :
    Trace PublicationRunStatus.failed
      (way_out PublicationRunStatus.failed)
      PublicationRunStatus.completed
publication_resumable_example = publication_resumable PublicationRunStatus.failed

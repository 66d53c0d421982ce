-- ===== src/Domain/Transitions/Claim.antt =====
-- domain/transitions.py: the rows of `_TRANSITIONS` for the enumerations of Domain/Enums/Claim.antt.
-- A status that has no key in the source has the empty set.
use trustworthy_personal_kno.Prelude.{List, [], ◌∷◌}
use trustworthy_personal_kno.Domain.Enums.Claim.{
  ClaimStatus, GovernanceRunStatus, GovernanceItemStage, ReviewRequestStatus,
}
use trustworthy_personal_kno.Domain.Machine.{StateMachine}

abbrev pub claim_status_next : ClaimStatus → List ClaimStatus
claim_status_next ClaimStatus.proposed =
    ClaimStatus.verified ∷ ClaimStatus.user_asserted ∷ ClaimStatus.opinion
    ∷ ClaimStatus.insufficient ∷ ClaimStatus.contested ∷ ClaimStatus.rejected
    ∷ ClaimStatus.quarantined ∷ []
claim_status_next ClaimStatus.verified = ClaimStatus.outdated ∷ ClaimStatus.superseded ∷ []
claim_status_next ClaimStatus.user_asserted = ClaimStatus.outdated ∷ ClaimStatus.superseded ∷ []
claim_status_next ClaimStatus.opinion = ClaimStatus.outdated ∷ ClaimStatus.superseded ∷ []
claim_status_next ClaimStatus.insufficient = ClaimStatus.outdated ∷ ClaimStatus.superseded ∷ []
claim_status_next ClaimStatus.contested = ClaimStatus.outdated ∷ ClaimStatus.superseded ∷ []
claim_status_next ClaimStatus.outdated = []
claim_status_next ClaimStatus.rejected = []
claim_status_next ClaimStatus.superseded = []
claim_status_next ClaimStatus.quarantined = []

instance abbrev pub claim_status_machine : StateMachine ClaimStatus
claim_status_machine = record { next = claim_status_next }

abbrev pub governance_run_status_next : GovernanceRunStatus → List GovernanceRunStatus
governance_run_status_next GovernanceRunStatus.planning =
    GovernanceRunStatus.extracting ∷ GovernanceRunStatus.failed ∷ GovernanceRunStatus.quarantined
    ∷ []
governance_run_status_next GovernanceRunStatus.extracting =
    GovernanceRunStatus.evaluating ∷ GovernanceRunStatus.failed ∷ GovernanceRunStatus.quarantined
    ∷ []
governance_run_status_next GovernanceRunStatus.evaluating =
    GovernanceRunStatus.reconciling ∷ GovernanceRunStatus.failed ∷ GovernanceRunStatus.quarantined
    ∷ []
governance_run_status_next GovernanceRunStatus.reconciling =
    GovernanceRunStatus.completed ∷ GovernanceRunStatus.partial_failed ∷ GovernanceRunStatus.failed
    ∷ GovernanceRunStatus.quarantined ∷ []
governance_run_status_next GovernanceRunStatus.completed = []
governance_run_status_next GovernanceRunStatus.partial_failed = []
governance_run_status_next GovernanceRunStatus.failed = []
governance_run_status_next GovernanceRunStatus.quarantined = []

instance abbrev pub governance_run_status_machine : StateMachine GovernanceRunStatus
governance_run_status_machine = record { next = governance_run_status_next }

abbrev pub governance_item_stage_next : GovernanceItemStage → List GovernanceItemStage
governance_item_stage_next GovernanceItemStage.extracted =
    GovernanceItemStage.evidence_pending ∷ GovernanceItemStage.deciding ∷ GovernanceItemStage.failed
    ∷ []
governance_item_stage_next GovernanceItemStage.evidence_pending =
    GovernanceItemStage.verifying ∷ GovernanceItemStage.failed ∷ []
governance_item_stage_next GovernanceItemStage.verifying =
    GovernanceItemStage.deciding ∷ GovernanceItemStage.failed ∷ []
governance_item_stage_next GovernanceItemStage.deciding =
    GovernanceItemStage.decided ∷ GovernanceItemStage.review_required ∷ GovernanceItemStage.failed
    ∷ []
governance_item_stage_next GovernanceItemStage.decided = []
governance_item_stage_next GovernanceItemStage.review_required = []
governance_item_stage_next GovernanceItemStage.failed = []

instance abbrev pub governance_item_stage_machine : StateMachine GovernanceItemStage
governance_item_stage_machine = record { next = governance_item_stage_next }

abbrev pub review_request_status_next : ReviewRequestStatus → List ReviewRequestStatus
review_request_status_next ReviewRequestStatus.pending =
    ReviewRequestStatus.approved ∷ ReviewRequestStatus.rejected ∷ ReviewRequestStatus.cancelled ∷ []
review_request_status_next ReviewRequestStatus.approved = []
review_request_status_next ReviewRequestStatus.rejected = []
review_request_status_next ReviewRequestStatus.cancelled = []

instance abbrev pub review_request_status_machine : StateMachine ReviewRequestStatus
review_request_status_machine = record { next = review_request_status_next }

-- ===== src/Domain/Transitions/Publication.antt =====
-- domain/transitions.py: the rows of `_TRANSITIONS` for the enumerations of Domain/Enums/Publication.antt.
-- A status that has no key in the source has the empty set.
use trustworthy_personal_kno.Prelude.{List, [], ◌∷◌}
use trustworthy_personal_kno.Domain.Enums.Publication.{
  CuratedVersionStatus, IndexGenerationStatus, IndexJobStatus, PublicationRunStatus,
  KnowledgeChangeStatus,
}
use trustworthy_personal_kno.Domain.Machine.{StateMachine}

abbrev pub curated_version_status_next : CuratedVersionStatus → List CuratedVersionStatus
curated_version_status_next CuratedVersionStatus.draft = CuratedVersionStatus.validating ∷ []
curated_version_status_next CuratedVersionStatus.validating =
    CuratedVersionStatus.staging ∷ CuratedVersionStatus.quarantined ∷ CuratedVersionStatus.failed
    ∷ []
curated_version_status_next CuratedVersionStatus.staging =
    CuratedVersionStatus.active ∷ CuratedVersionStatus.quarantined ∷ CuratedVersionStatus.failed
    ∷ []
curated_version_status_next CuratedVersionStatus.active =
    CuratedVersionStatus.stale_pending_review ∷ CuratedVersionStatus.superseded ∷ []
curated_version_status_next CuratedVersionStatus.stale_pending_review =
    CuratedVersionStatus.superseded ∷ []
curated_version_status_next CuratedVersionStatus.superseded = []
curated_version_status_next CuratedVersionStatus.quarantined = []
curated_version_status_next CuratedVersionStatus.failed = []

instance abbrev pub curated_version_status_machine : StateMachine CuratedVersionStatus
curated_version_status_machine = record { next = curated_version_status_next }

abbrev pub index_generation_status_next : IndexGenerationStatus → List IndexGenerationStatus
index_generation_status_next IndexGenerationStatus.staging =
    IndexGenerationStatus.active ∷ IndexGenerationStatus.failed ∷ []
index_generation_status_next IndexGenerationStatus.active = IndexGenerationStatus.superseded ∷ []
index_generation_status_next IndexGenerationStatus.superseded = IndexGenerationStatus.active ∷ []
index_generation_status_next IndexGenerationStatus.failed = []

instance abbrev pub index_generation_status_machine : StateMachine IndexGenerationStatus
index_generation_status_machine = record { next = index_generation_status_next }

abbrev pub index_job_status_next : IndexJobStatus → List IndexJobStatus
index_job_status_next IndexJobStatus.pending = IndexJobStatus.indexing ∷ []
index_job_status_next IndexJobStatus.indexing = IndexJobStatus.indexed ∷ IndexJobStatus.failed ∷ []
index_job_status_next IndexJobStatus.indexed = IndexJobStatus.active_indexed ∷ []
index_job_status_next IndexJobStatus.active_indexed = IndexJobStatus.delete_pending ∷ []
index_job_status_next IndexJobStatus.failed = IndexJobStatus.pending ∷ []
index_job_status_next IndexJobStatus.delete_pending =
    IndexJobStatus.deleted ∷ IndexJobStatus.active_indexed ∷ []
index_job_status_next IndexJobStatus.deleted = IndexJobStatus.pending ∷ []

instance abbrev pub index_job_status_machine : StateMachine IndexJobStatus
index_job_status_machine = record { next = index_job_status_next }

abbrev pub publication_run_status_next : PublicationRunStatus → List PublicationRunStatus
publication_run_status_next PublicationRunStatus.planning =
    PublicationRunStatus.curating ∷ PublicationRunStatus.failed ∷ []
publication_run_status_next PublicationRunStatus.curating =
    PublicationRunStatus.vault_staged ∷ PublicationRunStatus.failed ∷ []
publication_run_status_next PublicationRunStatus.vault_staged =
    PublicationRunStatus.indexing ∷ PublicationRunStatus.failed ∷ []
publication_run_status_next PublicationRunStatus.indexing =
    PublicationRunStatus.index_verified ∷ PublicationRunStatus.failed ∷ []
publication_run_status_next PublicationRunStatus.index_verified =
    PublicationRunStatus.vault_published ∷ PublicationRunStatus.failed ∷ []
publication_run_status_next PublicationRunStatus.vault_published =
    PublicationRunStatus.activating ∷ PublicationRunStatus.failed ∷ []
publication_run_status_next PublicationRunStatus.activating =
    PublicationRunStatus.completed ∷ PublicationRunStatus.failed ∷ []
publication_run_status_next PublicationRunStatus.completed = []
publication_run_status_next PublicationRunStatus.failed =
    PublicationRunStatus.curating ∷ PublicationRunStatus.vault_staged
    ∷ PublicationRunStatus.indexing ∷ PublicationRunStatus.index_verified
    ∷ PublicationRunStatus.vault_published ∷ PublicationRunStatus.activating ∷ []

instance abbrev pub publication_run_status_machine : StateMachine PublicationRunStatus
publication_run_status_machine = record { next = publication_run_status_next }

abbrev pub knowledge_change_status_next : KnowledgeChangeStatus → List KnowledgeChangeStatus
knowledge_change_status_next KnowledgeChangeStatus.received =
    KnowledgeChangeStatus.validating ∷ KnowledgeChangeStatus.failed
    ∷ KnowledgeChangeStatus.quarantined ∷ []
knowledge_change_status_next KnowledgeChangeStatus.validating =
    KnowledgeChangeStatus.publish_intent ∷ KnowledgeChangeStatus.review_required
    ∷ KnowledgeChangeStatus.failed ∷ KnowledgeChangeStatus.quarantined ∷ []
knowledge_change_status_next KnowledgeChangeStatus.publish_intent =
    KnowledgeChangeStatus.active ∷ KnowledgeChangeStatus.failed ∷ KnowledgeChangeStatus.quarantined
    ∷ []
knowledge_change_status_next KnowledgeChangeStatus.active = []
knowledge_change_status_next KnowledgeChangeStatus.failed = []
knowledge_change_status_next KnowledgeChangeStatus.quarantined = []
knowledge_change_status_next KnowledgeChangeStatus.review_required =
    KnowledgeChangeStatus.publish_intent ∷ KnowledgeChangeStatus.failed
    ∷ KnowledgeChangeStatus.quarantined ∷ []

instance abbrev pub knowledge_change_status_machine : StateMachine KnowledgeChangeStatus
knowledge_change_status_machine = record { next = knowledge_change_status_next }

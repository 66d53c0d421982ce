-- ===== src/Domain/Enums/Publication.antt =====
-- domain/enums.py: the string enumerations of publication and indexing. Members are told apart by their
-- position in the class.
use trustworthy_personal_kno.Prelude.{ℕ, ◌≡◌, arith, Eq, eq_of_code}

pub data CuratedVersionStatus : Type 0 where
  draft validating staging active stale_pending_review superseded : CuratedVersionStatus
  quarantined failed : CuratedVersionStatus

abbrev pub curated_version_status_code : CuratedVersionStatus → ℕ
curated_version_status_code draft = 0
curated_version_status_code validating = 1
curated_version_status_code staging = 2
curated_version_status_code active = 3
curated_version_status_code stale_pending_review = 4
curated_version_status_code superseded = 5
curated_version_status_code quarantined = 6
curated_version_status_code failed = 7

pub curated_version_status_code-injective :
    (a b : CuratedVersionStatus)
    → curated_version_status_code a ≡ curated_version_status_code b
    → a ≡ b
curated_version_status_code-injective a b h = ground arith

instance abbrev pub curated_version_status_eq : Eq CuratedVersionStatus
curated_version_status_eq =
    eq_of_code curated_version_status_code curated_version_status_code-injective

pub data IndexGenerationStatus : Type 0 where
  staging active superseded failed : IndexGenerationStatus

abbrev pub index_generation_status_code : IndexGenerationStatus → ℕ
index_generation_status_code staging = 0
index_generation_status_code active = 1
index_generation_status_code superseded = 2
index_generation_status_code failed = 3

pub index_generation_status_code-injective :
    (a b : IndexGenerationStatus)
    → index_generation_status_code a ≡ index_generation_status_code b
    → a ≡ b
index_generation_status_code-injective a b h = ground arith

instance abbrev pub index_generation_status_eq : Eq IndexGenerationStatus
index_generation_status_eq =
    eq_of_code index_generation_status_code index_generation_status_code-injective

pub data IndexJobStatus : Type 0 where
  pending indexing indexed active_indexed failed delete_pending deleted : IndexJobStatus

abbrev pub index_job_status_code : IndexJobStatus → ℕ
index_job_status_code pending = 0
index_job_status_code indexing = 1
index_job_status_code indexed = 2
index_job_status_code active_indexed = 3
index_job_status_code failed = 4
index_job_status_code delete_pending = 5
index_job_status_code deleted = 6

pub index_job_status_code-injective :
    (a b : IndexJobStatus) → index_job_status_code a ≡ index_job_status_code b → a ≡ b
index_job_status_code-injective a b h = ground arith

instance abbrev pub index_job_status_eq : Eq IndexJobStatus
index_job_status_eq = eq_of_code index_job_status_code index_job_status_code-injective

pub data PublicationRunStatus : Type 0 where
  planning curating vault_staged indexing index_verified vault_published : PublicationRunStatus
  activating completed failed : PublicationRunStatus

abbrev pub publication_run_status_code : PublicationRunStatus → ℕ
publication_run_status_code planning = 0
publication_run_status_code curating = 1
publication_run_status_code vault_staged = 2
publication_run_status_code indexing = 3
publication_run_status_code index_verified = 4
publication_run_status_code vault_published = 5
publication_run_status_code activating = 6
publication_run_status_code completed = 7
publication_run_status_code failed = 8

pub publication_run_status_code-injective :
    (a b : PublicationRunStatus)
    → publication_run_status_code a ≡ publication_run_status_code b
    → a ≡ b
publication_run_status_code-injective a b h = ground arith

instance abbrev pub publication_run_status_eq : Eq PublicationRunStatus
publication_run_status_eq =
    eq_of_code publication_run_status_code publication_run_status_code-injective

pub data KnowledgeChangeStatus : Type 0 where
  received validating publish_intent active failed quarantined : KnowledgeChangeStatus
  review_required : KnowledgeChangeStatus

abbrev pub knowledge_change_status_code : KnowledgeChangeStatus → ℕ
knowledge_change_status_code received = 0
knowledge_change_status_code validating = 1
knowledge_change_status_code publish_intent = 2
knowledge_change_status_code active = 3
knowledge_change_status_code failed = 4
knowledge_change_status_code quarantined = 5
knowledge_change_status_code review_required = 6

pub knowledge_change_status_code-injective :
    (a b : KnowledgeChangeStatus)
    → knowledge_change_status_code a ≡ knowledge_change_status_code b
    → a ≡ b
knowledge_change_status_code-injective a b h = ground arith

instance abbrev pub knowledge_change_status_eq : Eq KnowledgeChangeStatus
knowledge_change_status_eq =
    eq_of_code knowledge_change_status_code knowledge_change_status_code-injective

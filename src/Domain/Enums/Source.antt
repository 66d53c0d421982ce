-- ===== src/Domain/Enums/Source.antt =====
-- domain/enums.py: the string enumerations of sources and ingestion. Members are told apart by their
-- position in the class.
use trustworthy_personal_kno.Prelude.{ℕ, ◌≡◌, arith, Eq, eq_of_code}

pub data SourceVersionStatus : Type 0 where
  captured parsed ready parse_failed quarantined deleted : SourceVersionStatus

abbrev pub source_version_status_code : SourceVersionStatus → ℕ
source_version_status_code captured = 0
source_version_status_code parsed = 1
source_version_status_code ready = 2
source_version_status_code parse_failed = 3
source_version_status_code quarantined = 4
source_version_status_code deleted = 5

pub source_version_status_code-injective :
    (a b : SourceVersionStatus)
    → source_version_status_code a ≡ source_version_status_code b
    → a ≡ b
source_version_status_code-injective a b h = ground arith

instance abbrev pub source_version_status_eq : Eq SourceVersionStatus
source_version_status_eq =
    eq_of_code source_version_status_code source_version_status_code-injective

pub data TrustTier : Type 0 where
  t0 t1 t2 t3 t4 t5 : TrustTier

abbrev pub trust_tier_code : TrustTier → ℕ
trust_tier_code t0 = 0
trust_tier_code t1 = 1
trust_tier_code t2 = 2
trust_tier_code t3 = 3
trust_tier_code t4 = 4
trust_tier_code t5 = 5

pub trust_tier_code-injective : (a b : TrustTier) → trust_tier_code a ≡ trust_tier_code b → a ≡ b
trust_tier_code-injective a b h = ground arith

instance abbrev pub trust_tier_eq : Eq TrustTier
trust_tier_eq = eq_of_code trust_tier_code trust_tier_code-injective

pub data Sensitivity : Type 0 where
  private restricted public : Sensitivity

abbrev pub sensitivity_code : Sensitivity → ℕ
sensitivity_code private = 0
sensitivity_code restricted = 1
sensitivity_code public = 2

pub sensitivity_code-injective :
    (a b : Sensitivity) → sensitivity_code a ≡ sensitivity_code b → a ≡ b
sensitivity_code-injective a b h = ground arith

instance abbrev pub sensitivity_eq : Eq Sensitivity
sensitivity_eq = eq_of_code sensitivity_code sensitivity_code-injective

pub data IngestionRunStatus : Type 0 where
  planning applying completed partial_failed failed abandoned : IngestionRunStatus

abbrev pub ingestion_run_status_code : IngestionRunStatus → ℕ
ingestion_run_status_code planning = 0
ingestion_run_status_code applying = 1
ingestion_run_status_code completed = 2
ingestion_run_status_code partial_failed = 3
ingestion_run_status_code failed = 4
ingestion_run_status_code abandoned = 5

pub ingestion_run_status_code-injective :
    (a b : IngestionRunStatus) → ingestion_run_status_code a ≡ ingestion_run_status_code b → a ≡ b
ingestion_run_status_code-injective a b h = ground arith

instance abbrev pub ingestion_run_status_eq : Eq IngestionRunStatus
ingestion_run_status_eq = eq_of_code ingestion_run_status_code ingestion_run_status_code-injective

pub data IngestionItemStatus : Type 0 where
  pending applying succeeded skipped quarantined failed : IngestionItemStatus

abbrev pub ingestion_item_status_code : IngestionItemStatus → ℕ
ingestion_item_status_code pending = 0
ingestion_item_status_code applying = 1
ingestion_item_status_code succeeded = 2
ingestion_item_status_code skipped = 3
ingestion_item_status_code quarantined = 4
ingestion_item_status_code failed = 5

pub ingestion_item_status_code-injective :
    (a b : IngestionItemStatus)
    → ingestion_item_status_code a ≡ ingestion_item_status_code b
    → a ≡ b
ingestion_item_status_code-injective a b h = ground arith

instance abbrev pub ingestion_item_status_eq : Eq IngestionItemStatus
ingestion_item_status_eq =
    eq_of_code ingestion_item_status_code ingestion_item_status_code-injective

pub data IngestionAction : Type 0 where
  created updated moved deleted unchanged : IngestionAction

abbrev pub ingestion_action_code : IngestionAction → ℕ
ingestion_action_code created = 0
ingestion_action_code updated = 1
ingestion_action_code moved = 2
ingestion_action_code deleted = 3
ingestion_action_code unchanged = 4

pub ingestion_action_code-injective :
    (a b : IngestionAction) → ingestion_action_code a ≡ ingestion_action_code b → a ≡ b
ingestion_action_code-injective a b h = ground arith

instance abbrev pub ingestion_action_eq : Eq IngestionAction
ingestion_action_eq = eq_of_code ingestion_action_code ingestion_action_code-injective

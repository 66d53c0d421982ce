-- ===== src/Domain/Enums/Claim.antt =====
-- domain/enums.py: the string enumerations of claims, evidence and governance. Members are told apart by their
-- position in the class.
use trustworthy_personal_kno.Prelude.{ℕ, ◌≡◌, arith, Eq, eq_of_code}

pub data ClaimType : Type 0 where
  fact definition procedure user_experience preference decision prediction : ClaimType
  code_behavior opinion : ClaimType

abbrev pub claim_type_code : ClaimType → ℕ
claim_type_code fact = 0
claim_type_code definition = 1
claim_type_code procedure = 2
claim_type_code user_experience = 3
claim_type_code preference = 4
claim_type_code decision = 5
claim_type_code prediction = 6
claim_type_code code_behavior = 7
claim_type_code opinion = 8

pub claim_type_code-injective : (a b : ClaimType) → claim_type_code a ≡ claim_type_code b → a ≡ b
claim_type_code-injective a b h = ground arith

instance abbrev pub claim_type_eq : Eq ClaimType
claim_type_eq = eq_of_code claim_type_code claim_type_code-injective

pub data ClaimStatus : Type 0 where
  proposed verified user_asserted opinion insufficient contested outdated rejected : ClaimStatus
  superseded quarantined : ClaimStatus

abbrev pub claim_status_code : ClaimStatus → ℕ
claim_status_code proposed = 0
claim_status_code verified = 1
claim_status_code user_asserted = 2
claim_status_code opinion = 3
claim_status_code insufficient = 4
claim_status_code contested = 5
claim_status_code outdated = 6
claim_status_code rejected = 7
claim_status_code superseded = 8
claim_status_code quarantined = 9

pub claim_status_code-injective :
    (a b : ClaimStatus) → claim_status_code a ≡ claim_status_code b → a ≡ b
claim_status_code-injective a b h = ground arith

instance abbrev pub claim_status_eq : Eq ClaimStatus
claim_status_eq = eq_of_code claim_status_code claim_status_code-injective

pub data EvidenceStance : Type 0 where
  supports contradicts neutral : EvidenceStance

abbrev pub evidence_stance_code : EvidenceStance → ℕ
evidence_stance_code supports = 0
evidence_stance_code contradicts = 1
evidence_stance_code neutral = 2

pub evidence_stance_code-injective :
    (a b : EvidenceStance) → evidence_stance_code a ≡ evidence_stance_code b → a ≡ b
evidence_stance_code-injective a b h = ground arith

instance abbrev pub evidence_stance_eq : Eq EvidenceStance
evidence_stance_eq = eq_of_code evidence_stance_code evidence_stance_code-injective

pub data QualityVerdict : Type 0 where
  verified user_asserted opinion insufficient contested rejected quarantined : QualityVerdict

abbrev pub quality_verdict_code : QualityVerdict → ℕ
quality_verdict_code verified = 0
quality_verdict_code user_asserted = 1
quality_verdict_code opinion = 2
quality_verdict_code insufficient = 3
quality_verdict_code contested = 4
quality_verdict_code rejected = 5
quality_verdict_code quarantined = 6

pub quality_verdict_code-injective :
    (a b : QualityVerdict) → quality_verdict_code a ≡ quality_verdict_code b → a ≡ b
quality_verdict_code-injective a b h = ground arith

instance abbrev pub quality_verdict_eq : Eq QualityVerdict
quality_verdict_eq = eq_of_code quality_verdict_code quality_verdict_code-injective

pub data RiskLevel : Type 0 where
  low medium high : RiskLevel

abbrev pub risk_level_code : RiskLevel → ℕ
risk_level_code low = 0
risk_level_code medium = 1
risk_level_code high = 2

pub risk_level_code-injective : (a b : RiskLevel) → risk_level_code a ≡ risk_level_code b → a ≡ b
risk_level_code-injective a b h = ground arith

instance abbrev pub risk_level_eq : Eq RiskLevel
risk_level_eq = eq_of_code risk_level_code risk_level_code-injective

pub data GovernanceRunStatus : Type 0 where
  planning extracting evaluating reconciling completed partial_failed : GovernanceRunStatus
  failed quarantined : GovernanceRunStatus

abbrev pub governance_run_status_code : GovernanceRunStatus → ℕ
governance_run_status_code planning = 0
governance_run_status_code extracting = 1
governance_run_status_code evaluating = 2
governance_run_status_code reconciling = 3
governance_run_status_code completed = 4
governance_run_status_code partial_failed = 5
governance_run_status_code failed = 6
governance_run_status_code quarantined = 7

pub governance_run_status_code-injective :
    (a b : GovernanceRunStatus)
    → governance_run_status_code a ≡ governance_run_status_code b
    → a ≡ b
governance_run_status_code-injective a b h = ground arith

instance abbrev pub governance_run_status_eq : Eq GovernanceRunStatus
governance_run_status_eq =
    eq_of_code governance_run_status_code governance_run_status_code-injective

pub data GovernanceItemStage : Type 0 where
  extracted evidence_pending verifying deciding decided review_required : GovernanceItemStage
  failed : GovernanceItemStage

abbrev pub governance_item_stage_code : GovernanceItemStage → ℕ
governance_item_stage_code extracted = 0
governance_item_stage_code evidence_pending = 1
governance_item_stage_code verifying = 2
governance_item_stage_code deciding = 3
governance_item_stage_code decided = 4
governance_item_stage_code review_required = 5
governance_item_stage_code failed = 6

pub governance_item_stage_code-injective :
    (a b : GovernanceItemStage)
    → governance_item_stage_code a ≡ governance_item_stage_code b
    → a ≡ b
governance_item_stage_code-injective a b h = ground arith

instance abbrev pub governance_item_stage_eq : Eq GovernanceItemStage
governance_item_stage_eq =
    eq_of_code governance_item_stage_code governance_item_stage_code-injective

pub data ReviewRequestStatus : Type 0 where
  pending approved rejected cancelled : ReviewRequestStatus

abbrev pub review_request_status_code : ReviewRequestStatus → ℕ
review_request_status_code pending = 0
review_request_status_code approved = 1
review_request_status_code rejected = 2
review_request_status_code cancelled = 3

pub review_request_status_code-injective :
    (a b : ReviewRequestStatus)
    → review_request_status_code a ≡ review_request_status_code b
    → a ≡ b
review_request_status_code-injective a b h = ground arith

instance abbrev pub review_request_status_eq : Eq ReviewRequestStatus
review_request_status_eq =
    eq_of_code review_request_status_code review_request_status_code-injective

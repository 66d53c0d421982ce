-- ===== src/Domain/Transitions/Source.antt =====
-- domain/transitions.py: the rows of `_TRANSITIONS` for the enumerations of Domain/Enums/Source.antt.
-- A status that has no key in the source has the empty set.
use trustworthy_personal_kno.Prelude.{List, [], ◌∷◌}
use trustworthy_personal_kno.Domain.Enums.Source.{
  SourceVersionStatus, IngestionRunStatus, IngestionItemStatus,
}
use trustworthy_personal_kno.Domain.Machine.{StateMachine}

abbrev pub source_version_status_next : SourceVersionStatus → List SourceVersionStatus
source_version_status_next SourceVersionStatus.captured =
    SourceVersionStatus.parsed ∷ SourceVersionStatus.parse_failed ∷ SourceVersionStatus.quarantined
    ∷ SourceVersionStatus.deleted ∷ []
source_version_status_next SourceVersionStatus.parsed =
    SourceVersionStatus.ready ∷ SourceVersionStatus.parse_failed ∷ SourceVersionStatus.quarantined
    ∷ SourceVersionStatus.deleted ∷ []
source_version_status_next SourceVersionStatus.ready = SourceVersionStatus.deleted ∷ []
source_version_status_next SourceVersionStatus.parse_failed =
    SourceVersionStatus.parsed ∷ SourceVersionStatus.quarantined ∷ SourceVersionStatus.deleted ∷ []
source_version_status_next SourceVersionStatus.quarantined = SourceVersionStatus.deleted ∷ []
source_version_status_next SourceVersionStatus.deleted = []

instance abbrev pub source_version_status_machine : StateMachine SourceVersionStatus
source_version_status_machine = record { next = source_version_status_next }

abbrev pub ingestion_run_status_next : IngestionRunStatus → List IngestionRunStatus
ingestion_run_status_next IngestionRunStatus.planning =
    IngestionRunStatus.applying ∷ IngestionRunStatus.failed ∷ IngestionRunStatus.abandoned ∷ []
ingestion_run_status_next IngestionRunStatus.applying =
    IngestionRunStatus.completed ∷ IngestionRunStatus.partial_failed ∷ IngestionRunStatus.failed
    ∷ IngestionRunStatus.abandoned ∷ []
ingestion_run_status_next IngestionRunStatus.completed = []
ingestion_run_status_next IngestionRunStatus.partial_failed = []
ingestion_run_status_next IngestionRunStatus.failed = []
ingestion_run_status_next IngestionRunStatus.abandoned = []

instance abbrev pub ingestion_run_status_machine : StateMachine IngestionRunStatus
ingestion_run_status_machine = record { next = ingestion_run_status_next }

abbrev pub ingestion_item_status_next : IngestionItemStatus → List IngestionItemStatus
ingestion_item_status_next IngestionItemStatus.pending = IngestionItemStatus.applying ∷ []
ingestion_item_status_next IngestionItemStatus.applying =
    IngestionItemStatus.succeeded ∷ IngestionItemStatus.skipped ∷ IngestionItemStatus.quarantined
    ∷ IngestionItemStatus.failed ∷ []
ingestion_item_status_next IngestionItemStatus.succeeded = []
ingestion_item_status_next IngestionItemStatus.skipped = []
ingestion_item_status_next IngestionItemStatus.quarantined = []
ingestion_item_status_next IngestionItemStatus.failed = IngestionItemStatus.pending ∷ []

instance abbrev pub ingestion_item_status_machine : StateMachine IngestionItemStatus
ingestion_item_status_machine = record { next = ingestion_item_status_next }

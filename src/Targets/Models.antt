-- ===== src/Targets/Models.antt =====
-- database_targets/models.py and registry.py: the eight target databases, their contract, and the
-- ingestion job. The texts of the steps are not modelled.
use bhiv_masterdb_ingestion.Prelude.{ℕ, Bool, true, false, Option, List, [], ◌∷◌, Key}
use bhiv_masterdb_ingestion.Prelude.Text.{Text, codes}

pub data TargetDatabase : Type 0 where
  vector_db graph_db metadata_db document_db time_series_db relational_db archive_db analytics_db :
      TargetDatabase

pub data IngestionFormat : Type 0 where
  csv json xlsx pdf txt image : IngestionFormat

pub data IngestionJobStatus : Type 0 where
  persisted rejected partial_persistence : IngestionJobStatus

pub record DatabaseCapability : Type 0 where
  pub key : TargetDatabase
  pub display_name : Text
  pub description : Text
  pub accepted_formats : List IngestionFormat
  pub required_role : Text

abbrev pub all_formats : List IngestionFormat
all_formats = csv ∷ json ∷ xlsx ∷ pdf ∷ txt ∷ image ∷ []

abbrev capability : TargetDatabase → Text → Text → List IngestionFormat → Text → DatabaseCapability
capability key display_name description accepted_formats required_role = record {
  key = key;
  display_name = display_name;
  description = description;
  accepted_formats = accepted_formats;
  required_role = required_role;
}

-- `DATABASE_REGISTRY`
unfoldable pub database_registry : TargetDatabase → DatabaseCapability
database_registry vector_db =
    capability vector_db (codes "VectorDB") (codes "Embeddings, semantic search.") (json ∷ csv ∷ [])
      (codes "ingest:vectordb")
database_registry graph_db =
    capability graph_db (codes "GraphDB") (codes "Knowledge graph, relationships.")
      (json ∷ csv ∷ []) (codes "ingest:graphdb")
database_registry metadata_db =
    capability metadata_db (codes "MetadataDB") (codes "Dataset registry, metadata.") all_formats
      (codes "ingest:metadatadb")
database_registry document_db =
    capability document_db (codes "DocumentDB") (codes "Documents, unstructured data.")
      (pdf ∷ txt ∷ image ∷ json ∷ []) (codes "ingest:documentdb")
database_registry time_series_db =
    capability time_series_db (codes "TimeSeriesDB") (codes "Sensor, telemetry, time-series data.")
      (csv ∷ json ∷ []) (codes "ingest:timeseriesdb")
database_registry relational_db =
    capability relational_db (codes "RelationalDB") (codes "Structured, tabular data.")
      (csv ∷ xlsx ∷ json ∷ []) (codes "ingest:relationaldb")
database_registry archive_db =
    capability archive_db (codes "ArchiveDB") (codes "Long-term storage, cold data.") all_formats
      (codes "ingest:archivedb")
database_registry analytics_db =
    capability analytics_db (codes "AnalyticsDB") (codes "Aggregated, analytical datasets.")
      (csv ∷ json ∷ xlsx ∷ []) (codes "ingest:analyticsdb")

abbrev pub same_database : TargetDatabase → TargetDatabase → Bool
same_database vector_db vector_db = true
same_database graph_db graph_db = true
same_database metadata_db metadata_db = true
same_database document_db document_db = true
same_database time_series_db time_series_db = true
same_database relational_db relational_db = true
same_database archive_db archive_db = true
same_database analytics_db analytics_db = true
same_database _ _ = false

abbrev pub same_format : IngestionFormat → IngestionFormat → Bool
same_format csv csv = true
same_format json json = true
same_format xlsx xlsx = true
same_format pdf pdf = true
same_format txt txt = true
same_format image image = true
same_format _ _ = false

pub data StepName : Type 0 where
  rbac_check format_check certification_gate persistence routed upload_lifecycle_transition :
      StepName

pub record IngestJobStep : Type 0 where
  pub step : StepName
  pub passed : Bool
  pub at : Key

-- Why a job was not, or not wholly, carried out.
pub data Reason : Type 0 where
  not_authorized format_not_supported not_certified persistence_failed upload_transition_failed :
      Reason

-- The caller's metadata: the two entries that the code reads, the others as a key, and the two that it
-- adds.
pub record Metadata : Type 0 where
  pub idempotency_key : Option Key
  pub trace_id : Option Text
  pub others : Key
  pub target_reference : Option Key
  pub records_persisted : Option ℕ

-- `report["state"]`
pub data CertificationState : Type 0 where
  certified other_state : CertificationState

-- The entries of a certification report that the router reads.
pub record CertificationReport : Type 0 where
  pub state : CertificationState
  pub eligible_for_masterdb : Bool
  pub integrity_score : Option Key

pub record IngestJob : Type 0 where
  pub job_id : Key
  pub trace_id : Text
  pub idempotency_key : Option Key
  pub dataset_id : Key
  pub target_database : TargetDatabase
  pub source_format : IngestionFormat
  pub package_id : Option Key
  pub actor : Key
  pub roles : List Text
  pub status : IngestionJobStatus
  pub certification_state : Option CertificationState
  pub integrity_score : Option Key
  pub steps : List IngestJobStep
  pub rejection_reason : Option Reason
  pub metadata : Option Metadata
  pub submitted_at : Key
  pub completed_at : Key

pub record IdempotencyRecord : Type 0 where
  pub job_id : Key
  pub dataset_id : Key
  pub target_database : TargetDatabase
  pub status : IngestionJobStatus
  pub completed_at : Key

-- What `persist_target_dataset` writes.
pub record TargetDataset : Type 0 where
  pub target_database : TargetDatabase
  pub dataset_id : Key
  pub record_count : ℕ
  pub source_format : IngestionFormat
  pub records : List Key

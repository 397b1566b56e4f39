-- ===== src/Uploads/Models.antt =====
-- upload/models.py: the upload job and its life cycle. The texts of the steps are not modelled; the
-- maps of provenance and metadata are kept as keys.
use bhiv_masterdb_ingestion.Prelude.{ℕ, Bool, true, false, Option, List, [], ◌∷◌, Key}
use bhiv_masterdb_ingestion.Prelude.Text.{Text}

pub data UploadStatus : Type 0 where
  uploaded received validating validated rejected registered ingested available : UploadStatus

abbrev pub same_status : UploadStatus → UploadStatus → Bool
same_status uploaded uploaded = true
same_status received received = true
same_status validating validating = true
same_status validated validated = true
same_status rejected rejected = true
same_status registered registered = true
same_status ingested ingested = true
same_status available available = true
same_status _ _ = false

-- `UPLOAD_LIFECYCLE_GRAPH`
abbrev pub upload_lifecycle_graph : UploadStatus → List UploadStatus
upload_lifecycle_graph uploaded = received ∷ rejected ∷ []
upload_lifecycle_graph received = validating ∷ rejected ∷ []
upload_lifecycle_graph validating = validated ∷ rejected ∷ []
upload_lifecycle_graph validated = registered ∷ rejected ∷ []
upload_lifecycle_graph registered = ingested ∷ rejected ∷ []
upload_lifecycle_graph ingested = available ∷ rejected ∷ []
upload_lifecycle_graph available = rejected ∷ []
upload_lifecycle_graph rejected = []

pub data StepName : Type 0 where
  upload_initiated receive_validation received_step validating_step validation cancelled
        ingestion_job_linked registered_step ingested_step available_step :
      StepName

pub record UploadJobStep : Type 0 where
  pub step : StepName
  pub passed : Bool
  pub at : Key

-- Why a job was rejected.
pub data Reason : Type 0 where
  size_mismatch : Reason
  validation_errors : ℕ → Reason
  cancelled_because : Key → Reason

pub record UploadJob : Type 0 where
  pub upload_id : Key
  pub trace_id : Text
  pub filename : Text
  pub content_type : Text
  pub file_size : ℕ
  pub checksum_sha256 : Option Text
  pub classification : Option Key
  pub source_reference : Option Key
  pub provenance_metadata : Key
  pub schema_version : Option Key
  pub dataset_id : Option Key
  pub product_source : Option Key
  pub intended_use : Option Key
  pub actor : Key
  pub roles : List Key
  pub status : UploadStatus
  pub rejection_reason : Option Reason
  pub steps : List UploadJobStep
  pub ingestion_job_id : Option Key
  pub package_id : Option Key
  pub artifact_id : Option Key
  pub uploaded_at : Key
  pub received_at : Option Key
  pub validated_at : Option Key
  pub registered_at : Option Key
  pub ingested_at : Option Key
  pub available_at : Option Key
  pub storage_path : Option Key
  pub metadata : Key

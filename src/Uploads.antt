-- ===== src/Uploads.antt =====
-- upload/service.py and upload/store.py: the upload jobs and their staged files. The store's directory is
-- a dictionary from upload id to job, the staging area one from path to content. Where a staged file
-- goes, `Path.resolve` under the staging root, is an argument: it gives no path where the target lies
-- outside the root. The SHA-256 of a content is an argument too. Ids and clock readings are arguments.
pub mod Initiated
pub mod Changes
pub mod Follows
pub mod Operations
pub mod Complete
pub mod Listing
pub mod Checks
pub mod Models
pub mod Filename
pub mod Lifecycle
pub mod Available
mod Tests
use bhiv_masterdb_ingestion.Prelude.{
  ℕ, zero, suc, ◌+◌, Bool, true, false, not, Option, none, some, List, [], ◌∷◌, ◌++◌, Key, truthy,
  last?, length, take, is_some, ◌==◌, leb, ltb, if◌then◌else◌, ◌&&◌, ◌||◌, Result, ok, err,
}
use bhiv_masterdb_ingestion.Prelude.Dict.{Dict, get, put, remove, values}
use bhiv_masterdb_ingestion.Prelude.Text.{
  Text, codes, same_text, elem_text, lower, strip, is_empty, occurs_in,
}
use bhiv_masterdb_ingestion.Trace.{normalize_trace_id}
use bhiv_masterdb_ingestion.Uploads.Models.{
  UploadStatus, uploaded, received, validating, validated, rejected, registered, ingested,
  available, same_status, StepName, upload_initiated, receive_validation, received_step,
  validating_step, validation, cancelled, ingestion_job_linked, registered_step, ingested_step,
  available_step, UploadJobStep, Reason, size_mismatch, validation_errors, cancelled_because,
  UploadJob,
}
use bhiv_masterdb_ingestion.Uploads.Checks.{
  sanitize_filename, validate_filename, validate_content_type, validate_file_size,
}

pub data UploadError : Type 0 where
  upload_validation_error upload_state_error upload_job_not_found : UploadError

-- What the service keeps, and the limit of its environment.
pub record UploadService : Type 0 where
  pub jobs : Dict UploadJob
  pub staged : Dict (List ℕ)
  pub max_file_size_bytes : ℕ

-- The arguments of `initiate_upload`.
pub record UploadRequest : Type 0 where
  pub filename : Text
  pub content_type : Text
  pub file_size : ℕ
  pub actor : Key
  pub roles : List Key
  pub checksum_sha256 : Option Text
  pub classification : Option Key
  pub source_reference : Option Key
  pub provenance_metadata : Key
  pub schema_version : Option Key
  pub product_source : Option Key
  pub intended_use : Option Key
  pub metadata : Key
  pub trace_id : Option Text

abbrev pub step : StepName → Bool → Key → UploadJobStep
step name passed at = record { step = name; passed = passed; at = at }

abbrev pub with_step : UploadJobStep → UploadJob → UploadJob
with_step s job = record job { steps = job.steps ++ s ∷ [] }

-- `self._store.save(job)`
abbrev pub save : UploadJob → UploadService → UploadService
save job s = record s { jobs = put job.upload_id job s.jobs }

abbrev pub Answer : Type 0
Answer = Result UploadError UploadJob × UploadService

-- `self._store.save(job)`, then `return job`
abbrev pub saved : UploadJob → UploadService → Answer
saved job s = (ok job, save job s)

abbrev pub new_job : UploadRequest → Key → Text → Key → Key → UploadJob
new_job request upload_id fresh_trace path now = record {
  upload_id = upload_id;
  trace_id = normalize_trace_id request.trace_id fresh_trace;
  filename = request.filename;
  content_type = request.content_type;
  file_size = request.file_size;
  checksum_sha256 = request.checksum_sha256;
  classification = request.classification;
  source_reference = request.source_reference;
  provenance_metadata = request.provenance_metadata;
  schema_version = request.schema_version;
  dataset_id = none;
  product_source = request.product_source;
  intended_use = request.intended_use;
  actor = request.actor;
  roles = request.roles;
  status = uploaded;
  rejection_reason = none;
  steps = step upload_initiated true now ∷ [];
  ingestion_job_id = none;
  package_id = none;
  artifact_id = none;
  uploaded_at = now;
  received_at = none;
  validated_at = none;
  registered_at = none;
  ingested_at = none;
  available_at = none;
  storage_path = some path;
  metadata = request.metadata;
}

module _ (is_word : ℕ → Bool) (staging_path : Key → Text → Option Key) where
  -- `_get_staging_path` with the sanitised name, and the job that is saved.
  unfoldable pub initiate_upload : UploadService → UploadRequest → Key → Text → Key → Answer
  unfolding validate_filename validate_content_type validate_file_size sanitize_filename
  initiate_upload s request upload_id fresh_trace now =
      if not (validate_filename request.filename)
      then (err upload_validation_error, s)
      else if not (validate_content_type request.content_type)
      then (err upload_validation_error, s)
      else if not (validate_file_size s.max_file_size_bytes request.file_size)
      then (err upload_validation_error, s)
      else elim (staging_path upload_id (sanitize_filename is_word request.filename)) [
        | none ↦ (err upload_validation_error, s)
        | some path ↦ saved (new_job request upload_id fresh_trace path now) s
      ]

-- `self._store.load(upload_id)`, and the error for a missing job
abbrev pub with_job : UploadService → Key → (UploadJob → Answer) → Answer
with_job s upload_id rest = elim (get upload_id s.jobs) [
  | none ↦ (err upload_job_not_found, s)
  | some job ↦ rest job
]

abbrev pub path_of : UploadJob → Key
path_of job = elim job.storage_path [ none ↦ 0 | some p ↦ p ]

abbrev pub step_time : Option UploadJobStep → Option Key
step_time none = none
step_time (some s) = some s.at

abbrev pub refused_content : UploadJob → Key → UploadJob
refused_content job now =
    with_step (step receive_validation false now)
      (record job { status = rejected; rejection_reason = some size_mismatch })

-- `received_at` is the time of the last step before this one.
abbrev pub received_job : UploadJob → Key → UploadJob
received_job job now =
    with_step (step received_step true now)
      (record job { status = received; received_at = step_time (last? job.steps) })

unfoldable pub receive : UploadService → UploadJob → List ℕ → Key → Answer
receive s job file_content now =
    if not (same_status job.status uploaded)
    then (err upload_state_error, s)
    else if not (length file_content == job.file_size)
    then (err upload_validation_error, save (refused_content job now) s)
    else saved (received_job job now)
        (record s { staged = put (path_of job) file_content s.staged })

unfoldable pub receive_upload : UploadService → Key → List ℕ → Key → Answer
unfolding receive
receive_upload s upload_id file_content now =
    with_job s upload_id (λ job. receive s job file_content now)

abbrev error_if : Bool → ℕ
error_if true = 1
error_if false = 0

abbrev pub outcome : ℕ → Key → UploadJob → UploadJob
outcome zero later job = record job { status = validated; validated_at = some later }
outcome (suc n) later job = record job {
  status = rejected;
  rejection_reason = some (validation_errors (suc n));
}

-- The job with the two steps of the validation.
abbrev pub examined : ℕ → UploadJob → Key → Key → UploadJob
examined errors job now later =
    with_step (step validation (errors == 0) later)
      (with_step (step validating_step true now) (record job { status = validating }))

module _ (sha256_hex : List ℕ → Text) where
  -- Whether the digest of the content is the one that the job gives, if it gives one.
  unfoldable pub checksum_fits : UploadJob → List ℕ → Bool
  checksum_fits job content = elim job.checksum_sha256 [
    | none ↦ true
    | some given ↦ is_empty given || same_text (lower (sha256_hex content)) (lower given)
  ]

  -- The number of messages in `errors`.
  unfoldable pub error_count : UploadService → UploadJob → ℕ
  unfolding checksum_fits
  error_count s job = elim (get (path_of job) s.staged) [
    | none ↦ 1
    | some content ↦
        error_if (not (length content == job.file_size))
        + error_if (not (checksum_fits job content))
  ]

  unfoldable pub validate : UploadService → UploadJob → Key → Key → Answer
  unfolding error_count
  validate s job now later =
      if not (same_status job.status received)
      then (err upload_state_error, s)
      else saved (outcome (error_count s job) later (examined (error_count s job) job now later)) s

  unfoldable pub validate_upload : UploadService → Key → Key → Key → Answer
  unfolding validate
  validate_upload s upload_id now later = with_job s upload_id (λ job. validate s job now later)

unfoldable pub get_upload : UploadService → Key → Result UploadError UploadJob
get_upload s upload_id = elim (get upload_id s.jobs) [
  | none ↦ err upload_job_not_found
  | some job ↦ ok job
]

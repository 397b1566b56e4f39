-- ===== src/Uploads/Operations.antt =====
-- upload/service.py: the operations on a job after its validation.
use bhiv_masterdb_ingestion.Prelude.{Bool, true, false, not, none, some, Key, if◌then◌else◌, err}
use bhiv_masterdb_ingestion.Prelude.Dict.{remove}
use bhiv_masterdb_ingestion.Uploads.Models.{
  UploadStatus, validated, rejected, registered, ingested, available, same_status, cancelled,
  ingestion_job_linked, registered_step, ingested_step, available_step, cancelled_because,
  UploadJob,
}
use bhiv_masterdb_ingestion.Uploads.{
  upload_state_error, UploadService, step, with_step, Answer, saved, with_job,
}

abbrev pub is_terminal : UploadStatus → Bool
is_terminal available = true
is_terminal rejected = true
is_terminal _ = false

-- The staged file of the job is deleted; the directories are not modelled.
abbrev pub unstage : UploadJob → UploadService → UploadService
unstage job s = elim job.storage_path [
  | none ↦ s
  | some p ↦ record s { staged = remove p s.staged }
]

abbrev pub cancelled_job : UploadJob → Key → Key → UploadJob
cancelled_job job reason now =
    with_step (step cancelled true now)
      (record job { status = rejected; rejection_reason = some (cancelled_because reason) })

unfoldable pub cancel : UploadService → UploadJob → Key → Key → Answer
cancel s job reason now =
    if is_terminal job.status
    then (err upload_state_error, s)
    else saved (cancelled_job job reason now) (unstage job s)

unfoldable pub cancel_upload : UploadService → Key → Key → Key → Answer
unfolding cancel
cancel_upload s upload_id reason now = with_job s upload_id (λ job. cancel s job reason now)

abbrev pub linked_job : UploadJob → Key → Key → UploadJob
linked_job job ingestion_job_id now =
    with_step (step ingestion_job_linked true now)
      (record job { ingestion_job_id = some ingestion_job_id })

unfoldable pub link : UploadService → UploadJob → Key → Key → Answer
link s job ingestion_job_id now =
    if same_status job.status rejected
    then (err upload_state_error, s)
    else saved (linked_job job ingestion_job_id now) s

unfoldable pub link_ingestion_job : UploadService → Key → Key → Key → Answer
unfolding link
link_ingestion_job s upload_id ingestion_job_id now =
    with_job s upload_id (λ job. link s job ingestion_job_id now)

abbrev pub registered_job : UploadJob → Key → Key → Key → UploadJob
registered_job job dataset_id package_id now =
    with_step (step registered_step true now) (record job {
      dataset_id = some dataset_id;
      package_id = some package_id;
      status = registered;
      registered_at = some now;
    })

unfoldable pub register : UploadService → UploadJob → Key → Key → Key → Answer
register s job dataset_id package_id now =
    if not (same_status job.status validated)
    then (err upload_state_error, s)
    else saved (registered_job job dataset_id package_id now) s

unfoldable pub register_dataset : UploadService → Key → Key → Key → Key → Answer
unfolding register
register_dataset s upload_id dataset_id package_id now =
    with_job s upload_id (λ job. register s job dataset_id package_id now)

abbrev pub ingested_job : UploadJob → Key → Key → UploadJob
ingested_job job artifact_id now =
    with_step (step ingested_step true now)
      (record job { artifact_id = some artifact_id; status = ingested; ingested_at = some now })

unfoldable pub ingest : UploadService → UploadJob → Key → Key → Answer
ingest s job artifact_id now =
    if not (same_status job.status registered)
    then (err upload_state_error, s)
    else saved (ingested_job job artifact_id now) s

unfoldable pub mark_ingested : UploadService → Key → Key → Key → Answer
unfolding ingest
mark_ingested s upload_id artifact_id now =
    with_job s upload_id (λ job. ingest s job artifact_id now)

abbrev pub available_job : UploadJob → Key → UploadJob
available_job job now =
    with_step (step available_step true now)
      (record job { status = available; available_at = some now })

unfoldable pub publish : UploadService → UploadJob → Key → Answer
publish s job now =
    if not (same_status job.status ingested)
    then (err upload_state_error, s)
    else saved (available_job job now) s

unfoldable pub mark_available : UploadService → Key → Key → Answer
unfolding publish
mark_available s upload_id now = with_job s upload_id (λ job. publish s job now)

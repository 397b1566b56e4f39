-- ===== src/Uploads/Lifecycle.antt =====
-- upload/service.py against `UPLOAD_LIFECYCLE_GRAPH`: the operations, and any of them as a command.
use bhiv_masterdb_ingestion.Prelude.{
  ◌≡◌, refl, inl, inr, ℕ, Bool, Option, none, some, List, Key, ok, err, if◌then◌else◌, ◌&&◌,
  Bool-cases,
}
use bhiv_masterdb_ingestion.Prelude.Dict.{get}
use bhiv_masterdb_ingestion.Prelude.Text.{Text, is_empty}
use bhiv_masterdb_ingestion.Uploads.Models.{received, validated, same_status, UploadJob}
use bhiv_masterdb_ingestion.Uploads.{
  UploadService, UploadRequest, Answer, initiate_upload, receive, receive_upload, validate,
  validate_upload,
}
use bhiv_masterdb_ingestion.Uploads.Operations.{
  cancel, cancel_upload, link, link_ingestion_job, register, register_dataset, ingest,
  mark_ingested, publish, mark_available,
}
use bhiv_masterdb_ingestion.Uploads.Complete.{
  with_checksum, register_if_validated, or_default, complete_upload, validate_if_received,
  then_register,
}
use bhiv_masterdb_ingestion.Uploads.Follows.{
  stay, IsKeyed, Follows, Follows-refl, Follows-trans, Moves-Follows,
}
use bhiv_masterdb_ingestion.Uploads.Changes.{
  receive-Moves, validate-Moves, cancel-Moves, link-Moves, register-Moves, ingest-Moves,
  publish-Moves,
}
use bhiv_masterdb_ingestion.Uploads.Initiated.{with_job-Follows, initiate_upload-Follows}

module _ (sha256_hex : List ℕ → Text) where
  pub validate_upload-Follows :
      (s : UploadService) (id now later : Key)
      → IsKeyed s
      → Follows s (validate_upload sha256_hex s id now later).1
  unfolding validate_upload
  validate_upload-Follows s id now later h =
      with_job-Follows s id (λ job. validate sha256_hex s job now later) h
        (λ job found. Moves-Follows s _ h (validate-Moves s job found sha256_hex now later))

  pub register_dataset-Follows :
      (s : UploadService) (id dataset pack now : Key)
      → IsKeyed s
      → Follows s (register_dataset s id dataset pack now).1
  unfolding register_dataset
  register_dataset-Follows s id dataset pack now h =
      with_job-Follows s id (λ job. register s job dataset pack now) h
        (λ job found. Moves-Follows s _ h (register-Moves s job found dataset pack now))

  with_checksum-Follows :
      (s : UploadService) (job : UploadJob) (checksum : Option Text)
      → IsKeyed s
      → get job.upload_id s.jobs ≡ some job
      → Follows s (with_checksum checksum job s).1
  with_checksum-Follows s job none h found = Follows-refl s s refl h
  with_checksum-Follows s job (some c) h found = elim (Bool-cases (is_empty c)) [
    | inl absent ↦ rw (absent, if◌then◌else◌) (Follows-refl s s refl h)
    | inr given ↦
        rw (given, if◌then◌else◌)
          (Moves-Follows s _ h
            (inr (job, record job { checksum_sha256 = some c }, found, refl, refl, stay)))
  ]

  validate_if_received-Follows :
      (s : UploadService) (id : Key) (job : UploadJob) (trigger : Bool) (now later : Key)
      → IsKeyed s
      → Follows s (validate_if_received sha256_hex s id job trigger now later).1
  unfolding validate_if_received
  validate_if_received-Follows s id job trigger now later h =
      elim (Bool-cases (same_status job.status received && trigger)) [
        | inl go ↦ rw (go, if◌then◌else◌) (validate_upload-Follows s id now later h)
        | inr skip ↦ rw (skip, if◌then◌else◌) (Follows-refl s s refl h)
      ]

  then_register-Follows :
      (answer : Answer) (id default_dataset fresh_package now : Key)
      → IsKeyed answer.1
      → Follows answer.1 (then_register answer id default_dataset fresh_package now).1
  unfolding then_register register_if_validated
  then_register-Follows (err e, s) id default_dataset fresh_package now h = Follows-refl s s refl h
  then_register-Follows (ok job, s) id default_dataset fresh_package now h =
      elim (Bool-cases (same_status job.status validated)) [
        | inl go ↦
            rw (go, if◌then◌else◌)
              (register_dataset-Follows s id (or_default job.dataset_id default_dataset)
                (or_default job.package_id fresh_package) now h)
        | inr skip ↦ rw (skip, if◌then◌else◌) (Follows-refl s s refl h)
      ]

  complete_upload-Follows :
      (s : UploadService) (id : Key) (checksum : Option Text) (trigger : Bool)
      (default_dataset fresh_package now later after : Key)
      → IsKeyed s
      → Follows s
          (complete_upload sha256_hex s id checksum trigger default_dataset fresh_package now later
            after).1
  unfolding complete_upload
  complete_upload-Follows s id checksum trigger default_dataset fresh_package now later after h =
      with_job-Follows s id
        (λ job.
          then_register
            (validate_if_received sha256_hex (with_checksum checksum job s).1 id
              (with_checksum checksum job s).0 trigger now later)
            id default_dataset fresh_package after)
        h
        (λ job found.
          let given = with_checksum checksum job s in
          let first = with_checksum-Follows s job checksum h found in
          let second =
            validate_if_received-Follows given.1 id given.0 trigger now later first.keyed in
          let third =
            then_register-Follows
              (validate_if_received sha256_hex given.1 id given.0 trigger now later) id
              default_dataset fresh_package after second.keyed in
          Follows-trans first (Follows-trans second third))

pub mark_ingested-Follows :
    (s : UploadService) (id artifact now : Key)
    → IsKeyed s
    → Follows s (mark_ingested s id artifact now).1
unfolding mark_ingested
mark_ingested-Follows s id artifact now h =
    with_job-Follows s id (λ job. ingest s job artifact now) h
      (λ job found. Moves-Follows s _ h (ingest-Moves s job found artifact now))

pub mark_available-Follows :
    (s : UploadService) (id now : Key) → IsKeyed s → Follows s (mark_available s id now).1
unfolding mark_available
mark_available-Follows s id now h =
    with_job-Follows s id (λ job. publish s job now) h
      (λ job found. Moves-Follows s _ h (publish-Moves s job found now))

pub link_ingestion_job-Follows :
    (s : UploadService) (id job_id now : Key)
    → IsKeyed s
    → Follows s (link_ingestion_job s id job_id now).1
unfolding link_ingestion_job
link_ingestion_job-Follows s id job_id now h =
    with_job-Follows s id (λ j. link s j job_id now) h
      (λ j found. Moves-Follows s _ h (link-Moves s j found job_id now))

-- The operations of the service, with the ids, digests and clock readings that a call uses.
pub data Command : Type 0 where
  initiating : UploadRequest → Key → Text → Key → Command
  receiving : Key → List ℕ → Key → Command
  validating_upload : Key → Key → Key → Command
  cancelling linking ingesting : Key → Key → Key → Command
  registering : Key → Key → Key → Key → Command
  publishing : Key → Key → Command
  completing : Key → Option Text → Bool → Key → Key → Key → Key → Key → Command

abbrev pub run :
    (ℕ → Bool)
    → (Key → Text → Option Key)
    → (List ℕ → Text)
    → UploadService
    → Command
    → UploadService
run is_word staging_path sha256_hex s (initiating request id fresh_trace now) =
    (initiate_upload is_word staging_path s request id fresh_trace now).1
run is_word staging_path sha256_hex s (receiving id content now) =
    (receive_upload s id content now).1
run is_word staging_path sha256_hex s (validating_upload id now later) =
    (validate_upload sha256_hex s id now later).1
run is_word staging_path sha256_hex s (cancelling id reason now) = (cancel_upload s id reason now).1
run is_word staging_path sha256_hex s (linking id job now) = (link_ingestion_job s id job now).1
run is_word staging_path sha256_hex s (ingesting id artifact now) =
    (mark_ingested s id artifact now).1
run is_word staging_path sha256_hex s (registering id dataset pack now) =
    (register_dataset s id dataset pack now).1
run is_word staging_path sha256_hex s (publishing id now) = (mark_available s id now).1
run is_word staging_path sha256_hex s
      (completing id checksum trigger dataset pack now later after) =
    (complete_upload sha256_hex s id checksum trigger dataset pack now later after).1

-- An initiation draws an id that no job has.
abbrev pub IsFresh : UploadService → Command → Type 0
IsFresh s (initiating request id fresh_trace now) = get id s.jobs ≡ none
IsFresh s _ = Unit

-- Every operation, refused or not, keeps each job under its id, and the status that a job has after it
-- is one that `UPLOAD_LIFECYCLE_GRAPH` leads to from the status before, if each job was kept under its
-- id before and an initiation draws a new id.
pub run-Follows :
    (is_word : ℕ → Bool) (staging_path : Key → Text → Option Key) (sha256_hex : List ℕ → Text)
    (s : UploadService) (c : Command)
    → IsKeyed s
    → IsFresh s c
    → Follows s (run is_word staging_path sha256_hex s c)
unfolding receive_upload cancel_upload
run-Follows is_word staging_path sha256_hex s (initiating request id fresh_trace now) h fresh =
    initiate_upload-Follows is_word staging_path s request id fresh_trace now h fresh
run-Follows is_word staging_path sha256_hex s (receiving id content now) h fresh =
    with_job-Follows s id (λ job. receive s job content now) h
      (λ job found. Moves-Follows s _ h (receive-Moves s job found content now))
run-Follows is_word staging_path sha256_hex s (validating_upload id now later) h fresh =
    validate_upload-Follows sha256_hex s id now later h
run-Follows is_word staging_path sha256_hex s (cancelling id reason now) h fresh =
    with_job-Follows s id (λ job. cancel s job reason now) h
      (λ job found. Moves-Follows s _ h (cancel-Moves s job found reason now))
run-Follows is_word staging_path sha256_hex s (linking id job now) h fresh =
    link_ingestion_job-Follows s id job now h
run-Follows is_word staging_path sha256_hex s (ingesting id artifact now) h fresh =
    mark_ingested-Follows s id artifact now h
run-Follows is_word staging_path sha256_hex s (registering id dataset pack now) h fresh =
    register_dataset-Follows sha256_hex s id dataset pack now h
run-Follows is_word staging_path sha256_hex s (publishing id now) h fresh =
    mark_available-Follows s id now h
run-Follows is_word staging_path sha256_hex s
      (completing id checksum trigger dataset pack now later after) h fresh =
    complete_upload-Follows sha256_hex s id checksum trigger dataset pack now later after h

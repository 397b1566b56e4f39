-- ===== src/Targets/Linked.antt =====
-- database_targets/service.py: `_advance_linked_upload`, which moves the upload of an ingested dataset on.
use bhiv_masterdb_ingestion.Prelude.{
  Bool, true, false, Option, none, some, Key, if◌then◌else◌, ◌||◌, ok, err, is_some,
}
use bhiv_masterdb_ingestion.Uploads.Models.{
  UploadJob, received, validating, validated, registered, same_status,
}
use bhiv_masterdb_ingestion.Uploads.{UploadService, Answer, get_upload, validate_upload}
use bhiv_masterdb_ingestion.Uploads.Operations.{
  register_dataset, mark_ingested, mark_available, link_ingestion_job,
}
use bhiv_masterdb_ingestion.Uploads.Complete.{or_default}
use bhiv_masterdb_ingestion.Uploads.Listing.{list_uploads}
use bhiv_masterdb_ingestion.Targets.Inputs.{
  Outside, Router, IngestRequest, nonempty, found_upload, linked_upload, target_upload,
}

-- What a part of `_advance_linked_upload` leaves: the upload, or nothing where an exception was raised.
abbrev pub Stage : Type 0
Stage = Option UploadJob × UploadService

abbrev pub reloaded : Key → Answer → Stage
reloaded id (err e, up) = (none, up)
reloaded id (ok _, up) = (found_upload up (some id), up)

abbrev pub answered : Answer → Stage
answered (err e, up) = (none, up)
answered (ok job, up) = (some job, up)

abbrev pub and_then : Stage → (UploadJob → UploadService → Stage) → Stage
and_then (none, up) next = (none, up)
and_then (some job, up) next = next job up

module _ (out : Outside) (r : IngestRequest) where
  abbrev pub validate_stage : UploadJob → UploadService → Stage
  validate_stage job up =
      if same_status job.status received || same_status job.status validating
      then reloaded job.upload_id (validate_upload out.sha256_hex up job.upload_id r.now r.now)
      else (some job, up)

  abbrev pub register_stage : UploadJob → UploadService → Stage
  register_stage job up =
      if same_status job.status validated
      then reloaded job.upload_id (
          register_dataset up job.upload_id r.dataset_id
            (or_default job.package_id (out.package_for r.dataset_id)) r.now)
      else (some job, up)

  abbrev pub publish_stage : UploadJob → UploadService → Stage
  publish_stage job up =
      if same_status job.status registered
      then and_then
          (answered
            (mark_ingested up job.upload_id (out.reference r.target_database r.dataset_id) r.now))
          (λ j v. answered (mark_available v job.upload_id r.now))
      else (some job, up)

  abbrev pub link_stage : UploadJob → UploadService → Stage
  link_stage job up = answered (link_ingestion_job up job.upload_id r.fresh_job r.now)

  unfoldable pub advance_upload : UploadJob → UploadService → Stage
  advance_upload job up =
      and_then (and_then (and_then (validate_stage job up) register_stage) publish_stage) link_stage

  -- `_advance_linked_upload` on the upload service.
  unfoldable pub advance_in : UploadService → Bool × UploadService
  unfolding advance_upload target_upload
  advance_in up = elim (nonempty r.upload_id) [
    | none ↦ elim (linked_upload r.dataset_id (list_uploads up none none none)) [
      | none ↦ (true, up)
      | some job ↦ let done = advance_upload job up in (is_some done.0, done.1)
    ]
    | some id ↦ elim (get_upload up id) [
      | err _ ↦ (false, up)
      | ok job ↦ let done = advance_upload job up in (is_some done.0, done.1)
    ]
  ]

  unfoldable pub advance_linked_upload : Router → Bool × Router
  unfolding advance_in
  advance_linked_upload s = elim s.uploads [
    | none ↦ (true, s)
    | some up ↦ let done = advance_in up in (done.0, record s { uploads = some done.1 })
  ]

-- ===== src/Uploads/Complete.antt =====
-- upload/service.py: `complete_upload`, with the calls it makes.
use bhiv_masterdb_ingestion.Prelude.{
  ℕ, Bool, Option, none, some, List, Key, truthy, if◌then◌else◌, ◌&&◌, ok, err,
}
use bhiv_masterdb_ingestion.Prelude.Text.{Text, is_empty}
use bhiv_masterdb_ingestion.Uploads.Models.{received, validated, same_status, UploadJob}
use bhiv_masterdb_ingestion.Uploads.{UploadService, save, Answer, with_job, validate_upload}
use bhiv_masterdb_ingestion.Uploads.Operations.{register_dataset}

-- `if checksum_sha256:` with the job saved again
abbrev pub with_checksum : Option Text → UploadJob → UploadService → UploadJob × UploadService
with_checksum none job s = (job, s)
with_checksum (some c) job s =
    let job' = record job { checksum_sha256 = some c } in
    if is_empty c then (job, s) else (job', save job' s)

-- `value or default`
abbrev pub or_default : Option Key → Key → Key
or_default none default = default
or_default (some k) default = if truthy k then k else default

unfoldable pub register_if_validated : UploadService → Key → UploadJob → Key → Key → Key → Answer
register_if_validated s upload_id job default_dataset fresh_package now =
    if same_status job.status validated
    then register_dataset s upload_id (or_default job.dataset_id default_dataset)
        (or_default job.package_id fresh_package) now
    else (ok job, s)

-- `if job.status == UploadStatus.RECEIVED and trigger_validation:`
unfoldable pub validate_if_received :
    (List ℕ → Text) → UploadService → Key → UploadJob → Bool → Key → Key → Answer
validate_if_received sha256_hex s upload_id job trigger now later =
    if same_status job.status received && trigger
    then validate_upload sha256_hex s upload_id now later
    else (ok job, s)

unfoldable pub then_register : Answer → Key → Key → Key → Key → Answer
unfolding register_if_validated
then_register (err e, s) upload_id default_dataset fresh_package now = (err e, s)
then_register (ok job, s) upload_id default_dataset fresh_package now =
    register_if_validated s upload_id job default_dataset fresh_package now

-- `default_dataset` is the id "ds-" and the upload id.
unfoldable pub complete_upload :
    (List ℕ → Text)
    → UploadService
    → Key
    → Option Text
    → Bool
    → Key
    → Key
    → Key
    → Key
    → Key
    → Answer
unfolding validate_if_received then_register
complete_upload sha256_hex s upload_id checksum trigger default_dataset fresh_package now later
      after =
    with_job s upload_id (λ job.
      let given = with_checksum checksum job s in
      then_register (validate_if_received sha256_hex given.1 upload_id given.0 trigger now later)
        upload_id default_dataset fresh_package after)

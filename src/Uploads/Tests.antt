-- ===== src/Uploads/Tests.antt =====
-- Runs of the upload service, and the theorems at concrete inputs.
use bhiv_masterdb_ingestion.Prelude.{
  ◌≡◌, refl, ◌↔◌, ℕ, ◌≤◌, Bool, true, leb, ◌&&◌, ◌||◌, ◌==◌, none, some, List, [], ◌∷◌, length, ok,
  arith,
}
use bhiv_masterdb_ingestion.Prelude.Text.{Text, codes}
use bhiv_masterdb_ingestion.Prelude.Dict.{get}
use bhiv_masterdb_ingestion.Uploads.Models.{UploadJob, validated, available}
use bhiv_masterdb_ingestion.Uploads.{
  UploadService, UploadRequest, new_job, received_job, validate_upload, checksum_fits,
}
use bhiv_masterdb_ingestion.Uploads.Checks.{sanitize_filename}
use bhiv_masterdb_ingestion.Uploads.Filename.{HasNoSeparator, sanitize_filename-HasNoSeparator}
use bhiv_masterdb_ingestion.Uploads.Lifecycle.{receiving, run, run-Follows}
use bhiv_masterdb_ingestion.Uploads.Follows.{IsKeyed, Follows}
use bhiv_masterdb_ingestion.Uploads.Available.{
  carry_through, carry_through-available, FitsContent, validate_upload-FitsContent,
}

abbrev request : UploadRequest
request = record {
  filename = codes "a.csv";
  content_type = codes "text/csv";
  file_size = 2;
  actor = 1;
  roles = [];
  checksum_sha256 = some (codes "AB");
  classification = none;
  source_reference = none;
  provenance_metadata = 0;
  schema_version = none;
  product_source = none;
  intended_use = none;
  metadata = 0;
  trace_id = none;
}

abbrev job : UploadJob
job = new_job request 1 (codes "f") 40 100

abbrev service : UploadService
service = record { jobs = (1, job) ∷ []; staged = []; max_file_size_bytes = 500 }

-- A digest that gives the text of the content itself.
abbrev digest : List ℕ → Text
digest c = c

abbrev is_word : ℕ → Bool
is_word c = leb 48 c && leb c 57 || (leb 97 c && leb c 122 || c == 95)

sanitized : sanitize_filename is_word (codes "x/a b\\c.csv") ≡ codes "a_b_c.csv"
unfolding sanitize_filename
sanitized = refl

sanitize_filename-HasNoSeparator_example :
    HasNoSeparator (sanitize_filename is_word (codes "x/a b\\c.csv"))
    × (length (sanitize_filename is_word (codes "x/a b\\c.csv")) ≤ 255)
sanitize_filename-HasNoSeparator_example =
    sanitize_filename-HasNoSeparator is_word (codes "x/a b\\c.csv") refl refl

service-IsKeyed : IsKeyed service
service-IsKeyed k j found = ground arith

run-Follows_example :
    Follows service (run is_word (λ k name. some k) digest service (receiving 1 (codes "ab") 101))
run-Follows_example =
    run-Follows is_word (λ k name. some k) digest service (receiving 1 (codes "ab") 101)
      service-IsKeyed tt

fits : checksum_fits digest job (codes "ab") ≡ true
unfolding checksum_fits
fits = refl

carry_through-available_example :
    (job' : UploadJob) × (get 1 (carry_through digest service 1 (codes "ab") 9 8 7 101).jobs
      ≡ some job')
    × (job'.status ≡ available)
    × (job'.dataset_id ≡ some 9)
    × (job'.package_id ≡ some 8)
    × (job'.artifact_id ≡ some 7)
carry_through-available_example =
    carry_through-available digest service job (codes "ab") 9 8 7 101 (refl, refl) refl fits

abbrev staged_service : UploadService
staged_service = record {
  jobs = (1, received_job job 101) ∷ [];
  staged = (40, codes "ab") ∷ [];
  max_file_size_bytes = 500;
}

validate_upload-FitsContent_example :
    (job' : UploadJob) × ((validate_upload digest staged_service 1 102 103).0 ≡ ok job')
    × ((job'.status ≡ validated) ↔ FitsContent digest staged_service (received_job job 101))
validate_upload-FitsContent_example =
    validate_upload-FitsContent digest staged_service (received_job job 101) 102 103 (refl, refl)

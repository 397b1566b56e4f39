-- ===== src/Uploads/Available.antt =====
-- upload/service.py: the way of an upload to AVAILABLE, and its validation.
use bhiv_masterdb_ingestion.Prelude.{
  ◌≡◌, refl, ◌∙◌, ap, ◌↔◌, inl, inr, ℕ, zero, suc, true, some, List, Key, ok, arith, ◌==◌, length,
  Option-cases, ==→eq, ==_refl,
}
use bhiv_masterdb_ingestion.Prelude.Dict.{get, get-put_self}
use bhiv_masterdb_ingestion.Prelude.Text.{Text}
use bhiv_masterdb_ingestion.Uploads.Models.{
  UploadStatus, uploaded, received, validated, registered, ingested, available, UploadJob,
}
use bhiv_masterdb_ingestion.Uploads.{
  UploadService, save, received_job, receive, receive_upload, path_of, checksum_fits, error_count,
  outcome, examined, validate, validate_upload,
}
use bhiv_masterdb_ingestion.Uploads.Operations.{
  registered_job, ingested_job, available_job, register, register_dataset, ingest, mark_ingested,
  publish, mark_available,
}

-- The job is stored under its id, with the status.
abbrev pub Holds : UploadService → UploadJob → UploadStatus → Type 0
Holds s job t = (get job.upload_id s.jobs ≡ some job) × (job.status ≡ t)

module _ (s : UploadService) (job : UploadJob) where
  received-Holds :
      (content : List ℕ) (now : Key)
      → Holds s job uploaded
      → length content ≡ job.file_size
      → Holds (receive_upload s job.upload_id content now).1 (received_job job now) received
        × (get (path_of job) (receive_upload s job.upload_id content now).1.staged ≡ some content)
  unfolding receive_upload receive
  received-Holds content now (found, new) fits =
      let size : (length content == job.file_size) ≡ true =
        ground (arith, ==_refl (length content)) in
      let stored = get-put_self job.upload_id (received_job job now) s.jobs in
      let staged = get-put_self (path_of job) content s.staged in
      ((ground arith, refl), ground arith)

  error_count-zero :
      (sha256_hex : List ℕ → Text) (content : List ℕ)
      → get (path_of job) s.staged ≡ some content
      → length content ≡ job.file_size
      → checksum_fits sha256_hex job content ≡ true
      → error_count sha256_hex s job ≡ 0
  unfolding error_count
  error_count-zero sha256_hex content staged fits sum = ground (arith, ==_refl (length content))

  validated-Holds :
      (sha256_hex : List ℕ → Text) (now later : Key)
      → Holds s job received
      → error_count sha256_hex s job ≡ 0
      → Holds
          (validate_upload sha256_hex s job.upload_id now later).1
          (outcome 0 later (examined 0 job now later))
          validated
  unfolding validate_upload validate
  validated-Holds sha256_hex now later (found, whole) clean =
      let new = outcome 0 later (examined 0 job now later) in
      let stored = get-put_self job.upload_id new s.jobs in
      let same : outcome (error_count sha256_hex s job) later
            (examined (error_count sha256_hex s job) job now later)
          ≡ new =
        ap (λ n. outcome n later (examined n job now later)) clean in
      let shape : (validate_upload sha256_hex s job.upload_id now later).1
          ≡ save
              (outcome (error_count sha256_hex s job) later
                (examined (error_count sha256_hex s job) job now later))
              s =
        ground arith in
      (
        ap (λ (r : UploadService). get job.upload_id r.jobs) (shape ∙ ap (λ j. save j s) same)
            ∙ stored,
        refl,
      )

  registered-Holds :
      (dataset pack now : Key)
      → Holds s job validated
      → Holds
          (register_dataset s job.upload_id dataset pack now).1
          (registered_job job dataset pack now)
          registered
  unfolding register_dataset register
  registered-Holds dataset pack now (found, ready) =
      let stored = get-put_self job.upload_id (registered_job job dataset pack now) s.jobs in
      (ground arith, refl)

  ingested-Holds :
      (artifact now : Key)
      → Holds s job registered
      → Holds
          (mark_ingested s job.upload_id artifact now).1
          (ingested_job job artifact now)
          ingested
  unfolding mark_ingested ingest
  ingested-Holds artifact now (found, ready) =
      let stored = get-put_self job.upload_id (ingested_job job artifact now) s.jobs in
      (ground arith, refl)

  available-Holds :
      (now : Key)
      → Holds s job ingested
      → Holds (mark_available s job.upload_id now).1 (available_job job now) available
  unfolding mark_available publish
  available-Holds now (found, ready) =
      let stored = get-put_self job.upload_id (available_job job now) s.jobs in (ground arith, refl)

-- The five calls that take an upload from its content to AVAILABLE.
abbrev pub carry_through :
    (List ℕ → Text) → UploadService → Key → List ℕ → Key → Key → Key → Key → UploadService
carry_through sha256_hex s id content dataset pack artifact now =
    let s₁ = (receive_upload s id content now).1 in
    let s₂ = (validate_upload sha256_hex s₁ id now now).1 in
    let s₃ = (register_dataset s₂ id dataset pack now).1 in
    let s₄ = (mark_ingested s₃ id artifact now).1 in (mark_available s₄ id now).1

-- An initiated upload whose content has the announced size and, if one is given, the announced digest
-- becomes available through the five calls, with the dataset, package and artifact of the calls.
pub carry_through-available :
    (sha256_hex : List ℕ → Text) (s : UploadService) (job : UploadJob) (content : List ℕ)
    (dataset pack artifact now : Key)
    → Holds s job uploaded
    → length content ≡ job.file_size
    → checksum_fits sha256_hex job content ≡ true
    → (job' : UploadJob) × (get job.upload_id
          (carry_through sha256_hex s job.upload_id content dataset pack artifact now).jobs
        ≡ some job')
      × (job'.status ≡ available)
      × (job'.dataset_id ≡ some dataset)
      × (job'.package_id ≡ some pack)
      × (job'.artifact_id ≡ some artifact)
unfolding checksum_fits
carry_through-available sha256_hex s job content dataset pack artifact now h fits sum =
    let s₁ = (receive_upload s job.upload_id content now).1 in
    let job₁ = received_job job now in
    let (h₁, staged) = received-Holds s job content now h fits in
    let clean = error_count-zero s₁ job₁ sha256_hex content staged fits sum in
    let s₂ = (validate_upload sha256_hex s₁ job.upload_id now now).1 in
    let job₂ = outcome 0 now (examined 0 job₁ now now) in
    let h₂ = validated-Holds s₁ job₁ sha256_hex now now h₁ clean in
    let s₃ = (register_dataset s₂ job.upload_id dataset pack now).1 in
    let job₃ = registered_job job₂ dataset pack now in
    let h₃ = registered-Holds s₂ job₂ dataset pack now h₂ in
    let s₄ = (mark_ingested s₃ job.upload_id artifact now).1 in
    let job₄ = ingested_job job₃ artifact now in
    let h₄ = ingested-Holds s₃ job₃ artifact now h₃ in
    let h₅ = available-Holds s₄ job₄ now h₄ in
    (available_job job₄ now, h₅.0, refl, refl, refl, refl)

-- The staged content of a job has the announced size and digest.
abbrev pub FitsContent : (List ℕ → Text) → UploadService → UploadJob → Type 0
FitsContent sha256_hex s job =
    (content : List ℕ) × (get (path_of job) s.staged ≡ some content)
    × (length content ≡ job.file_size)
    × (checksum_fits sha256_hex job content ≡ true)

error_count-FitsContent :
    (sha256_hex : List ℕ → Text) (s : UploadService) (job : UploadJob)
    → error_count sha256_hex s job ≡ 0
    → FitsContent sha256_hex s job
unfolding error_count
error_count-FitsContent sha256_hex s job clean = elim (Option-cases (get (path_of job) s.staged)) [
  | inl gone ↦ ground arith
  | inr (content, staged) ↦
      (content, staged, ==→eq (length content) job.file_size (ground arith), ground arith)
]

outcome-validated :
    (n : ℕ) (later : Key) (job : UploadJob) → (outcome n later job).status ≡ validated → n ≡ 0
outcome-validated zero later job h = refl
outcome-validated (suc n) later job h = cc

-- Validating a received upload answers with a job that is validated exactly when the staged file is
-- there with the announced size and, if one is given, the announced digest.
pub validate_upload-FitsContent :
    (sha256_hex : List ℕ → Text) (s : UploadService) (job : UploadJob) (now later : Key)
    → Holds s job received
    → (job' : UploadJob) × ((validate_upload sha256_hex s job.upload_id now later).0 ≡ ok job')
      × ((job'.status ≡ validated) ↔ FitsContent sha256_hex s job)
unfolding validate_upload validate
validate_upload-FitsContent sha256_hex s job now later (found, whole) =
    let n = error_count sha256_hex s job in
    let job' = outcome n later (examined n job now later) in
    (
      job',
      ground arith,
      (
        λ h.
            error_count-FitsContent sha256_hex s job
              (outcome-validated n later (examined n job now later) h),
        λ (content, staged, fits, sum).
            let clean = error_count-zero s job sha256_hex content staged fits sum in
            ap (λ m. (outcome m later (examined m job now later)).status) clean,
      ),
    )

-- ===== src/Uploads/Changes.antt =====
-- upload/service.py: what each operation does with a found job, against `UPLOAD_LIFECYCLE_GRAPH`.
use bhiv_masterdb_ingestion.Prelude.{
  ◌≡◌, refl, sym, subst, inl, inr, ℕ, zero, suc, true, some, List, Key, arith, ◌==◌, length,
  Bool-cases,
}
use bhiv_masterdb_ingestion.Prelude.Dict.{get}
use bhiv_masterdb_ingestion.Prelude.Text.{Text}
use bhiv_masterdb_ingestion.Uploads.Models.{
  UploadStatus, uploaded, received, validating, validated, rejected, registered, ingested,
  available, same_status, upload_lifecycle_graph, UploadJob,
}
use bhiv_masterdb_ingestion.Uploads.{
  UploadService, received_job, refused_content, receive, error_count, outcome, examined, validate,
}
use bhiv_masterdb_ingestion.Uploads.Operations.{
  cancelled_job, linked_job, registered_job, ingested_job, available_job, is_terminal, cancel, link,
  register, ingest, publish,
}
use bhiv_masterdb_ingestion.Uploads.Follows.{
  elem_status, Leads, stay, along, edge, same_status→eq, to_rejected, Moves,
}

from_status :
    (a b c : UploadStatus)
    → same_status a b ≡ true
    → elem_status c (upload_lifecycle_graph b) ≡ true
    → Leads a c
from_status a b c same e = subst (λ d. Leads d c) (sym (same_status→eq a b same)) (edge b c e)

outcome-upload_id :
    (n : ℕ) (later : Key) (job : UploadJob) → (outcome n later job).upload_id ≡ job.upload_id
outcome-upload_id zero later job = refl
outcome-upload_id (suc n) later job = refl

outcome-Leads :
    (n : ℕ) (later : Key) (job : UploadJob)
    → job.status ≡ validating
    → Leads received (outcome n later job).status
outcome-Leads zero later job e = along (edge received validating refl) refl
outcome-Leads (suc n) later job e = edge received rejected refl

module _ (s : UploadService) (job : UploadJob) (found : get job.upload_id s.jobs ≡ some job) where
  pub receive-Moves : (content : List ℕ) (now : Key) → Moves s (receive s job content now).1
  unfolding receive
  receive-Moves content now = elim (Bool-cases (same_status job.status uploaded)) [
    | inr other ↦ inl (ground arith)
    | inl new ↦ elim (Bool-cases (length content == job.file_size)) [
      | inl fits ↦ inr (
        job,
        received_job job now,
        found,
        ground arith,
        refl,
        from_status job.status uploaded received new refl,
      )
      | inr off ↦ inr (
        job,
        refused_content job now,
        found,
        ground arith,
        refl,
        from_status job.status uploaded rejected new refl,
      )
    ]
  ]

  pub validate-Moves :
      (sha256_hex : List ℕ → Text) (now later : Key)
      → Moves s (validate sha256_hex s job now later).1
  unfolding validate
  validate-Moves sha256_hex now later = elim (Bool-cases (same_status job.status received)) [
    | inr other ↦ inl (ground arith)
    | inl new ↦
        let errors = error_count sha256_hex s job in
        let seen = examined errors job now later in
        inr (
          job,
          outcome errors later seen,
          found,
          ground arith,
          outcome-upload_id errors later seen,
          subst (λ a. Leads a (outcome errors later seen).status)
              (sym (same_status→eq job.status received new)) (outcome-Leads errors later seen refl),
        )
  ]

  pub cancel-Moves : (reason now : Key) → Moves s (cancel s job reason now).1
  unfolding cancel
  cancel-Moves reason now = elim (Bool-cases (is_terminal job.status)) [
    | inl over ↦ inl (ground arith)
    | inr open_job ↦ inr (
      job,
      cancelled_job job reason now,
      found,
      ground arith,
      refl,
      to_rejected job.status (ground arith),
    )
  ]

  pub link-Moves : (id now : Key) → Moves s (link s job id now).1
  unfolding link
  link-Moves id now = elim (Bool-cases (same_status job.status rejected)) [
    | inl over ↦ inl (ground arith)
    | inr live ↦ inr (job, linked_job job id now, found, ground arith, refl, stay)
  ]

  pub register-Moves : (dataset pack now : Key) → Moves s (register s job dataset pack now).1
  unfolding register
  register-Moves dataset pack now = elim (Bool-cases (same_status job.status validated)) [
    | inr other ↦ inl (ground arith)
    | inl ready ↦ inr (
      job,
      registered_job job dataset pack now,
      found,
      ground arith,
      refl,
      from_status job.status validated registered ready refl,
    )
  ]

  pub ingest-Moves : (artifact now : Key) → Moves s (ingest s job artifact now).1
  unfolding ingest
  ingest-Moves artifact now = elim (Bool-cases (same_status job.status registered)) [
    | inr other ↦ inl (ground arith)
    | inl ready ↦ inr (
      job,
      ingested_job job artifact now,
      found,
      ground arith,
      refl,
      from_status job.status registered ingested ready refl,
    )
  ]

  pub publish-Moves : (now : Key) → Moves s (publish s job now).1
  unfolding publish
  publish-Moves now = elim (Bool-cases (same_status job.status ingested)) [
    | inr other ↦ inl (ground arith)
    | inl ready ↦ inr (
      job,
      available_job job now,
      found,
      ground arith,
      refl,
      from_status job.status ingested available ready refl,
    )
  ]

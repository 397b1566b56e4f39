-- ===== src/Uploads/Initiated.antt =====
-- upload/service.py: `initiate_upload`, and the lookup of a job before an operation on it.
use bhiv_masterdb_ingestion.Prelude.{
  ◌≡◌, ◌∙◌, sym, ap, subst, inl, inr, ℕ, Bool, Option, none, some, Key, arith, ◌==◌, Bool-cases,
  Option-cases, ==→eq,
}
use bhiv_masterdb_ingestion.Prelude.Dict.{get, get-put}
use bhiv_masterdb_ingestion.Prelude.Text.{Text}
use bhiv_masterdb_ingestion.Uploads.Models.{UploadJob}
use bhiv_masterdb_ingestion.Uploads.{
  UploadService, UploadRequest, Answer, new_job, with_job, save, initiate_upload,
}
use bhiv_masterdb_ingestion.Uploads.Checks.{
  validate_filename, validate_content_type, validate_file_size, sanitize_filename,
}
use bhiv_masterdb_ingestion.Uploads.Follows.{stay, IsKeyed, Follows, Follows-refl}

-- An operation on one job keeps what its part on a found job keeps.
pub with_job-Follows :
    (s : UploadService) (id : Key) (rest : UploadJob → Answer)
    → IsKeyed s
    → ((job : UploadJob) → get job.upload_id s.jobs ≡ some job → Follows s (rest job).1)
    → Follows s (with_job s id rest).1
with_job-Follows s id rest h follows = elim (Option-cases (get id s.jobs)) [
  | inl gone ↦
      let same : (with_job s id rest).1.jobs ≡ s.jobs = ground arith in
      Follows-refl s (with_job s id rest).1 same h
  | inr (job, found) ↦
      let own : get job.upload_id s.jobs ≡ some job =
        ap (λ k. get k s.jobs) (h id job found) ∙ found in
      let shape : (with_job s id rest).1 ≡ (rest job).1 = ground arith in
      subst (Follows s) (sym shape) (follows job own)
]

save-Follows :
    (s : UploadService) (job : UploadJob)
    → IsKeyed s
    → get job.upload_id s.jobs ≡ none
    → Follows s (save job s)
save-Follows s job h fresh = record {
  keyed = λ k j e.
      let at_k = get-put job.upload_id k job s.jobs in
      elim (Bool-cases (job.upload_id == k)) [
        | inl self ↦
            let same : job ≡ j = ground arith in
            ap (λ (q : UploadJob). q.upload_id) (sym same) ∙ ==→eq job.upload_id k self
        | inr other ↦ h k j (ground arith)
      ];
  led = λ k j e.
      let at_k = get-put job.upload_id k job s.jobs in
      elim (Bool-cases (job.upload_id == k)) [
        | inl self ↦
            let gone : get k s.jobs ≡ none =
              subst (λ i. get i s.jobs ≡ none) (==→eq job.upload_id k self) fresh in
            cc
        | inr other ↦ (j, ground arith, stay)
      ];
}

pub initiate_upload-Follows :
    (is_word : ℕ → Bool) (staging_path : Key → Text → Option Key) (s : UploadService)
    (request : UploadRequest) (id : Key) (fresh_trace : Text) (now : Key)
    → IsKeyed s
    → get id s.jobs ≡ none
    → Follows s (initiate_upload is_word staging_path s request id fresh_trace now).1
unfolding initiate_upload
initiate_upload-Follows is_word staging_path s request id fresh_trace now h fresh =
    let result = (initiate_upload is_word staging_path s request id fresh_trace now).1 in
    let refused : result ≡ s → Follows s result =
      λ e. Follows-refl s result (ap (λ (r : UploadService). r.jobs) e) h in
    elim (Bool-cases (validate_filename request.filename)) [
      | inr bad ↦ refused (ground arith)
      | inl name ↦ elim (Bool-cases (validate_content_type request.content_type)) [
        | inr bad ↦ refused (ground arith)
        | inl kind ↦
            elim (Bool-cases (validate_file_size s.max_file_size_bytes request.file_size)) [
              | inr bad ↦ refused (ground arith)
              | inl size ↦
                  elim (Option-cases
                    (staging_path id (sanitize_filename is_word request.filename))) [
                      | inl outside ↦ refused (ground arith)
                      | inr (path, inside) ↦
                          let job = new_job request id fresh_trace path now in
                          let shape : result ≡ save job s = ground arith in
                          subst (Follows s) (sym shape) (save-Follows s job h fresh)
                    ]
            ]
      ]
    ]

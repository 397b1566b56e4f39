-- ===== src/Targets/Advance.antt =====
-- database_targets/service.py with upload/service.py: ingestions and the life cycle of uploads.
use bhiv_masterdb_ingestion.Prelude.{
  ◌≡◌, refl, sym, ap, subst, inl, inr, not, Option, none, some, List, [], ◌∷◌, ◌||◌, Key, ok, err,
  arith, Bool-cases, Option-cases, Result-cases, if_rule,
}
use bhiv_masterdb_ingestion.Prelude.Dict.{get}
use bhiv_masterdb_ingestion.Uploads.Models.{
  UploadJob, received, validating, validated, registered, same_status,
}
use bhiv_masterdb_ingestion.Uploads.{UploadService, Answer, get_upload, validate_upload}
use bhiv_masterdb_ingestion.Uploads.Operations.{
  register_dataset, mark_ingested, mark_available, link_ingestion_job,
}
use bhiv_masterdb_ingestion.Uploads.Complete.{or_default}
use bhiv_masterdb_ingestion.Uploads.Listing.{list_uploads}
use bhiv_masterdb_ingestion.Uploads.Lifecycle.{
  validate_upload-Follows, register_dataset-Follows, mark_ingested-Follows, mark_available-Follows,
  link_ingestion_job-Follows,
}
use bhiv_masterdb_ingestion.Uploads.Follows.{IsKeyed, Follows, Follows-refl, Follows-trans}
use bhiv_masterdb_ingestion.Targets.Models.{IngestJob, IngestJobStep, CertificationReport}
use bhiv_masterdb_ingestion.Targets.{
  IngestAnswer, finalize, persist_target, route, write_records, pass_gate, execute_ingest, replay,
  with_known, ingest, rbac_step, format_step, gate_step, is_same_request,
}
use bhiv_masterdb_ingestion.Targets.Linked.{
  Stage, reloaded, answered, and_then, validate_stage, register_stage, publish_stage, link_stage,
  advance_upload, advance_in, advance_linked_upload,
}
use bhiv_masterdb_ingestion.Targets.Inputs.{
  Outside, Router, IngestRequest, nonempty, linked_upload, load_report, is_authorized, is_accepted,
  is_eligible, resolve_dataset_records, resolved_key,
}

reloaded-store : (id : Key) (a : Answer) → (reloaded id a).1 ≡ a.1
reloaded-store id (ok job, up) = refl
reloaded-store id (err e, up) = refl

answered-store : (a : Answer) → (answered a).1 ≡ a.1
answered-store (ok job, up) = refl
answered-store (err e, up) = refl

-- The part of an operation follows what the operation before it left.
and_then-Follows :
    (up : UploadService) (stage : Stage) (next : UploadJob → UploadService → Stage)
    → Follows up stage.1
    → ((job : UploadJob) (v : UploadService) → IsKeyed v → Follows v (next job v).1)
    → Follows up (and_then stage next).1
and_then-Follows up (none, v) next first rest = first
and_then-Follows up (some job, v) next first rest = Follows-trans first (rest job v first.keyed)

-- The upload service of the second state, if there is one, has followed the life cycle from that of
-- the first.
abbrev pub UploadsFollow : Option UploadService → Option UploadService → Type 0
UploadsFollow none o = o ≡ none
UploadsFollow (some up) none = ⊥
UploadsFollow (some up) (some v) = Follows up v

abbrev pub AllKeyed : Option UploadService → Type 0
AllKeyed none = Unit
AllKeyed (some up) = IsKeyed up

UploadsFollow-refl : (o : Option UploadService) → AllKeyed o → UploadsFollow o o
UploadsFollow-refl none h = refl
UploadsFollow-refl (some up) h = Follows-refl up up refl h

-- The answer leaves an upload service that has followed the life cycle from the given one.
abbrev AnswerFollows : Option UploadService → IngestAnswer → Type 0
AnswerFollows o answer = UploadsFollow o answer.1.uploads

module _ (out : Outside) (r : IngestRequest) where
  validate_stage-Follows :
      (job : UploadJob) (up : UploadService)
      → IsKeyed up
      → Follows up (validate_stage out r job up).1
  validate_stage-Follows job up h =
      if_rule (λ (stage : Stage). Follows up stage.1)
        (same_status job.status received || same_status job.status validating) _ _
        (λ _.
          subst (Follows up)
            (sym (
              reloaded-store job.upload_id
                (validate_upload out.sha256_hex up job.upload_id r.now r.now)))
            (validate_upload-Follows out.sha256_hex up job.upload_id r.now r.now h))
        (λ _. Follows-refl up up refl h)

  register_stage-Follows :
      (job : UploadJob) (up : UploadService)
      → IsKeyed up
      → Follows up (register_stage out r job up).1
  register_stage-Follows job up h =
      let pack = or_default job.package_id (out.package_for r.dataset_id) in
      if_rule (λ (stage : Stage). Follows up stage.1) (same_status job.status validated) _ _
        (λ _.
          subst (Follows up)
            (sym (
              reloaded-store job.upload_id
                (register_dataset up job.upload_id r.dataset_id pack r.now)))
            (register_dataset-Follows out.sha256_hex up job.upload_id r.dataset_id pack r.now h))
        (λ _. Follows-refl up up refl h)

  publish_stage-Follows :
      (job : UploadJob) (up : UploadService)
      → IsKeyed up
      → Follows up (publish_stage out r job up).1
  publish_stage-Follows job up h =
      let artifact = out.reference r.target_database r.dataset_id in
      let marked = mark_ingested up job.upload_id artifact r.now in
      if_rule (λ (stage : Stage). Follows up stage.1) (same_status job.status registered) _ _
        (λ _.
          and_then-Follows up (answered marked)
            (λ j v. answered (mark_available v job.upload_id r.now))
            (subst (Follows up) (sym (answered-store marked))
              (mark_ingested-Follows up job.upload_id artifact r.now h))
            (λ j v k.
              subst (Follows v) (sym (answered-store (mark_available v job.upload_id r.now)))
                (mark_available-Follows v job.upload_id r.now k)))
        (λ _. Follows-refl up up refl h)

  link_stage-Follows :
      (job : UploadJob) (up : UploadService) → IsKeyed up → Follows up (link_stage out r job up).1
  link_stage-Follows job up h =
      subst (Follows up)
        (sym (answered-store (link_ingestion_job up job.upload_id r.fresh_job r.now)))
        (link_ingestion_job-Follows up job.upload_id r.fresh_job r.now h)

  advance_upload-Follows :
      (job : UploadJob) (up : UploadService)
      → IsKeyed up
      → Follows up (advance_upload out r job up).1
  unfolding advance_upload
  advance_upload-Follows job up h =
      let checked = validate_stage out r job up in
      let registered_one = and_then checked (register_stage out r) in
      let published = and_then registered_one (publish_stage out r) in
      and_then-Follows up published (link_stage out r)
        (and_then-Follows up registered_one (publish_stage out r)
          (and_then-Follows up checked (register_stage out r) (validate_stage-Follows job up h)
            register_stage-Follows)
          publish_stage-Follows)
        link_stage-Follows

  advance_in-Follows : (up : UploadService) → IsKeyed up → Follows up (advance_in out r up).1
  unfolding advance_in
  advance_in-Follows up h =
      let same : (advance_in out r up).1 ≡ up → Follows up (advance_in out r up).1 =
        λ e. Follows-refl up (advance_in out r up).1 (ap (λ (v : UploadService). v.jobs) e) h in
      let moved : (job : UploadJob)
          → (advance_in out r up).1 ≡ (advance_upload out r job up).1
          → Follows up (advance_in out r up).1 =
        λ job e. subst (Follows up) (sym e) (advance_upload-Follows job up h) in
      elim (Option-cases (nonempty r.upload_id)) [
        | inl absent ↦
            elim (Option-cases (linked_upload r.dataset_id (list_uploads up none none none))) [
              | inl unlinked ↦ same (ground arith)
              | inr (job, linked) ↦ moved job (ground arith)
            ]
        | inr (id, present) ↦ elim (Result-cases (get_upload up id)) [
          | inl (job, found) ↦ moved job (ground arith)
          | inr (e, gone) ↦ same (ground arith)
        ]
      ]

  advance_linked_upload-Follow :
      (s : Router)
      → AllKeyed s.uploads
      → UploadsFollow s.uploads (advance_linked_upload out r s).1.uploads
  unfolding advance_linked_upload
  advance_linked_upload-Follow s h = by_service s.uploads refl h
    where
      by_service :
          (o : Option UploadService)
          → s.uploads ≡ o
          → AllKeyed o
          → UploadsFollow o (advance_linked_upload out r s).1.uploads
      by_service none e k = ground arith
      by_service (some up) e k =
          let shape : (advance_linked_upload out r s).1.uploads ≡ some (advance_in out r up).1 =
            ground arith in
          subst (UploadsFollow (some up)) (sym shape) (advance_in-Follows up k)

  finalize-uploads : (job : IngestJob) (s : Router) → (finalize out r job s).1.uploads ≡ s.uploads
  unfolding finalize
  finalize-uploads job s = elim (Option-cases job.idempotency_key) [
    | inl absent ↦ ground arith
    | inr (k, present) ↦ ground arith
  ]

  finalize-Follow :
      (o : Option UploadService) (job : IngestJob) (s : Router)
      → UploadsFollow o s.uploads
      → AnswerFollows o (finalize out r job s)
  unfolding finalize
  finalize-Follow o job s h = subst (UploadsFollow o) (sym (finalize-uploads job s)) h

  route-Follow :
      (s₀ : Router) (steps : List IngestJobStep) (report : Option CertificationReport)
      (records : List Key) (s : Router)
      → AllKeyed s.uploads
      → AnswerFollows s.uploads (route out r s₀ steps report records s)
  unfolding route
  route-Follow s₀ steps report records s h =
      let written = persist_target out r records s in
      let moved = advance_linked_upload-Follow written h in
      if_rule (AnswerFollows s.uploads) (advance_linked_upload out r written).0 _ _
        (λ _. finalize-Follow s.uploads _ (advance_linked_upload out r written).1 moved)
        (λ _. finalize-Follow s.uploads _ (advance_linked_upload out r written).1 moved)

  write_records-Follow :
      (s₀ : Router) (steps : List IngestJobStep) (report : Option CertificationReport) (s : Router)
      (records : Option (List Key))
      → AllKeyed s.uploads
      → AnswerFollows s.uploads (write_records out r s₀ steps report s records)
  unfolding write_records
  write_records-Follow s₀ steps report s none h = UploadsFollow-refl s.uploads h
  write_records-Follow s₀ steps report s (some records) h =
      if_rule (AnswerFollows s.uploads) r.target_raises _ _
        (λ _. finalize-Follow s.uploads _ s (UploadsFollow-refl s.uploads h))
        (λ _. route-Follow s₀ steps report records s h)

  pass_gate-Follow :
      (s₀ : Router) (report : Option CertificationReport) (s : Router)
      → AllKeyed s.uploads
      → AnswerFollows s.uploads (pass_gate out r s₀ (report, s))
  unfolding pass_gate
  pass_gate-Follow s₀ report s h =
      if_rule (AnswerFollows s.uploads) (is_eligible report) _ _
        (λ _.
          write_records-Follow s₀ (rbac_step r ∷ format_step r ∷ gate_step r report ∷ []) report s
            (resolve_dataset_records out s r) h)
        (λ _. finalize-Follow s.uploads _ s (UploadsFollow-refl s.uploads h))

  load_report-uploads : (s : Router) → (load_report out s r).1.uploads ≡ s.uploads
  unfolding load_report
  load_report-uploads s = ground arith

  execute_ingest-Follow :
      (s : Router) → AllKeyed s.uploads → AnswerFollows s.uploads (execute_ingest out r s)
  unfolding execute_ingest
  execute_ingest-Follow s h =
      let same = UploadsFollow-refl s.uploads h in
      let loaded = load_report out s r in
      let unchanged = load_report-uploads s in
      if_rule (AnswerFollows s.uploads) (not (is_authorized r)) _ _
        (λ _. finalize-Follow s.uploads _ s same)
        (λ _.
          if_rule (AnswerFollows s.uploads) (not (is_accepted r)) _ _
            (λ _. finalize-Follow s.uploads _ s same)
            (λ _.
              subst (λ o. AnswerFollows o (pass_gate out r s loaded)) unchanged
                (pass_gate-Follow s loaded.0 loaded.1 (subst AllKeyed (sym unchanged) h))))

-- Whatever way an ingestion ends, each upload is kept under its id, and the status it has afterwards is
-- one that the upload life cycle leads to from its status before, if each was kept under its id before.
pub ingest-UploadsFollow :
    (out : Outside) (r : IngestRequest) (s : Router)
    → AllKeyed s.uploads
    → UploadsFollow s.uploads (ingest out r s).1.uploads
unfolding ingest with_known replay
ingest-UploadsFollow out r s h =
    let executed = execute_ingest-Follow out r s h in
    let same : (ingest out r s).1 ≡ s → UploadsFollow s.uploads (ingest out r s).1.uploads = λ e.
      subst (λ (t : Router). UploadsFollow s.uploads t.uploads) (sym e)
        (UploadsFollow-refl s.uploads h) in
    let run : ingest out r s ≡ execute_ingest out r s
        → UploadsFollow s.uploads (ingest out r s).1.uploads =
      λ e. subst (λ (a : IngestAnswer). UploadsFollow s.uploads a.1.uploads) (sym e) executed in
    elim (Option-cases (resolved_key out r)) [
      | inl absent ↦ run (ground arith)
      | inr (k, present) ↦ elim (Option-cases (get k s.idempotency)) [
        | inl new ↦ run (ground arith)
        | inr (known, bound) ↦ elim (Bool-cases (is_same_request out r known)) [
          | inr other ↦ same (ground arith)
          | inl agrees ↦ elim (Option-cases (get known.job_id s.jobs)) [
            | inl lost ↦ run (ground arith)
            | inr (job, found) ↦ same (ground arith)
          ]
        ]
      ]
    ]

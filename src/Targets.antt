-- ===== src/Targets.antt =====
-- database_targets/service.py: `DatabaseRouterService`, which takes a certified dataset to one of the
-- target databases. The stores are dictionaries: the jobs by job id, the idempotency records by key, the
-- certification reports by dataset id, the target datasets by their reference, the files of the datasets
-- directory by path. The upload service is that of `Uploads`. What other code and the environment do
-- is in `Outside`: `certify` and `load_dataset` give nothing where they raise, and whether the target
-- store raises is an argument of the call. Ids and clock readings are arguments.
pub mod Linked
pub mod Inputs
pub mod Models
pub mod Recorded
pub mod Gate
pub mod Advance
mod Tests
use bhiv_masterdb_ingestion.Prelude.{
  ℕ, Bool, true, false, not, Option, none, some, List, [], ◌∷◌, ◌++◌, Key, truthy, length, ◌==◌,
  if◌then◌else◌, ◌&&◌, ◌||◌, Result, ok, err, is_some,
}
use bhiv_masterdb_ingestion.Prelude.Dict.{Dict, get, put, values}
use bhiv_masterdb_ingestion.Prelude.Text.{Text, codes, elem_text, is_empty}
use bhiv_masterdb_ingestion.Trace.{normalize_trace_id}
use bhiv_masterdb_ingestion.Bcaes.Service.{admin_role}
use bhiv_masterdb_ingestion.Uploads.Models.{
  UploadJob, received, validating, validated, registered, same_status,
}
use bhiv_masterdb_ingestion.Uploads.{UploadService, Answer, get_upload, validate_upload}
use bhiv_masterdb_ingestion.Uploads.Operations.{
  register_dataset, mark_ingested, mark_available, link_ingestion_job,
}
use bhiv_masterdb_ingestion.Uploads.Complete.{or_default}
use bhiv_masterdb_ingestion.Uploads.Listing.{list_uploads}
use bhiv_masterdb_ingestion.Targets.Models.{
  TargetDatabase, IngestionFormat, IngestionJobStatus, persisted, rejected, partial_persistence,
  DatabaseCapability, database_registry, same_database, same_format, StepName, rbac_check,
  format_check, certification_gate, persistence, routed, upload_lifecycle_transition, IngestJobStep,
  Reason, not_authorized, format_not_supported, not_certified, persistence_failed,
  upload_transition_failed, Metadata, CertificationState, certified, other_state,
  CertificationReport, IngestJob, IdempotencyRecord, TargetDataset,
}
use bhiv_masterdb_ingestion.Targets.Inputs.{
  IngestError, idempotency_conflict, records_unresolved, job_not_found, Outside, Router,
  IngestRequest, nonempty, resolved_key, found_upload, resolved_trace, is_authorized, is_accepted,
  linked_upload, target_upload, load_report, is_eligible, state_of, score_of,
  resolve_dataset_records,
}
use bhiv_masterdb_ingestion.Targets.Linked.{answered, advance_linked_upload}

abbrev pub step : StepName → Bool → Key → IngestJobStep
step name passed at = record { step = name; passed = passed; at = at }

abbrev pub rbac_step : IngestRequest → IngestJobStep
rbac_step r = step rbac_check (is_authorized r) r.now

abbrev pub format_step : IngestRequest → IngestJobStep
format_step r = step format_check (is_accepted r) r.now

abbrev pub gate_step : IngestRequest → Option CertificationReport → IngestJobStep
gate_step r report = step certification_gate (is_eligible report) r.now

abbrev pub IngestAnswer : Type 0
IngestAnswer = Result IngestError IngestJob × Router

-- `dict(metadata or {})` with the two entries that the router adds
abbrev pub with_target : Option Metadata → Key → ℕ → Metadata
with_target none reference count = record {
  idempotency_key = none;
  trace_id = none;
  others = 0;
  target_reference = some reference;
  records_persisted = some count;
}
with_target (some m) reference count = record m {
  target_reference = some reference;
  records_persisted = some count;
}

abbrev pub status_for : Option Reason → IngestionJobStatus
status_for none = persisted
status_for (some upload_transition_failed) = partial_persistence
status_for (some _) = rejected

module _ (out : Outside) (r : IngestRequest) where
  -- The job that `_finalize` builds; the override of the status comes with its reason.
  abbrev pub final_job :
      Router
      → List IngestJobStep
      → Option Reason
      → Option CertificationState
      → Option Key
      → Option Metadata
      → IngestJob
  final_job s steps reason state score metadata = record {
    job_id = r.fresh_job;
    trace_id = resolved_trace s r;
    idempotency_key = resolved_key out r;
    dataset_id = r.dataset_id;
    target_database = r.target_database;
    source_format = r.source_format;
    package_id = r.package_id;
    actor = r.actor;
    roles = r.roles;
    status = status_for reason;
    certification_state = state;
    integrity_score = score;
    steps = steps;
    rejection_reason = reason;
    metadata = metadata;
    submitted_at = r.now;
    completed_at = r.now;
  }

  abbrev pub idempotency_record : IngestJob → IdempotencyRecord
  idempotency_record job = record {
    job_id = job.job_id;
    dataset_id = job.dataset_id;
    target_database = job.target_database;
    status = job.status;
    completed_at = job.completed_at;
  }

  abbrev pub remember : IngestJob → Router → Router
  remember job s = elim job.idempotency_key [
    | none ↦ s
    | some k ↦ record s { idempotency = put k (idempotency_record job) s.idempotency }
  ]

  -- `_finalize`
  unfoldable pub finalize : IngestJob → Router → IngestAnswer
  finalize job s = (ok job, remember job (record s { jobs = put job.job_id job s.jobs }))

  abbrev pub target_dataset : List Key → TargetDataset
  target_dataset records = record {
    target_database = r.target_database;
    dataset_id = r.dataset_id;
    record_count = length records;
    source_format = r.source_format;
    records = records;
  }

  abbrev pub persist_target : List Key → Router → Router
  persist_target records s = record s {
    targets = put (out.reference r.target_database r.dataset_id) (target_dataset records) s.targets;
  }

  -- After the target is written: `s₀` is the state at the start, which fixed the trace id.
  unfoldable pub route :
      Router → List IngestJobStep → Option CertificationReport → List Key → Router → IngestAnswer
  unfolding advance_linked_upload finalize
  route s₀ steps report records s =
      let written = persist_target records s in
      let after = steps ++ step persistence true r.now ∷ step routed true r.now ∷ [] in
      let metadata =
        some (
          with_target r.metadata (out.reference r.target_database r.dataset_id) (length records)) in
      let moved = advance_linked_upload out r written in
      if moved.0
      then finalize (final_job s₀ after none (state_of report) (score_of report) metadata) moved.1
      else finalize
          (final_job s₀ (after ++ step upload_lifecycle_transition false r.now ∷ [])
            (some upload_transition_failed) (state_of report) (score_of report) metadata)
          moved.1

  -- The records of the certified dataset, if they could be read, are written.
  unfoldable pub write_records :
      Router
      → List IngestJobStep
      → Option CertificationReport
      → Router
      → Option (List Key)
      → IngestAnswer
  unfolding route finalize
  write_records s₀ steps report s none = (err records_unresolved, s)
  write_records s₀ steps report s (some records) =
      if r.target_raises
      then finalize
          (final_job s₀ (steps ++ step persistence false r.now ∷ []) (some persistence_failed)
            (state_of report) none r.metadata)
          s
      else route s₀ steps report records s

  -- The certification gate, on the report and the state after it was loaded.
  unfoldable pub pass_gate : Router → Option CertificationReport × Router → IngestAnswer
  unfolding write_records finalize resolve_dataset_records
  pass_gate s₀ (report, s) =
      let steps = rbac_step r ∷ format_step r ∷ gate_step r report ∷ [] in
      if is_eligible report
      then write_records s₀ steps report s (resolve_dataset_records out s r)
      else finalize (final_job s₀ steps (some not_certified) (state_of report) none r.metadata) s

  unfoldable pub execute_ingest : Router → IngestAnswer
  unfolding pass_gate finalize load_report
  execute_ingest s =
      if not (is_authorized r)
      then finalize (final_job s (rbac_step r ∷ []) (some not_authorized) none none r.metadata) s
      else if not (is_accepted r)
      then finalize
          (final_job s (rbac_step r ∷ format_step r ∷ []) (some format_not_supported) none none
            r.metadata)
          s
      else pass_gate s (load_report out s r)

  -- `existing_record` is bound to this dataset and target.
  abbrev pub is_same_request : IdempotencyRecord → Bool
  is_same_request known =
      known.dataset_id == r.dataset_id && same_database known.target_database r.target_database

  -- The job of a known key is answered, if it is still on file.
  unfoldable pub replay : Router → Option IngestJob → IngestAnswer
  unfolding execute_ingest
  replay s (some job) = (ok job, s)
  replay s none = execute_ingest s

  unfoldable pub with_known : Router → Option IdempotencyRecord → IngestAnswer
  unfolding execute_ingest replay
  with_known s none = execute_ingest s
  with_known s (some known) =
      if not (is_same_request known)
      then (err idempotency_conflict, s)
      else replay s (get known.job_id s.jobs)

  unfoldable pub ingest : Router → IngestAnswer
  unfolding execute_ingest resolved_key with_known
  ingest s = elim (resolved_key out r) [
    | none ↦ execute_ingest s
    | some k ↦ with_known s (get k s.idempotency)
  ]

unfoldable pub get_job : Router → Key → Result IngestError IngestJob
get_job s job_id = elim (get job_id s.jobs) [ none ↦ err job_not_found | some job ↦ ok job ]

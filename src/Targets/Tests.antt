-- ===== src/Targets/Tests.antt =====
-- Runs of the router, and the theorems at concrete inputs.
use bhiv_masterdb_ingestion.Prelude.{
  ◌≡◌, refl, ◌≢◌, ℕ, true, false, none, some, [], ◌∷◌, Key, ok, err, arith,
}
use bhiv_masterdb_ingestion.Prelude.Text.{codes}
use bhiv_masterdb_ingestion.Targets.{
  execute_ingest, ingest, final_job, rbac_step, format_step, gate_step, step, with_target, remember,
  persist_target,
}
use bhiv_masterdb_ingestion.Targets.Inputs.{
  Outside, Router, IngestRequest, idempotency_conflict, resolved_key, load_report, resolved_trace,
}
use bhiv_masterdb_ingestion.Targets.Models.{
  vector_db, csv, certified, CertificationReport, IngestJob, database_registry, persistence, routed,
}
use bhiv_masterdb_ingestion.Targets.Recorded.{Ends, ingest_ends, ingest_again, ingest_conflict}
use bhiv_masterdb_ingestion.Targets.Gate.{MayIngest, StandsBehind, execute_ingest-StandsBehind}
use bhiv_masterdb_ingestion.Targets.Advance.{UploadsFollow, ingest-UploadsFollow}

abbrev outside : Outside
outside = record {
  sha256_hex = λ c. c;
  strip = λ k. k;
  certify = λ d p. none;
  load_dataset = λ p content. some content;
  reference = λ t d. d;
  certify_files = λ d. d ∷ [];
  dataset_files = λ d. d ∷ [];
  package_for = λ d. d;
}

abbrev certificate : CertificationReport
certificate = record { state = certified; eligible_for_masterdb = true; integrity_score = some 90 }

abbrev router : Router
router = record {
  reports = (5, certificate) ∷ [];
  jobs = [];
  idempotency = [];
  targets = [];
  has_certification_service = false;
  uploads = none;
  dataset_dir = (5, 11 ∷ 12 ∷ []) ∷ [];
}

abbrev request : Key → Key → IngestRequest
request dataset job_id = record {
  dataset_id = dataset;
  target_database = vector_db;
  source_format = csv;
  actor = 1;
  roles = codes "ingest:vectordb" ∷ [];
  package_id = none;
  metadata = none;
  upload_id = none;
  trace_id = none;
  idempotency_key = some 3;
  fresh_trace = codes "f";
  fresh_job = job_id;
  now = 100;
  target_raises = false;
}

abbrev job : IngestJob
job =
    final_job outside (request 5 21) router
      (rbac_step (request 5 21)
        ∷ format_step (request 5 21)
        ∷ gate_step (request 5 21) (some certificate)
        ∷ step persistence true 100
        ∷ step routed true 100
        ∷ [])
      none (some certified) (some 90) (some (with_target none 5 2))

abbrev after : Router
after =
    remember outside (request 5 21) job
      (record (persist_target outside (request 5 21) (11 ∷ 12 ∷ []) router) {
        jobs = (21, job) ∷ [];
      })

first_call : ingest outside (request 5 21) router ≡ (ok job, after)
unfolding ingest resolved_trace database_registry
first_call = refl

key_of : resolved_key outside (request 5 21) ≡ some 3
unfolding resolved_key
key_of = refl

key_again : resolved_key outside (request 5 22) ≡ some 3
unfolding resolved_key
key_again = refl

key_other : resolved_key outside (request 6 23) ≡ some 3
unfolding resolved_key
key_other = refl

ingest_ends_example : Ends outside (request 5 21) router
ingest_ends_example = ingest_ends outside (request 5 21) router

ingest_again_example : ingest outside (request 5 22) after ≡ (ok job, after)
ingest_again_example =
    ingest_again outside (request 5 21) (request 5 22) router after 3 job key_of key_again refl refl
      refl first_call

apart : ◌≢◌ {A = ℕ} 6 5
apart h = ground arith

ingest_conflict_example : ingest outside (request 6 23) after ≡ (err idempotency_conflict, after)
ingest_conflict_example =
    ingest_conflict outside (request 5 21) (request 6 23) router after 3 job key_of key_other apart
      refl first_call

executed : execute_ingest outside (request 5 21) router ≡ (ok job, after)
unfolding execute_ingest resolved_trace resolved_key database_registry
executed = refl

execute_ingest-StandsBehind_example :
    MayIngest outside (request 5 21)
    × StandsBehind outside (request 5 21) (load_report outside router (request 5 21)).1 after
execute_ingest-StandsBehind_example =
    execute_ingest-StandsBehind outside (request 5 21) router after job executed refl

ingest-UploadsFollow_example :
    UploadsFollow router.uploads (ingest outside (request 5 21) router).1.uploads
ingest-UploadsFollow_example = ingest-UploadsFollow outside (request 5 21) router tt

-- ===== src/Bcaes/Convergence.antt =====
-- bcaes_registry/convergence_models.py, convergence_store.py and snapshot.py: the declared state of
-- each object, and the snapshot over the registry. A request holds `none` for a field that its body
-- does not set. A score is in ten-thousandths: `round(complete / 7, 4)` has four decimals and no ties.
-- The average of the scores, a float, is not modelled.
pub mod Merge
use bhiv_masterdb_ingestion.Prelude.{
  ℕ, zero, suc, ◌+◌, ◌*◌, Bool, true, false, not, Option, none, some, List, [], ◌∷◌, Key, map,
  length, elem, Result, ok, err, if◌then◌else◌,
}
use bhiv_masterdb_ingestion.Prelude.Dict.{Dict, get, put, values}
use bhiv_masterdb_ingestion.Prelude.Sort.{sorted}
use Prim.Native.Nat.{◌/◌}
use bhiv_masterdb_ingestion.Bcaes.Models.{RegistryType, RegistryObject}
use bhiv_masterdb_ingestion.Bcaes.Store.{
  RegistryError, object_not_found, CanonicalRegistryStore, get_by_id, all_objects, objects_of,
}
use bhiv_masterdb_ingestion.Bcaes.Graph.{dedup}
use bhiv_masterdb_ingestion.Bcaes.Validators.{
  Check, CheckReport, ArchitectureReport, run_architecture_validation,
}
use bhiv_masterdb_ingestion.Bcaes.Service.{registry_summary}

pub data ConvergenceStatus : Type 0 where
  not_started in_progress complete : ConvergenceStatus

pub record ConvergenceUpdateRequest : Type 0 where
  pub integration_status : Option ConvergenceStatus
  pub sdk_adoption : Option ConvergenceStatus
  pub replay_status : Option ConvergenceStatus
  pub observability_status : Option ConvergenceStatus
  pub evidence_status : Option ConvergenceStatus
  pub governance_status : Option ConvergenceStatus
  pub production_readiness : Option ConvergenceStatus
  pub remaining_work : Option (List Key)
  pub note : Option (Option Key)

pub record ConvergenceRecord : Type 0 where
  pub integration_status : ConvergenceStatus
  pub sdk_adoption : ConvergenceStatus
  pub replay_status : ConvergenceStatus
  pub observability_status : ConvergenceStatus
  pub evidence_status : ConvergenceStatus
  pub governance_status : ConvergenceStatus
  pub production_readiness : ConvergenceStatus
  pub object_id : Key
  pub remaining_work : List Key
  pub note : Option Key
  pub updated_at : Key

abbrev pub is_complete : ConvergenceStatus → ℕ
is_complete complete = 1
is_complete _ = 0

abbrev pub complete_count : ConvergenceRecord → ℕ
complete_count r =
    is_complete r.integration_status
    + is_complete r.sdk_adoption
    + is_complete r.replay_status
    + is_complete r.observability_status
    + is_complete r.evidence_status
    + is_complete r.governance_status
    + is_complete r.production_readiness

unfoldable pub maturity_score : ConvergenceRecord → ℕ
maturity_score r = (20_000 * complete_count r + 7) / 14

-- `ConvergenceRecord(object_id=object_id)`
abbrev pub blank : Key → Key → ConvergenceRecord
blank object_id now = record {
  integration_status = not_started;
  sdk_adoption = not_started;
  replay_status = not_started;
  observability_status = not_started;
  evidence_status = not_started;
  governance_status = not_started;
  production_readiness = not_started;
  object_id = object_id;
  remaining_work = [];
  note = none;
  updated_at = now;
}

abbrev pub set_or {ℓ} : {A : Type ℓ} → Option A → A → A
set_or none old = old
set_or (some new) old = new

-- The loop over `request.model_dump(exclude_unset=True)`, and the two fields written after it.
unfoldable pub merge : Key → ConvergenceUpdateRequest → Key → ConvergenceRecord → ConvergenceRecord
merge object_id request now old = record {
  integration_status = set_or request.integration_status old.integration_status;
  sdk_adoption = set_or request.sdk_adoption old.sdk_adoption;
  replay_status = set_or request.replay_status old.replay_status;
  observability_status = set_or request.observability_status old.observability_status;
  evidence_status = set_or request.evidence_status old.evidence_status;
  governance_status = set_or request.governance_status old.governance_status;
  production_readiness = set_or request.production_readiness old.production_readiness;
  object_id = object_id;
  remaining_work = set_or request.remaining_work old.remaining_work;
  note = set_or request.note old.note;
  updated_at = now;
}

-- `ConvergenceStore._records`, beside the registry that it asks.
abbrev pub Records : Type 0
Records = Dict ConvergenceRecord

unfoldable pub upsert :
    CanonicalRegistryStore
    → Records
    → Key
    → ConvergenceUpdateRequest
    → Key
    → Result RegistryError ConvergenceRecord × Records
unfolding merge
upsert s records object_id request now = elim (get_by_id s object_id) [
  | err e ↦ (err e, records)
  | ok _ ↦
      let old = set_or (get object_id records) (blank object_id now) in
      let new = merge object_id request now old in (ok new, put object_id new records)
]

unfoldable pub get_record : Records → Key → Result RegistryError ConvergenceRecord
get_record records object_id = elim (get object_id records) [
  | none ↦ err (object_not_found object_id)
  | some r ↦ ok r
]

abbrev pub all_records : Records → List ConvergenceRecord
all_records records = values records

pub record ConvergenceOverview : Type 0 where
  pub objects_registered : ℕ
  pub objects_with_convergence_data : ℕ
  pub objects_without_convergence_data : ℕ
  pub untracked_object_ids : List Key
  pub production_ready_count : ℕ

pub record Snapshot : Type 0 where
  pub registries : List (RegistryType × ℕ)
  pub total_objects : ℕ
  pub passed : Bool
  pub replay_hash : Key
  pub failing_checks : List Check
  pub convergence : ConvergenceOverview

abbrev pub failing : List CheckReport → List Check
failing [] = []
failing (r ∷ rs) = if r.passed then failing rs else r.check ∷ failing rs

-- `all_object_ids - tracked_object_ids`
unfoldable pub missing_from : List Key → List Key → List Key
missing_from tracked [] = []
missing_from tracked (k ∷ ks) =
    let rest = missing_from tracked ks in if elem k tracked then rest else k ∷ rest

abbrev pub ready_count : List ConvergenceRecord → ℕ
ready_count [] = 0
ready_count (r ∷ rs) = is_complete r.production_readiness + ready_count rs

unfoldable pub generate_snapshot :
    (Bool → List CheckReport → ℕ → Key) → CanonicalRegistryStore → Records → Snapshot
unfolding dedup missing_from objects_of
generate_snapshot sha256_json s records =
    let architecture = run_architecture_validation sha256_json s in
    let tracked = map (λ (r : ConvergenceRecord). r.object_id) (all_records records) in
    let all_object_ids = dedup [] (map (λ (o : RegistryObject). o.id) (all_objects s)) in
    let untracked = sorted (missing_from tracked all_object_ids) in
    record {
      registries = registry_summary s;
      total_objects = length all_object_ids;
      passed = architecture.passed;
      replay_hash = architecture.replay_hash;
      failing_checks = failing architecture.checks;
      convergence = record {
        objects_registered = length all_object_ids;
        objects_with_convergence_data = length (all_records records);
        objects_without_convergence_data = length untracked;
        untracked_object_ids = untracked;
        production_ready_count = ready_count (all_records records);
      };
    }

-- ===== src/Bcaes/Tests.antt =====
-- Runs of the registry, and the theorems at concrete inputs.
use bhiv_masterdb_ingestion.Prelude.{
  ◌≡◌, refl, ◌⊎◌, ◌↔◌, ◌≢◌, true, false, none, some, List, [], ◌∷◌, Key, elem, ok, err, ◌==◌,
  if◌then◌else◌,
}
use bhiv_masterdb_ingestion.Prelude.Text.{Text, codes}
use bhiv_masterdb_ingestion.Prelude.Dict.{Dict, get}
use bhiv_masterdb_ingestion.Bcaes.Models.{
  RegistryType, same_type, capability, product, draft, DependencyRef, RegisterObjectRequest,
  UpdateObjectRequest, RegistryObject,
}
use bhiv_masterdb_ingestion.Bcaes.Store.{
  CanonicalRegistryStore, RegistryError, get_by_id, new_object, new_store, delete,
  reload_from_persistent_store,
}
use bhiv_masterdb_ingestion.Bcaes.Graph.{TransitiveDependencies, transitive_dependencies}
use bhiv_masterdb_ingestion.Bcaes.Graph.Walk.{Reaches}
use bhiv_masterdb_ingestion.Bcaes.Graph.Reach.{transitive_dependencies-Reaches}
use bhiv_masterdb_ingestion.Bcaes.Validators.{
  run_architecture_validation, validate_dependency_integrity,
}
use bhiv_masterdb_ingestion.Bcaes.Validators.Sound.{IsSound, run_architecture_validation-IsSound}
use bhiv_masterdb_ingestion.Bcaes.Service.{
  Call, registering, updating, deleting, admin_role, run, run_all,
}
use bhiv_masterdb_ingestion.Bcaes.Service.Access.{MayRun, run-MayRun}
use bhiv_masterdb_ingestion.Bcaes.Service.Kept.{run_all-dependency_integrity, run_all-reload}
use bhiv_masterdb_ingestion.Bcaes.Convergence.{
  complete, ConvergenceUpdateRequest, ConvergenceRecord, upsert,
}
use bhiv_masterdb_ingestion.Bcaes.Convergence.Merge.{IsPatch, upsert_branches}

abbrev on : Key → DependencyRef
on k = record { id = k; required_version = none }

abbrev request : Text → List DependencyRef → RegisterObjectRequest
request name deps = record {
  name = name;
  purpose = codes "p";
  owner = codes "team";
  status = draft;
  version = codes "1.0";
  authority_boundaries = codes "team" ∷ [];
  dependencies = deps;
  links = [];
}

-- The objects 1 and 2 depend on each other, and 2 on the missing 7.
abbrev first_object : RegistryObject
first_object = new_object capability 1 (request (codes "a") (on 2 ∷ [])) 100

abbrev second_object : RegistryObject
second_object = new_object product 2 (request (codes "b") (on 1 ∷ on 7 ∷ [])) 100

abbrev buckets : RegistryType → Dict RegistryObject
buckets capability = (1, first_object) ∷ []
buckets product = (2, second_object) ∷ []
buckets _ = []

-- The same without the missing dependency.
abbrev tidy : RegistryType → Dict RegistryObject
tidy capability = (1, first_object) ∷ []
tidy product = (2, new_object product 2 (request (codes "b") (on 1 ∷ [])) 100) ∷ []
tidy _ = []

abbrev sample : CanonicalRegistryStore
sample = record { objects = buckets; artifact_store = none }

found : get_by_id sample 1 ≡ ok first_object
unfolding get_by_id
found = refl

cycle_run :
    transitive_dependencies sample 1
    ≡ some (
        ok (record {
          id = 1;
          transitive_dependencies = 2 ∷ 7 ∷ [];
          depth = 2;
          cycles_detected = (1 ∷ 2 ∷ 1 ∷ []) ∷ [];
        }))
unfolding transitive_dependencies get_by_id
cycle_run = refl

transitive_dependencies-Reaches_example :
    (r : TransitiveDependencies) × (transitive_dependencies sample 1 ≡ some (ok r))
    × ((v : Key) → (elem v r.transitive_dependencies ≡ true) ↔ Reaches sample 1 v × (v ≢ 1))
transitive_dependencies-Reaches_example =
    transitive_dependencies-Reaches sample 1 first_object found

run_architecture_validation-IsSound_example :
    ((run_architecture_validation (λ _ _ _. 0) sample).passed ≡ true) ↔ IsSound sample
run_architecture_validation-IsSound_example =
    run_architecture_validation-IsSound (λ _ _ _. 0) sample

abbrev removal : Call
removal = deleting product 2 (some (codes "guest")) none

run-MayRun_example : (run sample removal ≡ sample) ⊎ MayRun sample removal
run-MayRun_example = run-MayRun sample removal

abbrev no_change : UpdateObjectRequest
no_change = record {
  name = some (codes "c");
  purpose = none;
  owner = none;
  status = none;
  version = none;
  authority_boundaries = none;
  dependencies = some (on 1 ∷ []);
  links = none;
}

abbrev calls : List Call
calls =
    registering capability (request (codes "a") []) (some (codes "root")) (some (admin_role ∷ [])) 1
      100
    ∷ updating capability 1 no_change (some (codes "team")) none 101
    ∷ []

-- A deletion can leave a dependency without its object.
delete_dangling :
    (validate_dependency_integrity (delete (record sample { objects = tidy }) product 2).1).passed
    ≡ false
unfolding validate_dependency_integrity delete same_type
delete_dangling = refl

empty_passes : (validate_dependency_integrity (new_store (some []))).passed ≡ true
unfolding validate_dependency_integrity
empty_passes = refl

run_all-dependency_integrity_example :
    (validate_dependency_integrity (run_all (new_store (some [])) calls)).passed ≡ true
run_all-dependency_integrity_example =
    run_all-dependency_integrity (new_store (some [])) calls (tt, (tt, tt)) empty_passes

run_all-reload_example :
    get 1 ((reload_from_persistent_store (run_all (new_store (some [])) calls)).objects capability)
    ≡ get 1 ((run_all (new_store (some [])) calls).objects capability)
run_all-reload_example = run_all-reload calls capability 1 ((λ u. refl), (tt, tt))

abbrev patch : ConvergenceUpdateRequest
patch = record {
  integration_status = none;
  sdk_adoption = none;
  replay_status = none;
  observability_status = none;
  evidence_status = none;
  governance_status = some complete;
  production_readiness = none;
  remaining_work = none;
  note = none;
}

-- Of two objects, the update of the first.
upsert_branches_example :
    let call = upsert sample [] 1 patch 100 in
    ((e : RegistryError) × (get_by_id sample 1 ≡ err e) × (call ≡ (err e, [])))
    ⊎ ((o : RegistryObject) × (new : ConvergenceRecord) × (get_by_id sample 1 ≡ ok o)
        × (call.0 ≡ ok new)
        × IsPatch (get 1 []) 1 patch 100 new
        × (get 2 call.1 ≡ (if 1 == 2 then some new else get 2 [])))
upsert_branches_example = upsert_branches sample [] 1 patch 100 2

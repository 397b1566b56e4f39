-- ===== src/Packages.antt =====
-- services/package_registry_service.py: `PackageRegistryService`. The store keeps each package as
-- one JSON file under its id; here it is the dictionary of the packages that the files hold. Fresh
-- ids and the clock's readings are inputs. The report service is a parameter.
pub mod Replay
pub mod Models
pub mod Trail
pub mod Audited
pub mod Listing
mod Tests
pub use Models.*
use bhiv_masterdb_ingestion.Prelude.{
  ℕ, ◌+◌, Bool, true, false, not, ◌&&◌, ◌||◌, Option, none, some, List, [], ◌∷◌, ◌++◌, Key, Result,
  ok, err, ltb, leb, length, truthy, is_some, if◌then◌else◌, ◌==◌,
}
use bhiv_masterdb_ingestion.Prelude.Dict.{Dict, get, put}
use bhiv_masterdb_ingestion.Lifecycle.{
  PackageStatus, registered, certified, retrieval_ready, deprecated, package_lifecycle_graph, same,
  among,
}

pub data RegistryError : Type 0 where
  attribute_error : RegistryError
  package_not_found package_already_exists : Key → RegistryError
  -- package, from, to
  invalid_transition : Key → PackageStatus → PackageStatus → RegistryError
  failed_certification : Key → PackageStatus → RegistryError
  illegal_hop : Key → RegistryError
  -- stored, replayed
  replay_mismatch : PackageStatus → Option PackageStatus → RegistryError

abbrev pub Registry : Type 0
Registry = Dict KnowledgePackage

-- What one call draws: ids, and readings of the clock.
pub record Fresh : Type 0 where
  pub package_id : Key
  pub transition_id : Key
  pub created_at : Key
  pub updated_at : Key
  pub timestamp : Key

-- The entry "ingestion_decision" of a report: none, null, or a decision, in which
-- "eligible_for_masterdb" may be missing.
pub data IngestionDecision : Type 0 where
  no_entry null : IngestionDecision
  decided : Option Bool → IngestionDecision

-- What `promote` reads of a report: whether its state is REJECTED, and the decision.
pub record Report : Type 0 where
  pub is_rejected : Bool
  pub ingestion_decision : IngestionDecision

-- `get_report` of a report service, which raises a KeyError for a dataset without a report.
abbrev pub ReportService : Type 0
ReportService = Key → Option Report

abbrev new_transition : Option PackageStatus → PackageStatus → Key → Key → Fresh → PackageTransition
new_transition from_status to_status reason actor fresh = record {
  transition_id = fresh.transition_id;
  from_status = from_status;
  to_status = to_status;
  reason = reason;
  actor = actor;
  timestamp = fresh.timestamp;
  expires_at = none;
}

-- `KnowledgePackage(...)` with its root transition
abbrev pub new_package : Key → PackageRegisterRequest → Fresh → KnowledgePackage
new_package id r fresh = record {
  package_id = id;
  dataset_id = r.dataset_id;
  dataset_version = r.dataset_version;
  schema_version = r.schema_version;
  board = r.board;
  medium = r.medium;
  language = r.language;
  owner = r.owner;
  created_at = fresh.created_at;
  updated_at = fresh.updated_at;
  status = registered;
  history = new_transition none registered r.reason r.actor fresh ∷ [];
}

abbrev pub save : KnowledgePackage → Registry → Result RegistryError KnowledgePackage × Registry
save p r = (ok p, put p.package_id p r)

-- The id that the request names, if it is not empty.
abbrev pub named : Option Key → Option Key
named none = none
named (some k) = if truthy k then some k else none

unfoldable pub register :
    Registry → PackageRegisterRequest → Fresh → Result RegistryError KnowledgePackage × Registry
register r request fresh = elim (named request.package_id) [
  | none ↦ save (new_package fresh.package_id request fresh) r
  | some id ↦
      if is_some (get id r)
      then (err (package_already_exists id), r)
      else save (new_package id request fresh) r
]

-- `ingestion_decision` is not eligible, or is null, which has no `get`.
abbrev is_ineligible : IngestionDecision → Bool
is_ineligible no_entry = false
is_ineligible null = true
is_ineligible (decided none) = false
is_ineligible (decided (some eligible)) = not eligible

-- A certifying transition of a dataset that is reported as rejected or as not eligible.
abbrev pub report_blocks : Option Report → Bool
report_blocks none = false
report_blocks (some report) = report.is_rejected || is_ineligible report.ingestion_decision

abbrev pub blocked : Option ReportService → Key → PackageStatus → Bool
blocked none dataset_id to_status = false
blocked (some get_report) dataset_id to_status =
    (same to_status certified || same to_status retrieval_ready)
    && report_blocks (get_report dataset_id)

abbrev decision_error : Key → PackageStatus → IngestionDecision → RegistryError
decision_error id to_status null = attribute_error
decision_error id to_status _ = failed_certification id to_status

-- What a blocked transition raises: the null is looked into only where the state is not REJECTED.
abbrev pub report_error : Option Report → Key → PackageStatus → RegistryError
report_error none id to_status = failed_certification id to_status
report_error (some report) id to_status =
    if report.is_rejected
    then failed_certification id to_status
    else decision_error id to_status report.ingestion_decision

abbrev pub blocked_error : Option ReportService → Key → Key → PackageStatus → RegistryError
blocked_error none dataset_id id to_status = failed_certification id to_status
blocked_error (some get_report) dataset_id id to_status =
    report_error (get_report dataset_id) id to_status

abbrev pub promoted : KnowledgePackage → PackageStatus → Key → Key → Fresh → KnowledgePackage
promoted p to_status actor reason fresh = record p {
  status = to_status;
  updated_at = fresh.updated_at;
  history = p.history ++ new_transition (some p.status) to_status reason actor fresh ∷ [];
}

unfoldable pub promote :
    Option ReportService
    → Registry
    → Key
    → PackageStatus
    → Key
    → Key
    → Fresh
    → Result RegistryError KnowledgePackage × Registry
promote service r id to_status actor reason fresh = elim (get id r) [
  | none ↦ (err (package_not_found id), r)
  | some p ↦
      if not (among to_status (package_lifecycle_graph p.status))
      then (err (invalid_transition id p.status to_status), r)
      else if blocked service p.dataset_id to_status
      then (err (blocked_error service p.dataset_id id to_status), r)
      else save (promoted p to_status actor reason fresh) r
]

unfoldable pub deprecate :
    Option ReportService
    → Registry
    → Key
    → Key
    → Key
    → Fresh
    → Result RegistryError KnowledgePackage × Registry
unfolding promote
deprecate service r id actor reason fresh = promote service r id deprecated actor reason fresh

-- `list_all` reads the files in the order of their names.
abbrev pub insert_package : Key → KnowledgePackage → Dict KnowledgePackage → Dict KnowledgePackage
insert_package k p [] = (k, p) ∷ []
insert_package k p ((j, q) ∷ r) =
    if leb k j then (k, p) ∷ (j, q) ∷ r else (j, q) ∷ insert_package k p r

abbrev pub by_name : Registry → Registry
by_name [] = []
by_name ((k, p) ∷ r) = insert_package k p (by_name r)

abbrev pub packages : Dict KnowledgePackage → List KnowledgePackage
packages [] = []
packages ((_, p) ∷ r) = p ∷ packages r

abbrev pub list_all : Registry → List KnowledgePackage
list_all r = packages (by_name r)

-- The latest of the matches; of equal ones the first. The class defines `get_by_dataset_id` twice,
-- and the second definition is the one in force.
abbrev latest : Key → Option KnowledgePackage → List KnowledgePackage → Option KnowledgePackage
latest dataset_id best [] = best
latest dataset_id best (p ∷ ps) =
    if p.dataset_id == dataset_id
    then latest dataset_id
        (elim best [
          | none ↦ some p
          | some b ↦ if ltb b.created_at p.created_at then some p else some b
        ])
        ps
    else latest dataset_id best ps

unfoldable pub get_by_dataset_id : Registry → Key → Result RegistryError KnowledgePackage
get_by_dataset_id r dataset_id = elim (latest dataset_id none (list_all r)) [
  | none ↦ err (package_not_found dataset_id)
  | some p ↦ ok p
]

-- ===== src/Bcaes/Validators.antt =====
-- bcaes_registry/validators.py: the six checks and the report over them. A check's report names the
-- check by its place in `CHECKS`. The digest of the report is an argument: what SHA-256 makes of its
-- JSON text.
pub mod Names
pub mod Sound
use bhiv_masterdb_ingestion.Prelude.{
  ℕ, zero, suc, ◌≤◌, Bool, true, false, not, Option, none, some, List, [], ◌∷◌, ◌++◌, Key, ◌==◌,
  leb, ltb, elem, length, Result, ok, err, if◌then◌else◌, ◌||◌, ◌&&◌,
}
use bhiv_masterdb_ingestion.Prelude.Sort.{sorted}
use bhiv_masterdb_ingestion.Prelude.Text.{
  Text, same_text, elem_text, lower, strip, is_empty, occurs_in,
}
use bhiv_masterdb_ingestion.Versions.{Negotiation, negotiate_version}
use bhiv_masterdb_ingestion.Bcaes.Models.{
  RegistryType, capability, same_type, DependencyRef, RegistryObject,
}
use bhiv_masterdb_ingestion.Bcaes.Store.{
  CanonicalRegistryStore, get_by_id, all_objects, objects_of, list_registry,
}

pub data Violation : Type 0 where
  wrong_classification : Key → RegistryType → RegistryType → Violation
  duplicate_id missing_owner missing_authority_boundaries : Key → Violation
  duplicate_name : RegistryType → Text → List Key → Violation
  cross_owner_dependency : Key → Text → Key → Text → Violation
  incompatible_version : Key → Key → Text → Text → Negotiation → Violation
  unresolved_dependency : Key → Key → Violation

pub data Check : Type 0 where
  classification duplicates ownership authority_boundaries version_compatibility
        dependency_integrity :
      Check

pub record CheckReport : Type 0 where
  pub check : Check
  pub passed : Bool
  pub violations : List Violation

-- `not violations`
abbrev pub no_violations : List Violation → Bool
no_violations [] = true
no_violations (v ∷ vs) = false

abbrev pub check_report : Check → List Violation → CheckReport
check_report c vs = record { check = c; passed = no_violations vs; violations = vs }

-- The violations that `found` makes of each object, in order.
unfoldable pub each : {A : Type 0} → (A → List Violation) → List A → List Violation
each found [] = []
each found (o ∷ os) = found o ++ each found os

abbrev pub classification_violations : RegistryObject → List Violation
classification_violations o =
    if same_type o.classification o.registry_type
    then []
    else wrong_classification o.id o.registry_type o.classification ∷ []

unfoldable pub validate_classification : CanonicalRegistryStore → CheckReport
unfolding each objects_of
validate_classification s =
    check_report classification (each classification_violations (all_objects s))

-- `seen_ids`
unfoldable pub duplicate_ids : List Key → List RegistryObject → List Violation
duplicate_ids seen [] = []
duplicate_ids seen (o ∷ os) =
    let rest = duplicate_ids (o.id ∷ seen) os in
    if elem o.id seen then duplicate_id o.id ∷ rest else rest

abbrev pub NameGroups : Type 0
NameGroups = List (Text × List Key)

-- `.setdefault(key, []).append(o.id)`
unfoldable pub add_name : Text → Key → NameGroups → NameGroups
add_name n id [] = (n, id ∷ []) ∷ []
add_name n id ((m, group) ∷ groups) =
    if same_text m n then (m, group ++ id ∷ []) ∷ groups else (m, group) ∷ add_name n id groups

abbrev pub normal_name : RegistryObject → Text
normal_name o = lower (strip o.name)

-- `by_registry.setdefault(o.registry_type.value, {})`
unfoldable pub add_object :
    RegistryObject → List (RegistryType × NameGroups) → List (RegistryType × NameGroups)
unfolding add_name
add_object o [] = (o.registry_type, add_name (normal_name o) o.id []) ∷ []
add_object o ((t, names) ∷ registries) =
    if same_type t o.registry_type
    then (t, add_name (normal_name o) o.id names) ∷ registries
    else (t, names) ∷ add_object o registries

unfoldable pub group_names :
    List RegistryObject → List (RegistryType × NameGroups) → List (RegistryType × NameGroups)
unfolding add_object
group_names [] registries = registries
group_names (o ∷ os) registries = group_names os (add_object o registries)

unfoldable pub name_violations : RegistryType → NameGroups → List Violation
name_violations t [] = []
name_violations t ((n, group) ∷ groups) =
    let rest = name_violations t groups in
    if ltb 1 (length group) then duplicate_name t n (sorted group) ∷ rest else rest

unfoldable pub registry_violations : List (RegistryType × NameGroups) → List Violation
unfolding name_violations
registry_violations [] = []
registry_violations ((t, names) ∷ registries) =
    name_violations t names ++ registry_violations registries

unfoldable pub detect_duplicates : CanonicalRegistryStore → CheckReport
unfolding duplicate_ids group_names registry_violations objects_of
detect_duplicates s =
    let os = all_objects s in
    check_report duplicates (duplicate_ids [] os ++ registry_violations (group_names os []))

abbrev pub is_nil {ℓ} : {A : Type ℓ} → List A → Bool
is_nil [] = true
is_nil (x ∷ xs) = false

abbrev pub ownership_violations : RegistryObject → List Violation
ownership_violations o =
    (if is_empty o.owner || is_empty (strip o.owner) then missing_owner o.id ∷ [] else [])
    ++ (if is_nil o.authority_boundaries then missing_authority_boundaries o.id ∷ [] else [])

unfoldable pub validate_ownership : CanonicalRegistryStore → CheckReport
unfolding each objects_of
validate_ownership s = check_report ownership (each ownership_violations (all_objects s))

unfoldable pub authority_violations :
    CanonicalRegistryStore → RegistryObject → DependencyRef → List Violation
unfolding get_by_id
authority_violations s o d = elim (get_by_id s d.id) [
  | err _ ↦ []
  | ok p ↦
      if not (same_text p.owner o.owner) && not (elem_text p.owner o.authority_boundaries)
      then cross_owner_dependency o.id o.owner d.id p.owner ∷ []
      else []
]

unfoldable pub validate_authority_boundaries : CanonicalRegistryStore → CheckReport
unfolding each authority_violations objects_of
validate_authority_boundaries s =
    check_report authority_boundaries
      (each (λ o. each (authority_violations s o) o.dependencies) (all_objects s))

-- The version that an edge pins, if that is not empty.
abbrev pub pinned : DependencyRef → Option Text
pinned d = elim d.required_version [ none ↦ none | some v ↦ if is_empty v then none else some v ]

unfoldable pub version_violations :
    CanonicalRegistryStore → RegistryObject → DependencyRef → List Violation
unfolding get_by_id negotiate_version
version_violations s o d = elim (pinned d) [
  | none ↦ []
  | some required ↦ elim (get_by_id s d.id) [
    | err _ ↦ []
    | ok p ↦
        let result = negotiate_version required p.version in
        if result.compatible
        then []
        else incompatible_version o.id d.id required p.version result.negotiation ∷ []
  ]
]

unfoldable pub validate_version_compatibility : CanonicalRegistryStore → CheckReport
unfolding each version_violations objects_of
validate_version_compatibility s =
    check_report version_compatibility
      (each (λ o. each (version_violations s o) o.dependencies) (all_objects s))

unfoldable pub integrity_violations :
    CanonicalRegistryStore → RegistryObject → DependencyRef → List Violation
unfolding get_by_id
integrity_violations s o d = elim (get_by_id s d.id) [
  | ok _ ↦ []
  | err _ ↦ unresolved_dependency o.id d.id ∷ []
]

unfoldable pub validate_dependency_integrity : CanonicalRegistryStore → CheckReport
unfolding each integrity_violations objects_of
validate_dependency_integrity s =
    check_report dependency_integrity
      (each (λ o. each (integrity_violations s o) o.dependencies) (all_objects s))

pub record ReuseReport : Type 0 where
  pub query : Text
  pub exact_matches : List Key
  pub similar_matches : List Key
  pub reuse_recommended : Bool

unfoldable pub exact_ids : Text → List RegistryObject → List Key
exact_ids q [] = []
exact_ids q (c ∷ cs) =
    let rest = exact_ids q cs in if same_text (normal_name c) q then c.id ∷ rest else rest

unfoldable pub similar_ids : Text → List Key → List RegistryObject → List Key
similar_ids q exact [] = []
similar_ids q exact (c ∷ cs) =
    let rest = similar_ids q exact cs in
    if not (elem c.id exact) && (occurs_in q (lower c.name) || occurs_in (lower c.name) q)
    then c.id ∷ rest
    else rest

unfoldable pub capability_reuse_check : CanonicalRegistryStore → Text → ReuseReport
unfolding exact_ids similar_ids
capability_reuse_check s name =
    let q = lower (strip name) in
    let capabilities = list_registry s capability in
    let exact = exact_ids q capabilities in
    let similar = similar_ids q exact capabilities in
    record {
      query = name;
      exact_matches = exact;
      similar_matches = similar;
      reuse_recommended = not (is_nil exact) || not (is_nil similar);
    }

-- `CHECKS`, run on the store.
abbrev pub run_checks : CanonicalRegistryStore → List CheckReport
run_checks s =
    validate_classification s
    ∷ detect_duplicates s
    ∷ validate_ownership s
    ∷ validate_authority_boundaries s
    ∷ validate_version_compatibility s
    ∷ validate_dependency_integrity s
    ∷ []

abbrev pub all_passed : List CheckReport → Bool
all_passed [] = true
all_passed (r ∷ rs) = r.passed && all_passed rs

pub record ArchitectureReport : Type 0 where
  pub passed : Bool
  pub checks : List CheckReport
  pub object_count : ℕ
  pub replay_hash : Key

unfoldable pub run_architecture_validation :
    (Bool → List CheckReport → ℕ → Key) → CanonicalRegistryStore → ArchitectureReport
run_architecture_validation sha256_json s =
    let results = run_checks s in
    let passed = all_passed results in
    let count = length (all_objects s) in
    record {
      passed = passed;
      checks = results;
      object_count = count;
      replay_hash = sha256_json passed results count;
    }

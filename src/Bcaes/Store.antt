-- ===== src/Bcaes/Store.antt =====
-- bcaes_registry/store.py: one dictionary for each registry, and the directory that mirrors them. The
-- id that `new_object_id` draws and the time of the call are arguments. A record on disk is the object
-- that `RegistryObject(**record)` reads back. All ids have one length, so the order of the file names
-- is that of the ids.
pub mod Registered
pub mod Written
pub mod Reload
pub mod Integrity
pub mod Mirror
use bhiv_masterdb_ingestion.Prelude.{
  ℕ, Bool, true, false, not, Option, none, some, List, [], ◌∷◌, ◌++◌, Key, ◌==◌, leb, Result, ok,
  err, if◌then◌else◌, ◌||◌, ◌&&◌,
}
use bhiv_masterdb_ingestion.Prelude.Text.{Text, codes, same_text, lower, occurs_in, is_empty}
use bhiv_masterdb_ingestion.Prelude.Dict.{Dict, get, put, remove, contains, values}
use bhiv_masterdb_ingestion.Prelude.Sort.{sorted}
use bhiv_masterdb_ingestion.Bcaes.Models.{
  RegistryType, registry_types, same_type, ObjectStatus, draft, active, deprecated, retired,
  DependencyRef, RegisterObjectRequest, UpdateObjectRequest, RegistryObject,
}

pub data RegistryError : Type 0 where
  object_not_found dependency_not_found : Key → RegistryError
  permission_denied : RegistryError

pub record CanonicalRegistryStore : Type 0 where
  pub objects : RegistryType → Dict RegistryObject
  pub artifact_store : Option (Dict RegistryObject)

-- `self._objects[registry_type] = bucket`
abbrev pub set_bucket :
    RegistryType → Dict RegistryObject → CanonicalRegistryStore → CanonicalRegistryStore
set_bucket t bucket s = record s { objects = λ u. if same_type t u then bucket else s.objects u }

insert_file : Key → RegistryObject → Dict RegistryObject → Dict RegistryObject
insert_file k o [] = (k, o) ∷ []
insert_file k o ((j, p) ∷ files) =
    if leb k j then (k, o) ∷ (j, p) ∷ files else (j, p) ∷ insert_file k o files

-- `ArtifactStore.list_all`: the records sorted by file name.
by_file_name : Dict RegistryObject → Dict RegistryObject
unfolding insert_file
by_file_name [] = []
by_file_name ((k, o) ∷ files) = insert_file k o (by_file_name files)

-- The loop of `reload_from_persistent_store`.
repopulate : List RegistryObject → CanonicalRegistryStore → CanonicalRegistryStore
repopulate [] s = s
repopulate (o ∷ os) s =
    repopulate os (set_bucket o.registry_type (put o.id o (s.objects o.registry_type)) s)

unfoldable pub reload_from_persistent_store : CanonicalRegistryStore → CanonicalRegistryStore
unfolding repopulate by_file_name
reload_from_persistent_store s = elim s.artifact_store [
  | none ↦ s
  | some files ↦ repopulate (values (by_file_name files)) (record s { objects = λ _. [] })
]

-- `__init__`
abbrev pub new_store : Option (Dict RegistryObject) → CanonicalRegistryStore
new_store files = record { objects = λ _. []; artifact_store = files }

pub persist : RegistryObject → CanonicalRegistryStore → CanonicalRegistryStore
persist o s = elim s.artifact_store [
  | none ↦ s
  | some files ↦ record s { artifact_store = some (put o.id o files) }
]

unpersist : Key → CanonicalRegistryStore → CanonicalRegistryStore
unpersist id s = elim s.artifact_store [
  | none ↦ s
  | some files ↦ record s { artifact_store = some (remove id files) }
]

unfoldable pub get_object :
    CanonicalRegistryStore → RegistryType → Key → Result RegistryError RegistryObject
get_object s t id = elim (get id (s.objects t)) [ none ↦ err (object_not_found id) | some o ↦ ok o ]

unfoldable pub first_found :
    CanonicalRegistryStore → Key → List RegistryType → Option RegistryObject
first_found s id [] = none
first_found s id (t ∷ ts) = elim (get id (s.objects t)) [
  | none ↦ first_found s id ts
  | some o ↦ some o
]

unfoldable pub get_by_id : CanonicalRegistryStore → Key → Result RegistryError RegistryObject
unfolding first_found
get_by_id s id = elim (first_found s id registry_types) [
  | none ↦ err (object_not_found id)
  | some o ↦ ok o
]

unfoldable pub objects_of : CanonicalRegistryStore → List RegistryType → List RegistryObject
objects_of s [] = []
objects_of s (t ∷ ts) = values (s.objects t) ++ objects_of s ts

abbrev pub all_objects : CanonicalRegistryStore → List RegistryObject
all_objects s = objects_of s registry_types

abbrev pub list_registry : CanonicalRegistryStore → RegistryType → List RegistryObject
list_registry s t = values (s.objects t)

-- `_exists`
unfoldable pub exists_id : CanonicalRegistryStore → Key → Bool
unfolding get_by_id
exists_id s id = elim (get_by_id s id) [ ok _ ↦ true | err _ ↦ false ]

-- The loop over the declared dependencies: the first id that is nowhere in the registries.
unfoldable pub missing_dependency : CanonicalRegistryStore → List DependencyRef → Option Key
unfolding exists_id
missing_dependency s [] = none
missing_dependency s (d ∷ ds) = if exists_id s d.id then missing_dependency s ds else some d.id

abbrev pub new_object : RegistryType → Key → RegisterObjectRequest → Key → RegistryObject
new_object t id request now = record {
  id = id;
  registry_type = t;
  classification = t;
  name = request.name;
  purpose = request.purpose;
  owner = request.owner;
  status = request.status;
  version = request.version;
  dependencies = request.dependencies;
  consumers = [];
  authority_boundaries = request.authority_boundaries;
  links = request.links;
  created_at = now;
  updated_at = now;
}

-- `self._objects[registry_type][object_id] = obj`, then `_persist(obj)`
write : RegistryType → RegistryObject → CanonicalRegistryStore → CanonicalRegistryStore
unfolding persist
write t o s = persist o (set_bucket t (put o.id o (s.objects t)) s)

unfoldable pub register :
    CanonicalRegistryStore
    → RegistryType
    → RegisterObjectRequest
    → Key
    → Key
    → Result RegistryError RegistryObject × CanonicalRegistryStore
unfolding missing_dependency write
register s t request id now = elim (missing_dependency s request.dependencies) [
  | some k ↦ (err (dependency_not_found k), s)
  | none ↦ let o = new_object t id request now in (ok o, write t o s)
]

abbrev pub or_else {ℓ} : {A : Type ℓ} → Option A → A → A
or_else none a = a
or_else (some b) a = b

abbrev pub updated_object : RegistryObject → UpdateObjectRequest → Key → RegistryObject
updated_object o request now = record o {
  name = or_else request.name o.name;
  purpose = or_else request.purpose o.purpose;
  owner = or_else request.owner o.owner;
  status = or_else request.status o.status;
  version = or_else request.version o.version;
  authority_boundaries = or_else request.authority_boundaries o.authority_boundaries;
  dependencies = or_else request.dependencies o.dependencies;
  links = or_else request.links o.links;
  updated_at = now;
}

-- The object is written back under the id it was looked up by, and persisted under its own.
unfoldable pub update :
    CanonicalRegistryStore
    → RegistryType
    → Key
    → UpdateObjectRequest
    → Key
    → Result RegistryError RegistryObject × CanonicalRegistryStore
unfolding get_object missing_dependency persist
update s t id request now = elim (get_object s t id) [
  | err e ↦ (err e, s)
  | ok o ↦ elim (missing_dependency s (or_else request.dependencies [])) [
    | some k ↦ (err (dependency_not_found k), s)
    | none ↦
        let new = updated_object o request now in
        (ok new, persist new (set_bucket t (put id new (s.objects t)) s))
  ]
]

unfoldable pub delete :
    CanonicalRegistryStore
    → RegistryType
    → Key
    → Result RegistryError (Unit {0}) × CanonicalRegistryStore
unfolding get_object unpersist
delete s t id = elim (get_object s t id) [
  | err e ↦ (err e, s)
  | ok _ ↦ (ok tt, unpersist id (set_bucket t (remove id (s.objects t)) s))
]

unfoldable pub depends_on : Key → List DependencyRef → Bool
depends_on id [] = false
depends_on id (d ∷ ds) = d.id == id || depends_on id ds

unfoldable pub consumer_ids : Key → List RegistryObject → List Key
unfolding depends_on
consumer_ids id [] = []
consumer_ids id (o ∷ os) =
    let rest = consumer_ids id os in if depends_on id o.dependencies then o.id ∷ rest else rest

unfoldable pub consumers_of : CanonicalRegistryStore → Key → List Key
unfolding consumer_ids objects_of
consumers_of s id = sorted (consumer_ids id (all_objects s))

unfoldable pub with_derived_consumers : CanonicalRegistryStore → RegistryObject → RegistryObject
unfolding consumers_of
with_derived_consumers s o = record o { consumers = consumers_of s o.id }

-- `ObjectStatus.value`
abbrev pub status_value : ObjectStatus → Text
status_value draft = codes "draft"
status_value active = codes "active"
status_value deprecated = codes "deprecated"
status_value retired = codes "retired"

-- A filter that is absent or an empty string keeps every object.
abbrev pub given : Option Text → (Text → Bool) → Bool
given none test = true
given (some v) test = is_empty v || test v

abbrev pub matches : Option Text → Option Text → Option Text → RegistryObject → Bool
matches query owner status o =
    given query (λ q. occurs_in (lower q) (lower o.name) || occurs_in (lower q) (lower o.purpose))
    && given owner (λ w. same_text (lower o.owner) (lower w))
    && given status (λ v. same_text (status_value o.status) v)

unfoldable pub matching : (RegistryObject → Bool) → List RegistryObject → List RegistryObject
matching test [] = []
matching test (o ∷ os) = let rest = matching test os in if test o then o ∷ rest else rest

unfoldable pub search_objects :
    CanonicalRegistryStore
    → Option Text
    → Option RegistryType
    → Option Text
    → Option Text
    → List RegistryObject
unfolding matching objects_of
search_objects s query registry_type owner status =
    matching (matches query owner status)
      (elim registry_type [ none ↦ all_objects s | some t ↦ list_registry s t ])

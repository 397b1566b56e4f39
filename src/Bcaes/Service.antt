-- ===== src/Bcaes/Service.antt =====
-- bcaes_registry/service.py: the registry behind its access control. The log line of each decision is
-- not modelled. The methods that only pass a call on to the store, the graph or the validators are
-- those functions themselves.
pub mod Kept
pub mod Access
use bhiv_masterdb_ingestion.Prelude.{
  ℕ, Bool, true, false, Option, none, some, List, [], ◌∷◌, Key, map, length, Result, ok, err,
  if◌then◌else◌, ◌||◌,
}
use bhiv_masterdb_ingestion.Prelude.Text.{Text, codes, same_text, elem_text}
use bhiv_masterdb_ingestion.Bcaes.Models.{
  RegistryType, registry_types, RegisterObjectRequest, UpdateObjectRequest, RegistryObject,
}
use bhiv_masterdb_ingestion.Bcaes.Store.{
  RegistryError, permission_denied, CanonicalRegistryStore, get_object, list_registry,
  search_objects, with_derived_consumers,
}
use bhiv_masterdb_ingestion.Bcaes.Store

-- `ADMIN_ROLE` of auth/constants.py
abbrev pub admin_role : Text
admin_role = codes "bhiv-admin"

-- `set(roles) & set(boundaries)` is not empty.
abbrev pub share : List Text → List Text → Bool
share [] boundaries = false
share (r ∷ roles) boundaries = elem_text r boundaries || share roles boundaries

-- `actor_roles or []`
abbrev pub given_roles : Option (List Text) → List Text
given_roles none = []
given_roles (some roles) = roles

unfoldable pub has_authority : Option Text → Option (List Text) → List Text → Bool
has_authority none actor_roles boundaries = false
has_authority (some actor) actor_roles boundaries =
    let roles = given_roles actor_roles in
    elem_text admin_role roles || (elem_text actor boundaries || share roles boundaries)

-- The answer of the store, with the consumers of the object filled in.
abbrev pub derived :
    Result RegistryError RegistryObject × CanonicalRegistryStore
    → Result RegistryError RegistryObject × CanonicalRegistryStore
derived (ok o, s) = (ok (with_derived_consumers s o), s)
derived (err e, s) = (err e, s)

unfoldable pub register :
    CanonicalRegistryStore
    → RegistryType
    → RegisterObjectRequest
    → Option Text
    → Option (List Text)
    → Key
    → Key
    → Result RegistryError RegistryObject × CanonicalRegistryStore
unfolding has_authority
register s t request actor actor_roles id now =
    if has_authority actor actor_roles request.authority_boundaries
    then derived (Store.register s t request id now)
    else (err permission_denied, s)

unfoldable pub update :
    CanonicalRegistryStore
    → RegistryType
    → Key
    → UpdateObjectRequest
    → Option Text
    → Option (List Text)
    → Key
    → Result RegistryError RegistryObject × CanonicalRegistryStore
unfolding has_authority
update s t id request actor actor_roles now = elim (get_object s t id) [
  | err e ↦ (err e, s)
  | ok existing ↦
      if has_authority actor actor_roles existing.authority_boundaries
      then derived (Store.update s t id request now)
      else (err permission_denied, s)
]

unfoldable pub delete :
    CanonicalRegistryStore
    → RegistryType
    → Key
    → Option Text
    → Option (List Text)
    → Result RegistryError (Unit {0}) × CanonicalRegistryStore
unfolding has_authority
delete s t id actor actor_roles = elim (get_object s t id) [
  | err e ↦ (err e, s)
  | ok existing ↦
      if has_authority actor actor_roles existing.authority_boundaries
      then Store.delete s t id
      else (err permission_denied, s)
]

unfoldable pub get_registered :
    CanonicalRegistryStore → RegistryType → Key → Result RegistryError RegistryObject
get_registered s t id = elim (get_object s t id) [
  | err e ↦ err e
  | ok o ↦ ok (with_derived_consumers s o)
]

unfoldable pub list_registered : CanonicalRegistryStore → RegistryType → List RegistryObject
list_registered s t = map (with_derived_consumers s) (list_registry s t)

abbrev pub registry_summary : CanonicalRegistryStore → List (RegistryType × ℕ)
registry_summary s = map (λ t. (t, length (list_registry s t))) registry_types

unfoldable pub search_registered :
    CanonicalRegistryStore
    → Option Text
    → Option RegistryType
    → Option Text
    → Option Text
    → List RegistryObject
search_registered s query t owner status =
    map (with_derived_consumers s) (search_objects s query t owner status)

-- The calls that can change the registry, with the ids that are drawn and the times.
pub data Call : Type 0 where
  registering :
      RegistryType → RegisterObjectRequest → Option Text → Option (List Text) → Key → Key → Call
  updating :
      RegistryType → Key → UpdateObjectRequest → Option Text → Option (List Text) → Key → Call
  deleting : RegistryType → Key → Option Text → Option (List Text) → Call

unfoldable pub run : CanonicalRegistryStore → Call → CanonicalRegistryStore
unfolding register update delete
run s (registering t request actor roles id now) = (register s t request actor roles id now).1
run s (updating t id request actor roles now) = (update s t id request actor roles now).1
run s (deleting t id actor roles) = (delete s t id actor roles).1

unfoldable pub run_all : CanonicalRegistryStore → List Call → CanonicalRegistryStore
unfolding run
run_all s [] = s
run_all s (c ∷ cs) = run_all (run s c) cs

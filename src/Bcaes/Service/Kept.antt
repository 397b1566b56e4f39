-- ===== src/Bcaes/Service/Kept.antt =====
-- bcaes_registry/service.py: sequences of calls, against the invariants of the store.
use bhiv_masterdb_ingestion.Prelude.{
  ◌≡◌, refl, sym, subst, ◌↔◌, ◌⊎◌, inl, inr, true, none, some, List, [], ◌∷◌, Key, Result, ok, err,
  arith, Bool-cases, Option-cases, Result-cases,
}
use bhiv_masterdb_ingestion.Prelude.Dict.{Dict, get}
use bhiv_masterdb_ingestion.Bcaes.Models.{
  RegistryType, registry_types, DependencyRef, RegistryObject,
}
use bhiv_masterdb_ingestion.Bcaes.Store.{
  RegistryError, CanonicalRegistryStore, get_object, get_by_id, first_found,
  reload_from_persistent_store, all_objects, new_store,
}
use bhiv_masterdb_ingestion.Bcaes.Store
use bhiv_masterdb_ingestion.Bcaes.Store.Integrity.{register-IsIntegral, update-IsIntegral}
use bhiv_masterdb_ingestion.Bcaes.Store.Registered.{AreRegistered, AllRegistered, IsIntegral}
use bhiv_masterdb_ingestion.Bcaes.Store.Mirror.{
  absent-from_disk, new_store-IsMirrored, register-IsMirrored, update-IsMirrored, delete-IsMirrored,
}
use bhiv_masterdb_ingestion.Bcaes.Store.Reload.{IsMirrored, get-reload}
use bhiv_masterdb_ingestion.Bcaes.Validators.{validate_dependency_integrity}
use bhiv_masterdb_ingestion.Bcaes.Validators.Sound.{All, Resolves, dependency_integrity-passed}
use bhiv_masterdb_ingestion.Bcaes.Service.{
  has_authority, derived, register, update, delete, Call, registering, updating, deleting, run,
  run_all,
}

derived-store :
    (r : Result RegistryError RegistryObject × CanonicalRegistryStore) → (derived r).1 ≡ r.1
derived-store (ok o, s) = refl
derived-store (err e, s) = refl

-- A call either changes nothing or does to the store what the operation of the store does.
abbrev pub plain : CanonicalRegistryStore → Call → CanonicalRegistryStore
plain s (registering t request actor roles id now) = (Store.register s t request id now).1
plain s (updating t id request actor roles now) = (Store.update s t id request now).1
plain s (deleting t id actor roles) = (Store.delete s t id).1

run-plain : (s : CanonicalRegistryStore) (c : Call) → (run s c ≡ s) ⊎ (run s c ≡ plain s c)
unfolding run register update delete
run-plain s (registering t request actor roles id now) =
    let passed_on = derived-store (Store.register s t request id now) in
    elim (Bool-cases (has_authority actor roles request.authority_boundaries)) [
      | inl may ↦ inr (ground arith)
      | inr denied ↦ inl (ground arith)
    ]
run-plain s (updating t id request actor roles now) =
    let passed_on = derived-store (Store.update s t id request now) in
    elim (Result-cases (get_object s t id)) [
      | inr (e, gone) ↦ inl (ground arith)
      | inl (o, found) ↦ elim (Bool-cases (has_authority actor roles o.authority_boundaries)) [
        | inl may ↦ inr (ground arith)
        | inr denied ↦ inl (ground arith)
      ]
    ]
run-plain s (deleting t id actor roles) = elim (Result-cases (get_object s t id)) [
  | inr (e, gone) ↦ inl (ground arith)
  | inl (o, found) ↦ elim (Bool-cases (has_authority actor roles o.authority_boundaries)) [
    | inl may ↦ inr (ground arith)
    | inr denied ↦ inl (ground arith)
  ]
]

-- The call takes no object away.
abbrev pub Keeps : Call → Type 0
Keeps (registering t request actor roles id now) = Unit
Keeps (updating t id request actor roles now) = Unit
Keeps (deleting t id actor roles) = ⊥

abbrev pub AllKeep : List Call → Type 0
AllKeep [] = Unit
AllKeep (c ∷ cs) = Keeps c × AllKeep cs

run-IsIntegral :
    (s : CanonicalRegistryStore) (c : Call) → Keeps c → IsIntegral s → IsIntegral (run s c)
run-IsIntegral s c k h = elim (run-plain s c) [
  | inl same ↦ subst IsIntegral (sym same) h
  | inr passed_on ↦ subst IsIntegral (sym passed_on) (by_call c k)
]
  where
    by_call : (c : Call) → Keeps c → IsIntegral (plain s c)
    by_call (registering t request actor roles id now) k = register-IsIntegral s t request id now h
    by_call (updating t id request actor roles now) k = update-IsIntegral s t id request now h
    by_call (deleting t id actor roles) k = elim k [ ]

run_all-IsIntegral :
    (s : CanonicalRegistryStore) (cs : List Call)
    → AllKeep cs
    → IsIntegral s
    → IsIntegral (run_all s cs)
unfolding run_all
run_all-IsIntegral s [] k h = h
run_all-IsIntegral s (c ∷ cs) (k, ks) h =
    run_all-IsIntegral (run s c) cs ks (run-IsIntegral s c k h)

Resolves-found :
    (s : CanonicalRegistryStore) (ds : List DependencyRef)
    → All (Resolves s) ds ↔ AreRegistered s ds
unfolding get_by_id
Resolves-found s [] = (λ h. tt, λ h. tt)
Resolves-found s (d ∷ ds) =
    let (there, back) = Resolves-found s ds in
    elim (Option-cases (first_found s d.id registry_types)) [
      | inl gone ↦ (λ ((p, found), rest). ground arith, λ (found, rest). ground arith)
      | inr (o, here) ↦
          (λ (h, rest). (ground arith, there rest), λ (h, rest). ((o, ground arith), back rest))
    ]

AllResolve-AllRegistered :
    (s : CanonicalRegistryStore) (os : List RegistryObject)
    → All (λ (o : RegistryObject). All (Resolves s) o.dependencies) os ↔ AllRegistered s os
AllResolve-AllRegistered s [] = (λ h. tt, λ h. tt)
AllResolve-AllRegistered s (o ∷ os) =
    let (there, back) = AllResolve-AllRegistered s os in
    let (there₁, back₁) = Resolves-found s o.dependencies in
    (λ (h, rest). (there₁ h, there rest), λ (h, rest). (back₁ h, back rest))

-- Any sequence of registrations and updates, refused ones included, keeps a registry that passes the
-- check of the dependency integrity one that passes it.
pub run_all-dependency_integrity :
    (s : CanonicalRegistryStore) (cs : List Call)
    → AllKeep cs
    → (validate_dependency_integrity s).passed ≡ true
    → (validate_dependency_integrity (run_all s cs)).passed ≡ true
run_all-dependency_integrity s cs keeps h =
    let after = run_all s cs in
    let (there, _) = dependency_integrity-passed s in
    let (_, back) = dependency_integrity-passed after in
    back (
      (AllResolve-AllRegistered after (all_objects after)).1
        (run_all-IsIntegral s cs keeps ((AllResolve-AllRegistered s (all_objects s)).0 (there h))))

-- A registration draws an id that no registry has.
abbrev pub IsFresh : CanonicalRegistryStore → Call → Type 0
IsFresh s (registering t request actor roles id now) =
    (u : RegistryType) → get id (s.objects u) ≡ none
IsFresh s (updating t id request actor roles now) = Unit
IsFresh s (deleting t id actor roles) = Unit

abbrev pub AllFresh : CanonicalRegistryStore → List Call → Type 0
AllFresh s [] = Unit
AllFresh s (c ∷ cs) = IsFresh s c × AllFresh (run s c) cs

run-IsMirrored :
    (s : CanonicalRegistryStore) (files : Dict RegistryObject) (c : Call)
    → IsFresh s c
    → IsMirrored s files
    → (files' : Dict RegistryObject) × IsMirrored (run s c) files'
run-IsMirrored s files c fresh h = elim (run-plain s c) [
  | inl same ↦ (files, subst (λ r. IsMirrored r files) (sym same) h)
  | inr passed_on ↦
      let (files', mirrored) = by_call c fresh in
      (files', subst (λ r. IsMirrored r files') (sym passed_on) mirrored)
]
  where
    by_call :
        (c : Call) → IsFresh s c → (files' : Dict RegistryObject) × IsMirrored (plain s c) files'
    by_call (registering t request actor roles id now) fresh =
        register-IsMirrored s files t request id now h (absent-from_disk s files id h fresh)
    by_call (updating t id request actor roles now) fresh =
        update-IsMirrored s files t id request now h
    by_call (deleting t id actor roles) fresh = delete-IsMirrored s files t id h

run_all-IsMirrored :
    (s : CanonicalRegistryStore) (files : Dict RegistryObject) (cs : List Call)
    → AllFresh s cs
    → IsMirrored s files
    → (files' : Dict RegistryObject) × IsMirrored (run_all s cs) files'
unfolding run_all
run_all-IsMirrored s files [] fresh h = (files, h)
run_all-IsMirrored s files (c ∷ cs) (fresh, rest) h =
    let (files', mirrored) = run-IsMirrored s files c fresh h in
    run_all-IsMirrored (run s c) files' cs rest mirrored

-- After any sequence of calls on a registry that began empty with a directory, reading the directory
-- back changes no lookup of any registry, if each registration drew a new id.
pub run_all-reload :
    (cs : List Call) (t : RegistryType) (k : Key)
    → AllFresh (new_store (some [])) cs
    → get k ((reload_from_persistent_store (run_all (new_store (some [])) cs)).objects t)
      ≡ get k ((run_all (new_store (some [])) cs).objects t)
run_all-reload cs t k fresh =
    let (files, mirrored) =
      run_all-IsMirrored (new_store (some [])) [] cs fresh new_store-IsMirrored in
    get-reload (run_all (new_store (some [])) cs) files t k mirrored

-- ===== src/Bcaes/Store/Integrity.antt =====
-- bcaes_registry/store.py: `register` and `update`, and the dependencies of all objects.
use bhiv_masterdb_ingestion.Prelude.{
  ◌≡◌, refl, ◌∙◌, sym, ap, subst, ◌⊎◌, inl, inr, Bool, true, false, Option, none, some, List, [],
  ◌∷◌, Key, ◌==◌, is_some, arith, if◌then◌else◌, ◌||◌, Bool-cases, Option-cases,
}
use bhiv_masterdb_ingestion.Prelude.Dict.{Dict, get, put, get-put, values}
use bhiv_masterdb_ingestion.Bcaes.Models.{
  RegistryType, domain, capability, platform_service, product, program, framework, engine, runtime,
  integration, knowledge_asset, interface, registry_types, same_type, same_type→eq, DependencyRef,
  RegisterObjectRequest, UpdateObjectRequest, RegistryObject,
}
use bhiv_masterdb_ingestion.Bcaes.Store.{
  CanonicalRegistryStore, set_bucket, persist, write, get_object, first_found, missing_dependency,
  objects_of, all_objects, new_object, updated_object, or_else, register, update,
}
use bhiv_masterdb_ingestion.Bcaes.Store.Registered.{
  persist-first_found, persist-objects_of, AreRegistered, AllRegistered, IsIntegral, Extends,
  AreRegistered-Extends, AllRegistered-Extends, AllRegistered-append, missing_dependency-none,
}

module _ (s : CanonicalRegistryStore) (t : RegistryType) (id : Key) (o : RegistryObject) where
  -- The store with `o` written into the dictionary of `t` under `id`.
  abbrev with_object : CanonicalRegistryStore
  with_object = set_bucket t (put id o (s.objects t)) s

  with_object-get :
      (u : RegistryType) (k : Key)
      → is_some (get k (s.objects u)) ≡ true
      → is_some (get k (with_object.objects u)) ≡ true
  with_object-get u k h = elim (Bool-cases (same_type t u)) [
    | inl self ↦
        let e = same_type→eq t u self in
        let found : is_some (get k (s.objects t)) ≡ true =
          subst (λ v. is_some (get k (s.objects v)) ≡ true) (sym e) h in
        let put_here = get-put id k o (s.objects t) in ground arith
    | inr other ↦ ground arith
  ]

  with_object-first_found :
      (k : Key) (ts : List RegistryType)
      → is_some (first_found s k ts) ≡ true
      → is_some (first_found with_object k ts) ≡ true
  unfolding first_found
  with_object-first_found k [] h = h
  with_object-first_found k (u ∷ ts) h = elim (Option-cases (get k (s.objects u))) [
    | inl gone ↦
        let rest = with_object-first_found k ts (ground arith) in
        elim (Option-cases (get k (with_object.objects u))) [
          | inl none_here ↦ rw (none_here, first_found) rest
          | inr (p, found) ↦ rw (found, first_found) refl
        ]
    | inr (p, found) ↦
        let here = with_object-get u k (ap is_some found) in
        elim (Option-cases (get k (with_object.objects u))) [
          | inl none_here ↦ cc (sym here ∙ ap is_some none_here)
          | inr (q, found') ↦ rw (found', first_found) refl
        ]
  ]

  AllRegistered-put :
      (r : CanonicalRegistryStore) (d : Dict RegistryObject)
      → AreRegistered r o.dependencies
      → AllRegistered r (values d)
      → AllRegistered r (values (put id o d))
  AllRegistered-put r [] new h = (new, tt)
  AllRegistered-put r ((j, p) ∷ d) new (h, rest) = elim (Bool-cases (j == id)) [
    | inl self ↦ rw (self, if◌then◌else◌) (new, rest)
    | inr other ↦ rw (other, if◌then◌else◌) (h, AllRegistered-put r d new rest)
  ]

  AllRegistered-with_object :
      (r : CanonicalRegistryStore) (ts : List RegistryType)
      → AreRegistered r o.dependencies
      → AllRegistered r (objects_of s ts)
      → AllRegistered r (objects_of with_object ts)
  unfolding objects_of
  AllRegistered-with_object r [] new h = tt
  AllRegistered-with_object r (u ∷ ts) new h =
      let (here, rest) = (AllRegistered-append r (values (s.objects u)) (objects_of s ts)).0 h in
      (AllRegistered-append r (values (with_object.objects u)) (objects_of with_object ts)).1
        (at_bucket (Bool-cases (same_type t u)) here, AllRegistered-with_object r ts new rest)
    where
      at_bucket :
          (same_type t u ≡ true) ⊎ (same_type t u ≡ false)
          → AllRegistered r (values (s.objects u))
          → AllRegistered r (values (with_object.objects u))
      at_bucket (inl self) here =
          rw (self, if◌then◌else◌)
            (AllRegistered-put r (s.objects t) new (
              subst (λ v. AllRegistered r (values (s.objects v))) (sym (same_type→eq t u self))
                here))
      at_bucket (inr other) here = rw (other, if◌then◌else◌) here

  with_object-IsIntegral :
      AreRegistered s o.dependencies → IsIntegral s → IsIntegral (persist o with_object)
  with_object-IsIntegral new h =
      let more : Extends s (persist o with_object) = λ k found.
        subst (λ f. is_some f ≡ true) (sym (persist-first_found o with_object k registry_types))
          (with_object-first_found k registry_types found) in
      subst (AllRegistered (persist o with_object))
        (sym (persist-objects_of o with_object registry_types))
        (AllRegistered-with_object (persist o with_object) registry_types
          (AreRegistered-Extends s (persist o with_object) o.dependencies more new)
          (AllRegistered-Extends s (persist o with_object) (all_objects s) more h))

pub register-IsIntegral :
    (s : CanonicalRegistryStore) (t : RegistryType) (request : RegisterObjectRequest) (id now : Key)
    → IsIntegral s
    → IsIntegral (register s t request id now).1
unfolding register write
register-IsIntegral s t request id now h =
    let o = new_object t id request now in
    elim (Option-cases (missing_dependency s request.dependencies)) [
      | inr (k, missing) ↦
          let shape : (register s t request id now).1 ≡ s = ground arith in
          subst IsIntegral (sym shape) h
      | inl complete ↦
          let shape : (register s t request id now).1 ≡ persist o (with_object s t id o) =
            ground arith in
          subst IsIntegral (sym shape) (
            with_object-IsIntegral s t id o
              (missing_dependency-none s request.dependencies complete) h)
    ]

-- What is stored in a dictionary has registered dependencies, if all objects have.
AllRegistered-get :
    (s : CanonicalRegistryStore) (k : Key) (d : Dict RegistryObject) (o : RegistryObject)
    → get k d ≡ some o
    → AllRegistered s (values d)
    → AreRegistered s o.dependencies
AllRegistered-get s k [] o found h = cc
AllRegistered-get s k ((j, p) ∷ d) o found (h, rest) = elim (Bool-cases (j == k)) [
  | inl self ↦
      let same : p ≡ o = ground arith in
      subst (λ (q : RegistryObject). AreRegistered s q.dependencies) same h
  | inr other ↦ AllRegistered-get s k d o (ground arith) rest
]

abbrev elem_type : RegistryType → List RegistryType → Bool
elem_type t [] = false
elem_type t (u ∷ ts) = same_type t u || elem_type t ts

pub elem_type_all : (t : RegistryType) → elem_type t registry_types ≡ true
unfolding same_type
elem_type_all domain = refl
elem_type_all capability = refl
elem_type_all platform_service = refl
elem_type_all product = refl
elem_type_all program = refl
elem_type_all framework = refl
elem_type_all engine = refl
elem_type_all runtime = refl
elem_type_all integration = refl
elem_type_all knowledge_asset = refl
elem_type_all interface = refl

AllRegistered-bucket :
    (s : CanonicalRegistryStore) (t : RegistryType) (ts : List RegistryType)
    → elem_type t ts ≡ true
    → AllRegistered s (objects_of s ts)
    → AllRegistered s (values (s.objects t))
unfolding objects_of
AllRegistered-bucket s t [] m h = cc
AllRegistered-bucket s t (u ∷ ts) m h =
    let (here, rest) = (AllRegistered-append s (values (s.objects u)) (objects_of s ts)).0 h in
    elim (Bool-cases (same_type t u)) [
      | inl self ↦
          subst (λ v. AllRegistered s (values (s.objects v))) (sym (same_type→eq t u self)) here
      | inr other ↦ AllRegistered-bucket s t ts (ground arith) rest
    ]

updated-AreRegistered :
    (s : CanonicalRegistryStore) (o : RegistryObject) (given : Option (List DependencyRef))
    → missing_dependency s (or_else given []) ≡ none
    → AreRegistered s o.dependencies
    → AreRegistered s (or_else given o.dependencies)
updated-AreRegistered s o none complete h = h
updated-AreRegistered s o (some ds) complete h = missing_dependency-none s ds complete

pub update-IsIntegral :
    (s : CanonicalRegistryStore) (t : RegistryType) (id : Key) (request : UpdateObjectRequest)
    (now : Key)
    → IsIntegral s
    → IsIntegral (update s t id request now).1
unfolding update get_object
update-IsIntegral s t id request now h = elim (Option-cases (get id (s.objects t))) [
  | inl gone ↦
      let shape : (update s t id request now).1 ≡ s = ground arith in subst IsIntegral (sym shape) h
  | inr (o, found) ↦ elim (Option-cases (missing_dependency s (or_else request.dependencies []))) [
    | inr (k, missing) ↦
        let shape : (update s t id request now).1 ≡ s = ground arith in
        subst IsIntegral (sym shape) h
    | inl complete ↦
        let new = updated_object o request now in
        let shape : (update s t id request now).1 ≡ persist new (with_object s t id new) =
          ground arith in
        let old =
          AllRegistered-get s id (s.objects t) o found
            (AllRegistered-bucket s t registry_types (elem_type_all t) h) in
        subst IsIntegral (sym shape) (
          with_object-IsIntegral s t id new
            (updated-AreRegistered s o request.dependencies complete old) h)
  ]
]

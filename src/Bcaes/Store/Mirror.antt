-- ===== src/Bcaes/Store/Mirror.antt =====
-- bcaes_registry/store.py: the operations of the store, against the directory that mirrors it.
use bhiv_masterdb_ingestion.Prelude.{
  ◌≡◌, refl, ◌∙◌, sym, ap, subst, inl, inr, false, Option, none, some, [], Key, ◌==◌, arith,
  if◌then◌else◌, Bool-cases, Option-cases, ==→eq,
}
use bhiv_masterdb_ingestion.Prelude.Dict.{
  Dict, get, put, remove, get-remove, remove-HasDistinctKeys,
}
use bhiv_masterdb_ingestion.Bcaes.Models.{
  RegistryType, same_type, same_type→eq, same_type_refl, RegisterObjectRequest, UpdateObjectRequest,
  RegistryObject,
}
use bhiv_masterdb_ingestion.Bcaes.Store.{
  CanonicalRegistryStore, set_bucket, persist, unpersist, write, get_object, missing_dependency,
  new_object, updated_object, or_else, register, update, delete, new_store,
}
use bhiv_masterdb_ingestion.Bcaes.Store.Reload.{of_type, IsMirrored}
use bhiv_masterdb_ingestion.Bcaes.Store.Written.{written_store, written-IsMirrored}

-- Registering under an id that is not on disk keeps the directory and the dictionaries alike.
pub register-IsMirrored :
    (s : CanonicalRegistryStore) (files : Dict RegistryObject) (t : RegistryType)
    (request : RegisterObjectRequest) (id now : Key)
    → IsMirrored s files
    → get id files ≡ none
    → (files' : Dict RegistryObject) × IsMirrored (register s t request id now).1 files'
unfolding register write
register-IsMirrored s files t request id now h fresh =
    let o = new_object t id request now in
    elim (Option-cases (missing_dependency s request.dependencies)) [
      | inr (k, missing) ↦
          let shape : (register s t request id now).1 ≡ s = ground arith in
          (files, subst (λ r. IsMirrored r files) (sym shape) h)
      | inl complete ↦
          let shape : (register s t request id now).1 ≡ written_store s files h t o refl =
            ground arith in
          (
            put id o files,
            subst (λ r. IsMirrored r (put id o files)) (sym shape)
                (written-IsMirrored s files h t o refl
                  (λ u other. h.found u id ∙ ap (of_type u) fresh)),
          )
    ]

-- The object that a lookup finds carries the id and the registry it was looked up by.
found-own :
    (s : CanonicalRegistryStore) (files : Dict RegistryObject) (t : RegistryType) (id : Key)
    (o : RegistryObject)
    → IsMirrored s files
    → get id (s.objects t) ≡ some o
    → (get id files ≡ some o) × (o.id ≡ id) × (o.registry_type ≡ t)
found-own s files t id o h found = elim (Option-cases (get id files)) [
  | inl gone ↦ let here = h.found t id in absurd (ground arith)
  | inr (p, on_disk) ↦
      let here = h.found t id in
      elim (Bool-cases (same_type p.registry_type t)) [
        | inr other ↦ absurd (ground arith)
        | inl own ↦
            let same : p ≡ o = ground arith in
            subst
              (λ (q : RegistryObject).
                (get id files ≡ some q) × (q.id ≡ id) × (q.registry_type ≡ t))
              same (on_disk, h.keyed id p on_disk, same_type→eq p.registry_type t own)
      ]
]

pub update-IsMirrored :
    (s : CanonicalRegistryStore) (files : Dict RegistryObject) (t : RegistryType) (id : Key)
    (request : UpdateObjectRequest) (now : Key)
    → IsMirrored s files
    → (files' : Dict RegistryObject) × IsMirrored (update s t id request now).1 files'
unfolding update get_object
update-IsMirrored s files t id request now h = elim (Option-cases (get id (s.objects t))) [
  | inl gone ↦
      let shape : (update s t id request now).1 ≡ s = ground arith in
      (files, subst (λ r. IsMirrored r files) (sym shape) h)
  | inr (o, found) ↦ elim (Option-cases (missing_dependency s (or_else request.dependencies []))) [
    | inr (k, missing) ↦
        let shape : (update s t id request now).1 ≡ s = ground arith in
        (files, subst (λ r. IsMirrored r files) (sym shape) h)
    | inl complete ↦
        let (on_disk, own_id, own_type) = found-own s files t id o h found in
        let new = updated_object o request now in
        let shape : (update s t id request now).1
            ≡ persist new (set_bucket t (put id new (s.objects t)) s) =
          ground arith in
        let key : persist new (set_bucket t (put id new (s.objects t)) s)
            ≡ written_store s files h t new own_type =
          ap (λ i. persist new (set_bucket t (put i new (s.objects t)) s)) (sym own_id) in
        let elsewhere : (u : RegistryType) → same_type t u ≡ false → get o.id (s.objects u) ≡ none =
          λ u other.
            subst (λ i. get i (s.objects u) ≡ none) (sym own_id)
              (h.found u id
                ∙ ap (of_type u) on_disk
                ∙ ap (λ v. if same_type v u then some o else none) own_type
                ∙ ap (λ b. if b then some o else none) other) in
        (
          put o.id new files,
          subst (λ r. IsMirrored r (put o.id new files)) (sym (shape ∙ key))
              (written-IsMirrored s files h t new own_type elsewhere),
        )
  ]
]

pub delete-IsMirrored :
    (s : CanonicalRegistryStore) (files : Dict RegistryObject) (t : RegistryType) (id : Key)
    → IsMirrored s files
    → (files' : Dict RegistryObject) × IsMirrored (delete s t id).1 files'
unfolding delete get_object unpersist
delete-IsMirrored s files t id h = elim (Option-cases (get id (s.objects t))) [
  | inl gone ↦
      let shape : (delete s t id).1 ≡ s = ground arith in
      (files, subst (λ r. IsMirrored r files) (sym shape) h)
  | inr (o, found) ↦
      let (on_disk, own_id, own_type) = found-own s files t id o h found in
      let shape : (delete s t id).1 ≡ unpersist id (set_bucket t (remove id (s.objects t)) s) =
        ground arith in
      let stored : unpersist id (set_bucket t (remove id (s.objects t)) s) ≡ record {
        objects = λ u. if same_type t u then remove id (s.objects t) else s.objects u;
        artifact_store = some (remove id files);
      } =
        ap
          (λ (a : Option (Dict RegistryObject)). unpersist id (record {
            objects = λ u. if same_type t u then remove id (s.objects t) else s.objects u;
            artifact_store = a;
          }))
          h.stored in
      (
        remove id files,
        subst (λ r. IsMirrored r (remove id files)) (sym (shape ∙ stored))
            (record {
              stored = refl;
              found = λ u k. removed u k own_type on_disk;
              keyed = λ k p e.
                  h.keyed k p (let rest = get-remove id k files h.files_distinct in ground arith);
              files_distinct = remove-HasDistinctKeys id files h.files_distinct;
              buckets_distinct = λ u. elim (Bool-cases (same_type t u)) [
                | inl here ↦
                    rw (here, if◌then◌else◌)
                      (remove-HasDistinctKeys id (s.objects t) (h.buckets_distinct t))
                | inr other ↦ rw (other, if◌then◌else◌) (h.buckets_distinct u)
              ];
            }),
      )
]
  where
    removed :
        (u : RegistryType) (k : Key) {o : RegistryObject}
        → o.registry_type ≡ t
        → get id files ≡ some o
        → get k (if same_type t u then remove id (s.objects t) else s.objects u)
          ≡ of_type u (get k (remove id files))
    removed u k {o} own_type on_disk =
        let rest = get-remove id k files h.files_distinct in
        let before = h.found u k in
        let type_here : same_type o.registry_type u ≡ same_type t u =
          ap (λ v. same_type v u) own_type in
        elim (Bool-cases (same_type t u)) [
          | inl here ↦
              let e = same_type→eq t u here in
              let in_bucket : get k (s.objects t) ≡ get k (s.objects u) =
                ap (λ v. get k (s.objects v)) e in
              let gone = get-remove id k (s.objects t) (h.buckets_distinct t) in ground arith
          | inr other ↦ elim (Bool-cases (id == k)) [
            | inr apart ↦ ground arith
            | inl self ↦
                let disk : get k files ≡ some o =
                  subst (λ j. get j files ≡ some o) (==→eq id k self) on_disk in
                ground arith
          ]
        ]

pub new_store-IsMirrored : IsMirrored (new_store (some [])) []
new_store-IsMirrored = record {
  stored = refl;
  found = λ t k. refl;
  keyed = λ k o h. cc;
  files_distinct = tt;
  buckets_distinct = λ t. tt;
}

-- An id that no registry has is not on disk.
pub absent-from_disk :
    (s : CanonicalRegistryStore) (files : Dict RegistryObject) (id : Key)
    → IsMirrored s files
    → ((u : RegistryType) → get id (s.objects u) ≡ none)
    → get id files ≡ none
absent-from_disk s files id h fresh = elim (Option-cases (get id files)) [
  | inl gone ↦ gone
  | inr (o, on_disk) ↦
      let here = h.found o.registry_type id in
      let absent = fresh o.registry_type in
      let own = same_type_refl o.registry_type in absurd (ground arith)
]

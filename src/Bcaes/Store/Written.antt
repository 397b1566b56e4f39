-- ===== src/Bcaes/Store/Written.antt =====
-- bcaes_registry/store.py: what `_persist` leaves, in the dictionaries and in the directory.
use bhiv_masterdb_ingestion.Prelude.{
  ◌≡◌, refl, ◌∙◌, sym, ap, subst, inl, inr, false, Option, none, some, Key, ◌==◌, arith,
  if◌then◌else◌, Bool-cases, ==→eq,
}
use bhiv_masterdb_ingestion.Prelude.Dict.{
  Dict, get, put, get-put, HasDistinctKeys, put-HasDistinctKeys,
}
use bhiv_masterdb_ingestion.Bcaes.Models.{RegistryType, same_type, same_type→eq, RegistryObject}
use bhiv_masterdb_ingestion.Bcaes.Store.{CanonicalRegistryStore, set_bucket, persist}
use bhiv_masterdb_ingestion.Bcaes.Store.Reload.{of_type, IsMirrored}

module _ (s : CanonicalRegistryStore) (files : Dict RegistryObject) (h : IsMirrored s files)
    (t : RegistryType) (o : RegistryObject) (own_type : o.registry_type ≡ t) where
  -- The store after `o` is written to the dictionary of its registry and to the directory.
  abbrev pub written_store : CanonicalRegistryStore
  written_store = persist o (set_bucket t (put o.id o (s.objects t)) s)

  written-found :
      ((u : RegistryType) → same_type t u ≡ false → get o.id (s.objects u) ≡ none)
      → (u : RegistryType) (k : Key)
      → get k ((set_bucket t (put o.id o (s.objects t)) s).objects u)
        ≡ of_type u (get k (put o.id o files))
  written-found elsewhere u k =
      let on_disk = get-put o.id k o files in
      let type_here : same_type o.registry_type u ≡ same_type t u =
        ap (λ v. same_type v u) own_type in
      let before = h.found u k in
      elim (Bool-cases (same_type t u)) [
        | inr other ↦ elim (Bool-cases (o.id == k)) [
          | inr apart ↦ ground arith
          | inl self ↦
              let away : get k (s.objects u) ≡ none =
                subst (λ j. get j (s.objects u) ≡ none) (==→eq o.id k self) (elsewhere u other) in
              ground arith
        ]
        | inl here ↦
            let e = same_type→eq t u here in
            let in_bucket : get k (s.objects t) ≡ get k (s.objects u) =
              ap (λ v. get k (s.objects v)) e in
            let put_here = get-put o.id k o (s.objects t) in ground arith
      ]

  written-keyed : (k : Key) (p : RegistryObject) → get k (put o.id o files) ≡ some p → p.id ≡ k
  written-keyed k p found =
      let on_disk = get-put o.id k o files in
      elim (Bool-cases (o.id == k)) [
        | inl self ↦
            let same : o ≡ p = ground arith in
            ap (λ (q : RegistryObject). q.id) (sym same) ∙ ==→eq o.id k self
        | inr apart ↦ h.keyed k p (ground arith)
      ]

  written-distinct :
      (u : RegistryType) → HasDistinctKeys ((set_bucket t (put o.id o (s.objects t)) s).objects u)
  written-distinct u = elim (Bool-cases (same_type t u)) [
    | inl here ↦
        rw (here, if◌then◌else◌) (put-HasDistinctKeys o.id o (s.objects t) (h.buckets_distinct t))
    | inr other ↦ rw (other, if◌then◌else◌) (h.buckets_distinct u)
  ]

  persist-shape : written_store ≡ record {
    objects = λ u. if same_type t u then put o.id o (s.objects t) else s.objects u;
    artifact_store = some (put o.id o files);
  }
  unfolding persist
  persist-shape =
      let e = h.stored in
      ap
        (λ (a : Option (Dict RegistryObject)). persist o (record {
          objects = λ u. if same_type t u then put o.id o (s.objects t) else s.objects u;
          artifact_store = a;
        }))
        e

  pub written-IsMirrored :
      ((u : RegistryType) → same_type t u ≡ false → get o.id (s.objects u) ≡ none)
      → IsMirrored written_store (put o.id o files)
  written-IsMirrored elsewhere =
      subst (λ r. IsMirrored r (put o.id o files)) (sym persist-shape)
        (record {
          stored = refl;
          found = written-found elsewhere;
          keyed = written-keyed;
          files_distinct = put-HasDistinctKeys o.id o files h.files_distinct;
          buckets_distinct = written-distinct;
        })

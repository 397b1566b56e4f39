-- ===== src/Bcaes/Store/Reload.antt =====
-- bcaes_registry/store.py: `_reload_from_disk`, and directories that hold the objects of the dictionaries.
use bhiv_masterdb_ingestion.Prelude.{
  ◌≡◌, refl, ◌∙◌, sym, ap, inl, inr, Option, none, some, [], ◌∷◌, Key, ◌==◌, leb, arith,
  if◌then◌else◌, Bool-cases, ==→eq,
}
use bhiv_masterdb_ingestion.Prelude.Dict.{Dict, get, put, get-put, values, HasDistinctKeys}
use bhiv_masterdb_ingestion.Bcaes.Models.{RegistryType, same_type, same_type→eq, RegistryObject}
use bhiv_masterdb_ingestion.Bcaes.Store.{
  CanonicalRegistryStore, set_bucket, insert_file, by_file_name, repopulate,
  reload_from_persistent_store,
}

-- The record, if it belongs to the registry.
abbrev pub of_type : RegistryType → Option RegistryObject → Option RegistryObject
of_type t none = none
of_type t (some o) = if same_type o.registry_type t then some o else none

-- The directory holds exactly the objects of the dictionaries, each under its own id.
pub record IsMirrored (s : CanonicalRegistryStore) (files : Dict RegistryObject) : Type 0 where
  pub stored : s.artifact_store ≡ some files
  pub found : (t : RegistryType) (k : Key) → get k (s.objects t) ≡ of_type t (get k files)
  pub keyed : (k : Key) (o : RegistryObject) → get k files ≡ some o → o.id ≡ k
  pub files_distinct : HasDistinctKeys files
  pub buckets_distinct : (t : RegistryType) → HasDistinctKeys (s.objects t)

get-insert_file :
    (i k : Key) (o : RegistryObject) (files : Dict RegistryObject)
    → get i (insert_file k o files) ≡ (if k == i then some o else get i files)
unfolding insert_file
get-insert_file i k o [] = ground arith
get-insert_file i k o ((j, p) ∷ files) = ground (arith, get-insert_file i k o files)

get-by_file_name :
    (i : Key) (files : Dict RegistryObject) → get i (by_file_name files) ≡ get i files
unfolding by_file_name
get-by_file_name i [] = refl
get-by_file_name i ((k, o) ∷ files) =
    let rest = get-by_file_name i files in
    let first = get-insert_file i k o (by_file_name files) in ground arith

insert_file-HasDistinctKeys :
    (k : Key) (o : RegistryObject) (files : Dict RegistryObject)
    → get k files ≡ none
    → HasDistinctKeys files
    → HasDistinctKeys (insert_file k o files)
unfolding insert_file
insert_file-HasDistinctKeys k o [] fresh h = (refl, tt)
insert_file-HasDistinctKeys k o ((j, p) ∷ files) fresh (apart, h) = elim (Bool-cases (leb k j)) [
  | inl first ↦ rw (first, if◌then◌else◌) (fresh, (apart, h))
  | inr later ↦
      let still : get j (insert_file k o files) ≡ none =
        ground (arith, get-insert_file j k o files) in
      rw (later, if◌then◌else◌) (still, insert_file-HasDistinctKeys k o files (ground arith) h)
]

by_file_name-HasDistinctKeys :
    (files : Dict RegistryObject) → HasDistinctKeys files → HasDistinctKeys (by_file_name files)
unfolding by_file_name
by_file_name-HasDistinctKeys [] h = tt
by_file_name-HasDistinctKeys ((k, o) ∷ files) (apart, h) =
    insert_file-HasDistinctKeys k o (by_file_name files) (get-by_file_name k files ∙ apart)
      (by_file_name-HasDistinctKeys files h)

-- What a lookup finds after the loop of the reload: the record on disk, else what was there before.
abbrev or_before : Option RegistryObject → Option RegistryObject → Option RegistryObject
or_before none before = before
or_before (some o) before = some o

get-repopulate :
    (d : Dict RegistryObject) (s : CanonicalRegistryStore) (t : RegistryType) (k : Key)
    → HasDistinctKeys d
    → ((i : Key) (o : RegistryObject) → get i d ≡ some o → o.id ≡ i)
    → get k ((repopulate (values d) s).objects t)
      ≡ or_before (of_type t (get k d)) (get k (s.objects t))
unfolding repopulate
get-repopulate [] s t k distinct keyed = refl
get-repopulate ((j, p) ∷ d) s t k (apart, distinct) keyed =
    let own : p.id ≡ j = keyed j p (ground arith) in
    let s₁ = set_bucket p.registry_type (put p.id p (s.objects p.registry_type)) s in
    let later : (i : Key) (o : RegistryObject) → get i d ≡ some o → o.id ≡ i =
      λ i o found. keyed i o (ground (arith, ==→eq j i)) in
    let rest = get-repopulate d s₁ t k distinct later in
    elim (Bool-cases (same_type p.registry_type t)) [
      | inr other ↦ ground arith
      | inl self ↦
          let e = same_type→eq p.registry_type t self in
          let same : get k (s.objects p.registry_type) ≡ get k (s.objects t) =
            ap (λ u. get k (s.objects u)) e in
          let written = get-put p.id k p (s.objects p.registry_type) in ground (arith, ==→eq j k)
    ]

-- While the directory mirrors the dictionaries, a reload changes no lookup.
pub get-reload :
    (s : CanonicalRegistryStore) (files : Dict RegistryObject) (t : RegistryType) (k : Key)
    → IsMirrored s files
    → get k ((reload_from_persistent_store s).objects t) ≡ get k (s.objects t)
unfolding reload_from_persistent_store
get-reload s files t k h =
    let shape : reload_from_persistent_store s
        ≡ repopulate (values (by_file_name files)) (record s { objects = λ _. [] }) =
      simp (h.stored, reload_from_persistent_store) in
    let same = get-by_file_name k files in
    let read =
      get-repopulate (by_file_name files) (record s { objects = λ _. [] }) t k
        (by_file_name-HasDistinctKeys files h.files_distinct)
        (λ i o found. h.keyed i o (sym (get-by_file_name i files) ∙ found)) in
    let here = h.found t k in
    let lookup = ap (λ (r : CanonicalRegistryStore). get k (r.objects t)) shape in
    lookup ∙ read ∙ ground arith

-- ===== src/Documents/Canonical.antt =====
-- canonical_repository/store.py and service.py: what holds of the store after every call.
use bhiv_masterdb_ingestion.Prelude.{
  ◌≤◌, ◌≡◌, ◌∙◌, sym, ap, subst, inl, inr, none, some, List, [], ◌∷◌, ◌++◌, arith, Key, length,
  length-append, ◌==◌, ==→eq, Bool-cases, Option-cases,
}
use bhiv_masterdb_ingestion.Prelude.Dict.{get, put, get-put, get-put_self}
use bhiv_masterdb_ingestion.Documents.{
  CanonicalDocument, DocumentVersion, Store, category_code, persist,
}
use bhiv_masterdb_ingestion.Documents.Chain.{IsChain}

module _ (content_hash : Key → Key → Key) where
  abbrev pub HasVersions : Store → Key → CanonicalDocument → Type 0
  HasVersions s id d =
      (vs : List DocumentVersion) × (get id s.versions ≡ some vs)
      × IsChain content_hash 0 0 vs
      × (1 ≤ length vs)
      × (d.current_version ≡ length vs)

  -- Each document is stored under its id, is the one of its category, and has a chain of versions of
  -- which it names the last; the index of the categories names no other.
  pub record IsCanonical (s : Store) : Type 0 where
    pub named : (id : Key) (d : CanonicalDocument) → get id s.documents ≡ some d → d.id ≡ id
    pub indexed :
        (id : Key) (d : CanonicalDocument)
        → get id s.documents ≡ some d
        → get (category_code d.category) s.category_index ≡ some id
    pub index_sound :
        (c id : Key)
        → get c s.category_index ≡ some id
        → (d : CanonicalDocument) × (get id s.documents ≡ some d) × (category_code d.category ≡ c)
    pub chained :
        (id : Key) (d : CanonicalDocument) → get id s.documents ≡ some d → HasVersions s id d

  -- Mirroring a document changes nothing in memory.
  pub persist-IsCanonical :
      (id : Key) (d : CanonicalDocument) (vs : List DocumentVersion) (s : Store)
      → IsCanonical s
      → IsCanonical (persist id d vs s)
  persist-IsCanonical id d vs s h = elim (Option-cases s.artifact_store) [
    | inl volatile ↦ let shape : persist id d vs s ≡ s = ground arith in rw shape h
    | inr (records, mirrored) ↦
        let shape : persist id d vs s ≡ record s {
          artifact_store = some (put id (record { document = d; versions = vs }) records);
        } =
          ground arith in
        rw shape (record {
          named = h.named;
          indexed = h.indexed;
          index_sound = h.index_sound;
          chained = h.chained;
        })
  ]

  module _ (s : Store) (h : IsCanonical s) where
    -- A document with a free id and a free category, and its first version.
    module _ (id : Key) (d : CanonicalDocument) (v : DocumentVersion)
        (free_id : get id s.documents ≡ none)
        (free_category : get (category_code d.category) s.category_index ≡ none) where
      abbrev with_document : Store
      with_document = record s {
        documents = put id d s.documents;
        versions = put id (v ∷ []) s.versions;
        category_index = put (category_code d.category) id s.category_index;
      }

      pub add-IsCanonical :
          d.id ≡ id
          → d.current_version ≡ 1
          → IsChain content_hash 0 0 (v ∷ [])
          → IsCanonical with_document
      add-IsCanonical name current chain = record {
        named = λ j e found. elim (Bool-cases (id == j)) [
          | inl self ↦
              let new : d ≡ e = ground (arith, get-put id j d s.documents) in
              sym (ap (λ x. x.id) new) ∙ name ∙ ==→eq id j self
          | inr other ↦ h.named j e (ground (arith, get-put id j d s.documents))
        ];
        indexed = λ j e found. elim (Bool-cases (id == j)) [
          | inl self ↦
              let new : d ≡ e = ground (arith, get-put id j d s.documents) in
              subst
                (λ (x : CanonicalDocument).
                  get (category_code x.category) with_document.category_index ≡ some j)
                new
                (get-put_self (category_code d.category) id s.category_index
                  ∙ ap (λ x. some x) (==→eq id j self))
          | inr other ↦
              let old = h.indexed j e (ground (arith, get-put id j d s.documents)) in
              ground (
                arith,
                old,
                get-put (category_code d.category) (category_code e.category) id s.category_index,
              )
        ];
        index_sound = λ c j found. elim (Bool-cases (category_code d.category == c)) [
          | inl self ↦
              let here : id ≡ j =
                ground (arith, get-put (category_code d.category) c id s.category_index) in
              (
                d,
                subst (λ k. get k (put id d s.documents) ≡ some d) here
                    (get-put_self id d s.documents),
                ==→eq (category_code d.category) c self,
              )
          | inr other ↦
              let (e, there, code) =
                h.index_sound c j
                  (ground (arith, get-put (category_code d.category) c id s.category_index)) in
              (e, ground (arith, get-put id j d s.documents), code)
        ];
        chained = λ j e found. elim (Bool-cases (id == j)) [
          | inl self ↦
              let new : d ≡ e = ground (arith, get-put id j d s.documents) in
              (
                v ∷ [],
                ground (arith, get-put id j (v ∷ []) s.versions),
                chain,
                omega arith,
                sym (ap (λ x. x.current_version) new) ∙ current,
              )
          | inr other ↦
              let (vs, there, chain_j, some_j, current_j) =
                h.chained j e (ground (arith, get-put id j d s.documents)) in
              (vs, ground (arith, get-put id j (v ∷ []) s.versions), chain_j, some_j, current_j)
        ];
      }

    -- A document that is there gets a next version.
    module _ (id : Key) (d d' : CanonicalDocument) (vs : List DocumentVersion) (v : DocumentVersion)
        (found_d : get id s.documents ≡ some d) where
      abbrev with_version : Store
      with_version = record s {
        documents = put id d' s.documents;
        versions = put id (vs ++ v ∷ []) s.versions;
      }

      pub extend-IsCanonical :
          d'.id ≡ d.id
          → d'.category ≡ d.category
          → d'.current_version ≡ length (vs ++ v ∷ [])
          → IsChain content_hash 0 0 (vs ++ v ∷ [])
          → IsCanonical with_version
      extend-IsCanonical name category current chain = record {
        named = λ j e found. elim (Bool-cases (id == j)) [
          | inl self ↦
              let new : d' ≡ e = ground (arith, get-put id j d' s.documents) in
              sym (ap (λ x. x.id) new) ∙ name ∙ h.named id d found_d ∙ ==→eq id j self
          | inr other ↦ h.named j e (ground (arith, get-put id j d' s.documents))
        ];
        indexed = λ j e found. elim (Bool-cases (id == j)) [
          | inl self ↦
              let new : d' ≡ e = ground (arith, get-put id j d' s.documents) in
              subst
                (λ (x : CanonicalDocument).
                  get (category_code x.category) s.category_index ≡ some j)
                new
                (ap (λ x. get (category_code x) s.category_index) category
                  ∙ h.indexed id d found_d
                  ∙ ap (λ x. some x) (==→eq id j self))
          | inr other ↦ h.indexed j e (ground (arith, get-put id j d' s.documents))
        ];
        index_sound = λ c j found.
            let (e, there, code) = h.index_sound c j found in
            elim (Bool-cases (id == j)) [
              | inl self ↦
                  let same_document : d ≡ e = some_lem (
                    sym (subst (λ k. get k s.documents ≡ some d) (==→eq id j self) found_d)
                    ∙ there) in
                  (
                    d',
                    subst (λ k. get k (put id d' s.documents) ≡ some d') (==→eq id j self)
                        (get-put_self id d' s.documents),
                    ap category_code category
                        ∙ ap (λ x. category_code x.category) same_document
                        ∙ code,
                  )
              | inr other ↦ (e, ground (arith, get-put id j d' s.documents), code)
            ];
        chained = λ j e found. elim (Bool-cases (id == j)) [
          | inl self ↦
              let new : d' ≡ e = ground (arith, get-put id j d' s.documents) in
              (
                vs ++ v ∷ [],
                ground (arith, get-put id j (vs ++ v ∷ []) s.versions),
                chain,
                omega (arith, length-append vs (v ∷ [])),
                sym (ap (λ x. x.current_version) new) ∙ current,
              )
          | inr other ↦
              let (ws, there, chain_j, some_j, current_j) =
                h.chained j e (ground (arith, get-put id j d' s.documents)) in
              (
                ws,
                ground (arith, get-put id j (vs ++ v ∷ []) s.versions),
                chain_j,
                some_j,
                current_j,
              )
        ];
      }
        where
          some_lem : {x y : CanonicalDocument} → some x ≡ some y → x ≡ y
          some_lem e = cc

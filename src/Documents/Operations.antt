-- ===== src/Documents/Operations.antt =====
-- canonical_repository/service.py and store.py: the theorems on the calls of the repository.
use bhiv_masterdb_ingestion.Prelude.{
  ℕ, ◌+◌, ◌≤◌, ◌≡◌, ◌∙◌, ap, ◌↔◌, refl, ◌⊎◌, inl, inr, Bool, true, none, some, List, [], ◌∷◌, ◌++◌,
  arith, Key, Result, ok, err, length, length-append, last?, Bool-cases, Option-cases,
}
use bhiv_masterdb_ingestion.Prelude.Dict.{get, put, get-put_self}
use bhiv_masterdb_ingestion.Documents.{
  DocumentCategory, CanonicalDocument, DocumentVersion, RegisterDocumentRequest,
  PublishVersionRequest, DocumentError, document_not_found, permission_denied, duplicate_category,
  Store, category_code, persist, register, publish_version, new_document, first_version,
  next_version, updated, append_version, get_version, latest_version, get_document, version_history,
  verify_chain, find_version,
}
use bhiv_masterdb_ingestion.Documents.Service.{
  register_document, publish_document, has_role, policy_of, content_of, is_none,
}
use bhiv_masterdb_ingestion.Documents.Chain.{
  IsChain, mismatches-IsChain, last-IsChain, IsChain-append_one, find_version-append,
  find_version-new,
}
use bhiv_masterdb_ingestion.Documents.Canonical.{
  IsCanonical, persist-IsCanonical, add-IsCanonical, extend-IsCanonical,
}

some_last :
    (vs : List DocumentVersion) → 1 ≤ length vs → (l : DocumentVersion) × (last? vs ≡ some l)
some_last [] h = absurd (omega arith)
some_last (v ∷ []) h = (v, refl)
some_last (v ∷ w ∷ vs) h = some_last (w ∷ vs) (omega arith)

persist-documents :
    (id : Key) (d : CanonicalDocument) (vs : List DocumentVersion) (s : Store)
    → ((persist id d vs s).documents ≡ s.documents) × ((persist id d vs s).versions ≡ s.versions)
persist-documents id d vs s = elim (Option-cases s.artifact_store) [
  | inl volatile ↦ (ground arith, ground arith)
  | inr (records, mirrored) ↦ (ground arith, ground arith)
]

history_of :
    (s : Store) (id : Key) (d : CanonicalDocument) (vs : List DocumentVersion)
    → get id s.documents ≡ some d
    → get id s.versions ≡ some vs
    → version_history s id ≡ ok vs
unfolding version_history
history_of s id d vs found there = ground arith

get_version-history :
    (s : Store) (id : Key) (n : ℕ) (vs : List DocumentVersion) (w : DocumentVersion)
    → version_history s id ≡ ok vs
    → (get_version s id n ≡ ok w) ↔ (find_version n vs ≡ some w)
unfolding get_version
get_version-history s id n vs w history = elim (Option-cases (find_version n vs)) [
  | inl missing ↦ (λ e. ground arith, λ e. ground arith)
  | inr (u, there) ↦ (λ e. ground arith, λ e. ground arith)
]

latest-current :
    (s : Store) (id : Key) (d : CanonicalDocument)
    → get id s.documents ≡ some d
    → latest_version s id ≡ get_version s id d.current_version
unfolding latest_version get_document
latest-current s id d found = ground arith

module _ (content_hash : Key → Key → Key) (template : DocumentCategory → Key) where
  -- Registering a document under an id that is free keeps a canonical repository canonical,
  -- whether it is accepted, denied, or refused as the second of its category.
  pub register_document-IsCanonical :
      (s : Store) (request : RegisterDocumentRequest) (actor_roles : List Key) (id now : Key)
      → IsCanonical content_hash s
      → get id s.documents ≡ none
      → IsCanonical content_hash
          (register_document content_hash template s request actor_roles id now).1
  unfolding register_document register
  register_document-IsCanonical s request actor_roles id now h free_id =
      elim (Bool-cases (has_role actor_roles (policy_of request).write_roles)) [
        | inr denied ↦
            let shape : register_document content_hash template s request actor_roles id now
                ≡ (err permission_denied, s) =
              ground arith in
            rw shape h
        | inl allowed ↦
            elim (Option-cases (get (category_code request.category) s.category_index)) [
              | inr (other, taken) ↦
                  let shape : register_document content_hash template s request actor_roles id now
                      ≡ (err (duplicate_category request.category), s) =
                    ground arith in
                  rw shape h
              | inl free_category ↦
                  let placeholder : Bool = is_none content_hash template request.initial_content in
                  let d =
                    new_document content_hash id request.category request.title request.owner
                      (policy_of request) placeholder now in
                  let v =
                    first_version content_hash id (content_of content_hash template request)
                      request.change_note request.owner now placeholder in
                  let s' : Store = record s {
                    documents = put id d s.documents;
                    versions = put id (v ∷ []) s.versions;
                    category_index = put (category_code request.category) id s.category_index;
                  } in
                  let shape : register_document content_hash template s request actor_roles id now
                      ≡ (ok d, persist id d (v ∷ []) s') =
                    ground arith in
                  rw shape (
                    persist-IsCanonical content_hash id d (v ∷ []) s' (
                      add-IsCanonical content_hash s h id d v free_id free_category refl refl
                        (refl, refl, tt)))
            ]
      ]

  module _ (s : Store) (id : Key) (request : PublishVersionRequest) (actor_roles : List Key)
      (now : Key) (h : IsCanonical content_hash s) where
    abbrev call : Result DocumentError DocumentVersion × Store
    call = publish_document content_hash template s id request actor_roles now

    abbrev Published : Type 0
    Published =
        (d : CanonicalDocument) × (vs : List DocumentVersion) × (l : DocumentVersion) × (get id
            s.documents
          ≡ some d)
        × (has_role actor_roles d.access_policy.write_roles ≡ true)
        × (get id s.versions ≡ some vs)
        × IsChain content_hash 0 0 vs
        × (d.current_version ≡ length vs)
        × (last? vs ≡ some l)
        × (call
            ≡ append_version content_hash s id d vs (next_version content_hash id l request now))

    -- A version is published by an actor with a write role of the document, as the next of its chain;
    -- otherwise the call raises and the store stays as it was.
    publish-branches : Published ⊎ ((e : DocumentError) × (call ≡ (err e, s)))
    unfolding publish_document publish_version get_document
    publish-branches = elim (Option-cases (get id s.documents)) [
      | inl missing ↦ inr (document_not_found, ground arith)
      | inr (d, found) ↦ elim (Bool-cases (has_role actor_roles d.access_policy.write_roles)) [
        | inr denied ↦ inr (permission_denied, ground arith)
        | inl allowed ↦
            let (vs, there, chain, some_version, current) = h.chained id d found in
            let (l, last) = some_last vs some_version in
            inl (d, vs, l, found, allowed, there, chain, current, last, ground arith)
      ]
    ]

    numbered :
        (vs : List DocumentVersion) (l : DocumentVersion)
        → IsChain content_hash 0 0 vs
        → last? vs ≡ some l
        → (next_version content_hash id l request now).version_number ≡ 0 + length vs + 1
    numbered vs l chain last = omega (arith, last-IsChain content_hash 0 0 vs l chain last)

    -- Publishing keeps a canonical repository canonical, whether the version is accepted or the
    -- call raises.
    pub publish_document-IsCanonical : IsCanonical content_hash call.1
    publish_document-IsCanonical = elim publish-branches [
      | inr (e, refused) ↦ rw refused h
      | inl (d, vs, l, found, allowed, there, chain, current, last, wrote) ↦
          let v = next_version content_hash id l request now in
          let number = numbered vs l chain last in
          let s' : Store = record s {
            documents = put id (updated content_hash d v) s.documents;
            versions = put id (vs ++ v ∷ []) s.versions;
          } in
          rw wrote (
            persist-IsCanonical content_hash id (updated content_hash d v) (vs ++ v ∷ []) s' (
              extend-IsCanonical content_hash s h id d (updated content_hash d v) vs v found refl
                refl (omega (arith, number, length-append vs (v ∷ [])))
                (IsChain-append_one content_hash 0 0 vs l v chain last refl refl)))
    ]

    -- In a canonical repository a version that is published becomes the latest, by an actor with
    -- a write role of the document, and a version that could be read before is read unchanged.
    pub publish_document-latest :
        (v : DocumentVersion) (n : ℕ) (w : DocumentVersion)
        → call.0 ≡ ok v
        → get_version s id n ≡ ok w
        → ((d : CanonicalDocument) × (get id s.documents ≡ some d)
            × (has_role actor_roles d.access_policy.write_roles ≡ true))
          × (latest_version call.1 id ≡ ok v)
          × (get_version call.1 id n ≡ ok w)
    publish_document-latest v n w accepted readable = elim publish-branches [
      | inr (e, refused) ↦ cc
      | inl (d, vs, l, found, allowed, there, chain, current, last, wrote) ↦
          let nv = next_version content_hash id l request now in
          let is_new : nv ≡ v = cc in
          let s' : Store = record s {
            documents = put id (updated content_hash d nv) s.documents;
            versions = put id (vs ++ nv ∷ []) s.versions;
          } in
          let after : Store = persist id (updated content_hash d nv) (vs ++ nv ∷ []) s' in
          let (documents, versions) =
            persist-documents id (updated content_hash d nv) (vs ++ nv ∷ []) s' in
          let document_after : get id after.documents ≡ some (updated content_hash d nv) =
            ap (λ x. get id x) documents
            ∙ get-put_self id (updated content_hash d nv) s.documents in
          let versions_after : get id after.versions ≡ some (vs ++ nv ∷ []) =
            ap (λ x. get id x) versions ∙ get-put_self id (vs ++ nv ∷ []) s.versions in
          let before = history_of s id d vs found there in
          let history =
            history_of after id (updated content_hash d nv) (vs ++ nv ∷ []) document_after
              versions_after in
          let latest : latest_version after id ≡ ok nv =
            latest-current after id (updated content_hash d nv) document_after
            ∙ (get_version-history after id nv.version_number (vs ++ nv ∷ []) nv history).1
                (find_version-new content_hash 0 0 vs nv chain (numbered vs l chain last)) in
          let kept : (n : ℕ) (w : DocumentVersion)
              → get_version s id n ≡ ok w
              → get_version after id n ≡ ok w =
            λ n w e. (get_version-history after id n (vs ++ nv ∷ []) w history).1 (
              find_version-append content_hash n vs w nv
                ((get_version-history s id n vs w before).0 e)) in
          let moved : call.1 ≡ after = ap (λ x. x.1) wrote in
          (
            (d, found, allowed),
            ap (λ x. latest_version x id) moved ∙ latest ∙ ap (λ x. ok x) is_new,
            ap (λ x. get_version x id n) moved ∙ kept n w readable,
          )
    ]

  -- In a canonical repository the chain of every document verifies.
  pub verify_chain-IsCanonical :
      (s : Store) (id : Key) (d : CanonicalDocument)
      → IsCanonical content_hash s
      → get id s.documents ≡ some d
      → verify_chain content_hash s id
        ≡ ok (record {
          document_id = id;
          versions_checked = d.current_version;
          chain_intact = true;
          mismatched_versions = [];
        })
  unfolding verify_chain version_history
  verify_chain-IsCanonical s id d h found =
      let (vs, there, chain, some_version, current) = h.chained id d found in
      let intact = mismatches-IsChain content_hash 0 0 vs chain in ground arith

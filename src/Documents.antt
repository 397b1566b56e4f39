-- ===== src/Documents.antt =====
-- canonical_repository/store.py: `CanonicalRepositoryStore`. `content_hash` stands for
-- `_content_hash` from a previous hash and a content, SHA-256 of the one followed by the other,
-- which is Python's own. Ids and the clock's readings are inputs. A document and its versions are
-- mirrored as one record in the artifact store, where there is one.
pub mod Models
pub mod Service
pub mod Chain
pub mod Canonical
pub mod Operations
mod Tests
pub use Models.*
use bhiv_masterdb_ingestion.Prelude.{
  ℕ, ◌+◌, Bool, true, false, not, Option, none, some, List, [], ◌∷◌, ◌++◌, Key, Result, ok, err,
  length, last?, is_some, if◌then◌else◌, ◌==◌,
}
use bhiv_masterdb_ingestion.Prelude.Dict.{Dict, get, put, values}

pub data DocumentError : Type 0 where
  document_not_found : DocumentError
  duplicate_category : DocumentCategory → DocumentError
  permission_denied : DocumentError
  -- a KeyError or an IndexError of a lookup that is not guarded
  lookup_failed : DocumentError

-- One record of the artifact store.
pub record Stored : Type 0 where
  pub document : CanonicalDocument
  pub versions : List DocumentVersion

pub record Store : Type 0 where
  pub documents : Dict CanonicalDocument
  pub versions : Dict (List DocumentVersion)
  -- by the code of the category
  pub category_index : Dict Key
  pub artifact_store : Option (Dict Stored)

abbrev pub category_code : DocumentCategory → Key
category_code bcab = 1
category_code bcaes_vol_1 = 2
category_code bcaes_vol_2 = 3
category_code bcaes_vol_3 = 4
category_code bcaes_vol_4 = 5
category_code bcaes_vol_5 = 6
category_code bcaes_vol_6 = 7
category_code bcaes_vol_7 = 8

-- The loop of `reload_from_persistent_store`.
abbrev reloaded : List Stored → Store → Store
reloaded [] s = s
reloaded (r ∷ rs) s = reloaded rs (record s {
  documents = put r.document.id r.document s.documents;
  versions = put r.document.id r.versions s.versions;
  category_index = put (category_code r.document.category) r.document.id s.category_index;
})

unfoldable pub reload_from_persistent_store : Store → Store
reload_from_persistent_store s = elim s.artifact_store [
  | none ↦ s
  | some records ↦
      reloaded (values records) (record s { documents = []; versions = []; category_index = [] })
]

-- `_persist`
abbrev pub persist : Key → CanonicalDocument → List DocumentVersion → Store → Store
persist id d vs s = elim s.artifact_store [
  | none ↦ s
  | some records ↦ record s {
    artifact_store = some (put id (record { document = d; versions = vs }) records);
  }
]

unfoldable pub get_document : Store → Key → Result DocumentError CanonicalDocument
get_document s id = elim (get id s.documents) [ none ↦ err document_not_found | some d ↦ ok d ]

unfoldable pub get_by_category : Store → DocumentCategory → Result DocumentError CanonicalDocument
get_by_category s category = elim (get (category_code category) s.category_index) [
  | none ↦ err document_not_found
  | some id ↦ elim (get id s.documents) [ none ↦ err lookup_failed | some d ↦ ok d ]
]

unfoldable pub list_all : Store → List CanonicalDocument
list_all s = values s.documents

unfoldable pub version_history : Store → Key → Result DocumentError (List DocumentVersion)
version_history s id = elim (get id s.documents) [
  | none ↦ err document_not_found
  | some d ↦ elim (get id s.versions) [ none ↦ err lookup_failed | some vs ↦ ok vs ]
]

abbrev pub find_version : ℕ → List DocumentVersion → Option DocumentVersion
find_version n [] = none
find_version n (v ∷ vs) = if v.version_number == n then some v else find_version n vs

abbrev pub in_history :
    ℕ → Result DocumentError (List DocumentVersion) → Result DocumentError DocumentVersion
in_history n (err e) = err e
in_history n (ok vs) = elim (find_version n vs) [ none ↦ err document_not_found | some v ↦ ok v ]

unfoldable pub get_version : Store → Key → ℕ → Result DocumentError DocumentVersion
unfolding version_history
get_version s id n = in_history n (version_history s id)

unfoldable pub latest_version : Store → Key → Result DocumentError DocumentVersion
unfolding get_document get_version
latest_version s id = elim (get_document s id) [
  | err e ↦ err e
  | ok d ↦ get_version s id d.current_version
]

-- What `verify_chain` reports.
pub record ChainReport : Type 0 where
  pub document_id : Key
  pub versions_checked : ℕ
  pub chain_intact : Bool
  pub mismatched_versions : List ℕ

abbrev is_empty : List ℕ → Bool
is_empty [] = true
is_empty (_ ∷ _) = false

module _ (content_hash : Key → Key → Key) where
  abbrev pub first_version : Key → Key → Key → Key → Key → Bool → DocumentVersion
  first_version id content change_note owner now is_placeholder = record {
    document_id = id;
    version_number = 1;
    content = content;
    content_hash = content_hash 0 content;
    change_note = change_note;
    published_by = owner;
    published_at = now;
    is_placeholder = is_placeholder;
  }

  abbrev pub new_document :
      Key → DocumentCategory → Key → Key → AccessPolicy → Bool → Key → CanonicalDocument
  new_document id category title owner policy is_placeholder now = record {
    id = id;
    category = category;
    title = title;
    owner = owner;
    status = if is_placeholder then placeholder else draft;
    access_policy = policy;
    current_version = 1;
    created_at = now;
    updated_at = now;
  }

  unfoldable pub register :
      Store
      → DocumentCategory
      → Key
      → Key
      → AccessPolicy
      → Key
      → Key
      → Bool
      → Key
      → Key
      → Result DocumentError CanonicalDocument × Store
  register s category title owner policy content change_note is_placeholder id now =
      if is_some (get (category_code category) s.category_index)
      then (err (duplicate_category category), s)
      else let d = new_document id category title owner policy is_placeholder now in
        let vs : List DocumentVersion =
          first_version id content change_note owner now is_placeholder ∷ [] in
        (
          ok d,
          persist id d vs (record s {
            documents = put id d s.documents;
            versions = put id vs s.versions;
            category_index = put (category_code category) id s.category_index;
          }),
        )

  abbrev pub next_version : Key → DocumentVersion → PublishVersionRequest → Key → DocumentVersion
  next_version id last request now = record {
    document_id = id;
    version_number = last.version_number + 1;
    content = request.content;
    content_hash = content_hash last.content_hash request.content;
    change_note = request.change_note;
    published_by = request.published_by;
    published_at = now;
    is_placeholder = false;
  }

  abbrev pub updated : CanonicalDocument → DocumentVersion → CanonicalDocument
  updated d v = record d {
    status = published;
    current_version = v.version_number;
    updated_at = v.published_at;
  }

  abbrev pub append_version :
      Store
      → Key
      → CanonicalDocument
      → List DocumentVersion
      → DocumentVersion
      → Result DocumentError DocumentVersion × Store
  append_version s id d vs v = (
    ok v,
    persist id (updated d v) (vs ++ v ∷ []) (record s {
      documents = put id (updated d v) s.documents;
      versions = put id (vs ++ v ∷ []) s.versions;
    }),
  )

  unfoldable pub publish_version :
      Store → Key → PublishVersionRequest → Key → Result DocumentError DocumentVersion × Store
  publish_version s id request now = elim (get id s.documents) [
    | none ↦ (err document_not_found, s)
    | some d ↦ elim (get id s.versions) [
      | none ↦ (err lookup_failed, s)
      | some vs ↦ elim (last? vs) [
        | none ↦ (err lookup_failed, s)
        | some last ↦ append_version s id d vs (next_version id last request now)
      ]
    ]
  ]

  -- The loop of `verify_chain`.
  abbrev pub mismatches : Key → List DocumentVersion → List ℕ
  mismatches previous [] = []
  mismatches previous (v ∷ vs) =
      let rest = mismatches v.content_hash vs in
      if content_hash previous v.content == v.content_hash then rest else v.version_number ∷ rest

  abbrev pub report_on : Key → List DocumentVersion → ChainReport
  report_on id vs = record {
    document_id = id;
    versions_checked = length vs;
    chain_intact = is_empty (mismatches 0 vs);
    mismatched_versions = mismatches 0 vs;
  }

  unfoldable pub verify_chain : Store → Key → Result DocumentError ChainReport
  unfolding version_history
  verify_chain s id = elim (version_history s id) [ err e ↦ err e | ok vs ↦ ok (report_on id vs) ]

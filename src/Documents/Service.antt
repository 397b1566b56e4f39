-- ===== src/Documents/Service.antt =====
-- canonical_repository/service.py: `CanonicalRepositoryService`, the store behind checks of roles.
use bhiv_masterdb_ingestion.Prelude.{
  ℕ, Bool, true, false, ◌||◌, Option, none, some, List, [], ◌∷◌, Key, Result, ok, err, elem, truthy,
  if◌then◌else◌,
}
use bhiv_masterdb_ingestion.Documents.{
  AccessPolicy, default_policy, RegisterDocumentRequest, PublishVersionRequest, DocumentVersion,
  CanonicalDocument, DocumentCategory, DocumentError, permission_denied, Store, ChainReport,
  register, publish_version, get_document, get_by_category, list_all, version_history, get_version,
  latest_version, verify_chain,
}

-- auth/constants.py
abbrev pub admin_role : Key
admin_role = 44

abbrev pub shares : List Key → List Key → Bool
shares [] allowed = false
shares (r ∷ rs) allowed = elem r allowed || shares rs allowed

abbrev pub has_role : List Key → List Key → Bool
has_role actor_roles allowed =
    if elem admin_role actor_roles then true else shares actor_roles allowed

-- `request.access_policy or AccessPolicy()`
abbrev pub policy_of : RegisterDocumentRequest → AccessPolicy
policy_of request = elim request.access_policy [ none ↦ default_policy | some p ↦ p ]

-- A read of one document, after the check of its read roles.
abbrev pub checked_read :
    {A : Type 0}
    → List Key
    → Result DocumentError CanonicalDocument
    → (CanonicalDocument → Result DocumentError A)
    → Result DocumentError A
checked_read actor_roles (err e) f = err e
checked_read actor_roles (ok d) f =
    if has_role actor_roles d.access_policy.read_roles then f d else err permission_denied

-- `content_hash` as in the store; `template` stands for the placeholder's text of a category.
module _ (content_hash : Key → Key → Key) (template : DocumentCategory → Key) where
  -- `request.initial_content or <the template>`
  abbrev pub content_of : RegisterDocumentRequest → Key
  content_of request = elim request.initial_content [
    | none ↦ template request.category
    | some c ↦ if truthy c then c else template request.category
  ]

  abbrev pub is_none : Option Key → Bool
  is_none none = true
  is_none (some _) = false

  unfoldable pub register_document :
      Store
      → RegisterDocumentRequest
      → List Key
      → Key
      → Key
      → Result DocumentError CanonicalDocument × Store
  unfolding register
  register_document s request actor_roles id now =
      let policy = policy_of request in
      if has_role actor_roles policy.write_roles
      then register content_hash s request.category request.title request.owner policy
          (content_of request) request.change_note (is_none request.initial_content) id now
      else (err permission_denied, s)

  unfoldable pub publish_document :
      Store
      → Key
      → PublishVersionRequest
      → List Key
      → Key
      → Result DocumentError DocumentVersion × Store
  unfolding get_document publish_version
  publish_document s id request actor_roles now = elim (get_document s id) [
    | err e ↦ (err e, s)
    | ok d ↦
        if has_role actor_roles d.access_policy.write_roles
        then publish_version content_hash s id request now
        else (err permission_denied, s)
  ]

  unfoldable pub read_document : Store → Key → List Key → Result DocumentError CanonicalDocument
  unfolding get_document
  read_document s id roles = checked_read roles (get_document s id) (λ d. ok d)

  unfoldable pub read_by_category :
      Store → DocumentCategory → List Key → Result DocumentError CanonicalDocument
  unfolding get_by_category
  read_by_category s category roles = checked_read roles (get_by_category s category) (λ d. ok d)

  unfoldable pub read_versions :
      Store → Key → List Key → Result DocumentError (List DocumentVersion)
  unfolding get_document version_history
  read_versions s id roles = checked_read roles (get_document s id) (λ d. version_history s id)

  unfoldable pub read_version : Store → Key → ℕ → List Key → Result DocumentError DocumentVersion
  unfolding get_document get_version
  read_version s id n roles = checked_read roles (get_document s id) (λ d. get_version s id n)

  unfoldable pub read_latest : Store → Key → List Key → Result DocumentError DocumentVersion
  unfolding get_document latest_version
  read_latest s id roles = checked_read roles (get_document s id) (λ d. latest_version s id)

  unfoldable pub read_chain : Store → Key → List Key → Result DocumentError ChainReport
  unfolding get_document verify_chain
  read_chain s id roles =
      checked_read roles (get_document s id) (λ d. verify_chain content_hash s id)

  abbrev readable : List Key → List CanonicalDocument → List CanonicalDocument
  readable roles [] = []
  readable roles (d ∷ ds) =
      if has_role roles d.access_policy.read_roles then d ∷ readable roles ds else readable roles ds

  -- A list shows what the actor may read.
  unfoldable pub read_all : Store → List Key → List CanonicalDocument
  unfolding list_all
  read_all s roles = readable roles (list_all s)

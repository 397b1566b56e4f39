-- ===== src/Bcaes/Service/Access.antt =====
-- bcaes_registry/service.py: who may change the registry.
use bhiv_masterdb_ingestion.Prelude.{
  ◌≡◌, refl, ◌⊎◌, inl, inr, true, Option, none, some, List, [], ◌∷◌, ok, arith, Bool-cases,
  Result-cases,
}
use bhiv_masterdb_ingestion.Prelude.Text.{Text, same_text_refl, elem_text}
use bhiv_masterdb_ingestion.Bcaes.Models.{RegistryObject}
use bhiv_masterdb_ingestion.Bcaes.Store.{CanonicalRegistryStore, get_object}
use bhiv_masterdb_ingestion.Bcaes.Service.{
  admin_role, share, given_roles, has_authority, register, update, delete, Call, registering,
  updating, deleting, run,
}
use bhiv_masterdb_ingestion.Bcaes.Service.Kept.{plain}

-- Some role stands in both lists.
abbrev pub Shared : List Text → List Text → Type 0
Shared roles boundaries = (r : Text) × (elem_text r roles ≡ true) × (elem_text r boundaries ≡ true)

share-Shared :
    (roles boundaries : List Text) → share roles boundaries ≡ true → Shared roles boundaries
share-Shared [] boundaries h = cc
share-Shared (r ∷ roles) boundaries h = elim (Bool-cases (elem_text r boundaries)) [
  | inl here ↦ (r, ground (arith, same_text_refl r), here)
  | inr away ↦
      let (q, held, wanted) = share-Shared roles boundaries (ground arith) in
      (q, ground arith, wanted)
]

-- The actor is known, and is an administrator, or is named in the boundaries, or holds a role named
-- there.
abbrev pub IsAuthorised : Option Text → Option (List Text) → List Text → Type 0
IsAuthorised actor roles boundaries =
    (a : Text) × (actor ≡ some a)
    × ((elem_text admin_role (given_roles roles) ≡ true)
        ⊎ (elem_text a boundaries ≡ true)
        ⊎ Shared (given_roles roles) boundaries)

has_authority-IsAuthorised :
    (actor : Option Text) (roles : Option (List Text)) (boundaries : List Text)
    → has_authority actor roles boundaries ≡ true
    → IsAuthorised actor roles boundaries
unfolding has_authority
has_authority-IsAuthorised none roles boundaries h = cc
has_authority-IsAuthorised (some a) roles boundaries h =
    let held = share-Shared (given_roles roles) boundaries in
    elim (Bool-cases (elem_text admin_role (given_roles roles))) [
      | inl admin ↦ (a, refl, inl admin)
      | inr plain ↦ elim (Bool-cases (elem_text a boundaries)) [
        | inl named ↦ (a, refl, inr (inl named))
        | inr other ↦ (a, refl, inr (inr (held (ground arith))))
      ]
    ]

-- The boundaries that the call is checked against: those of the request for a registration, those of
-- the object for the others; there are none where the object is missing.
abbrev pub MayRun : CanonicalRegistryStore → Call → Type 0
MayRun s (registering t request actor roles id now) =
    IsAuthorised actor roles request.authority_boundaries
MayRun s (updating t id request actor roles now) =
    (o : RegistryObject) × (get_object s t id ≡ ok o)
    × IsAuthorised actor roles o.authority_boundaries
MayRun s (deleting t id actor roles) =
    (o : RegistryObject) × (get_object s t id ≡ ok o)
    × IsAuthorised actor roles o.authority_boundaries

-- A registration, an update or a deletion changes nothing unless the actor is authorised: known, and
-- an administrator, or named in the authority boundaries of the request or of the existing object, or
-- the holder of a role named there.
pub run-MayRun : (s : CanonicalRegistryStore) (c : Call) → (run s c ≡ s) ⊎ MayRun s c
unfolding run register update delete
run-MayRun s (registering t request actor roles id now) =
    elim (Bool-cases (has_authority actor roles request.authority_boundaries)) [
      | inl may ↦ inr (has_authority-IsAuthorised actor roles request.authority_boundaries may)
      | inr denied ↦ inl (ground arith)
    ]
run-MayRun s (updating t id request actor roles now) = elim (Result-cases (get_object s t id)) [
  | inr (e, gone) ↦ inl (ground arith)
  | inl (o, found) ↦ elim (Bool-cases (has_authority actor roles o.authority_boundaries)) [
    | inl may ↦ inr (o, found, has_authority-IsAuthorised actor roles o.authority_boundaries may)
    | inr denied ↦ inl (ground arith)
  ]
]
run-MayRun s (deleting t id actor roles) = elim (Result-cases (get_object s t id)) [
  | inr (e, gone) ↦ inl (ground arith)
  | inl (o, found) ↦ elim (Bool-cases (has_authority actor roles o.authority_boundaries)) [
    | inl may ↦ inr (o, found, has_authority-IsAuthorised actor roles o.authority_boundaries may)
    | inr denied ↦ inl (ground arith)
  ]
]

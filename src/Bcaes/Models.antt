-- ===== src/Bcaes/Models.antt =====
-- bcaes_registry/models.py: the eleven registries, their objects and the requests. Names, purposes,
-- owners, versions and authority boundaries are texts, since the code looks inside them.
use bhiv_masterdb_ingestion.Prelude.{
  ℕ, Bool, true, Option, none, some, List, [], ◌∷◌, Key, ◌==◌, if◌then◌else◌, ◌||◌, ◌≡◌, refl, sym,
  ap, ◌∙◌, ==→eq, ==_refl,
}
use bhiv_masterdb_ingestion.Prelude.Text.{Text, is_empty, strip}

pub data RegistryType : Type 0 where
  domain capability platform_service product program framework engine runtime integration
        knowledge_asset interface :
      RegistryType

-- The place of a registry in the enumeration.
abbrev pub code : RegistryType → ℕ
code domain = 0
code capability = 1
code platform_service = 2
code product = 3
code program = 4
code framework = 5
code engine = 6
code runtime = 7
code integration = 8
code knowledge_asset = 9
code interface = 10

-- `list(RegistryType)`
abbrev pub registry_types : List RegistryType
registry_types =
    domain ∷ capability ∷ platform_service ∷ product ∷ program ∷ framework ∷ engine ∷ runtime
    ∷ integration ∷ knowledge_asset ∷ interface ∷ []

unfoldable pub same_type : RegistryType → RegistryType → Bool
same_type a b = code a == code b

pub data ObjectStatus : Type 0 where
  draft active deprecated retired : ObjectStatus

pub record DependencyRef : Type 0 where
  pub id : Key
  pub required_version : Option Text

pub record RegisterObjectRequest : Type 0 where
  pub name : Text
  pub purpose : Text
  pub owner : Text
  pub status : ObjectStatus
  pub version : Text
  pub authority_boundaries : List Text
  pub dependencies : List DependencyRef
  pub links : List Text

-- `_non_empty`
unfoldable pub non_empty : Text → Option Text
non_empty v = if is_empty v || is_empty (strip v) then none else some (strip v)

pub record UpdateObjectRequest : Type 0 where
  pub name : Option Text
  pub purpose : Option Text
  pub owner : Option Text
  pub status : Option ObjectStatus
  pub version : Option Text
  pub authority_boundaries : Option (List Text)
  pub dependencies : Option (List DependencyRef)
  pub links : Option (List Text)

pub record RegistryObject : Type 0 where
  pub id : Key
  pub registry_type : RegistryType
  pub classification : RegistryType
  pub name : Text
  pub purpose : Text
  pub owner : Text
  pub status : ObjectStatus
  pub version : Text
  pub dependencies : List DependencyRef
  pub consumers : List Key
  pub authority_boundaries : List Text
  pub links : List Text
  pub created_at : Key
  pub updated_at : Key

decode : ℕ → RegistryType
decode n =
    if n == 0
    then domain
    else if n == 1
    then capability
    else if n == 2
    then platform_service
    else if n == 3
    then product
    else if n == 4
    then program
    else if n == 5
    then framework
    else if n == 6
    then engine
    else if n == 7
    then runtime
    else if n == 8
    then integration
    else if n == 9
    then knowledge_asset
    else interface

decode-code : (t : RegistryType) → decode (code t) ≡ t
unfolding decode
decode-code domain = refl
decode-code capability = refl
decode-code platform_service = refl
decode-code product = refl
decode-code program = refl
decode-code framework = refl
decode-code engine = refl
decode-code runtime = refl
decode-code integration = refl
decode-code knowledge_asset = refl
decode-code interface = refl

pub same_type→eq : (a b : RegistryType) → same_type a b ≡ true → a ≡ b
unfolding same_type
same_type→eq a b h = sym (decode-code a) ∙ ap decode (==→eq (code a) (code b) h) ∙ decode-code b

pub same_type_refl : (a : RegistryType) → same_type a a ≡ true
unfolding same_type
same_type_refl a = ==_refl (code a)

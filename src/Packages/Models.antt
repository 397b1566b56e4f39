-- ===== src/Packages/Models.antt =====
-- models.py: packages and their transitions.
use bhiv_masterdb_ingestion.Prelude.{Option, List, Key}
use bhiv_masterdb_ingestion.Lifecycle.{PackageStatus}

pub record PackageTransition : Type 0 where
  pub transition_id : Key
  pub from_status : Option PackageStatus
  pub to_status : PackageStatus
  pub reason : Key
  pub actor : Key
  pub timestamp : Key
  pub expires_at : Option Key

pub record KnowledgePackage : Type 0 where
  pub package_id : Key
  pub dataset_id : Key
  pub dataset_version : Key
  pub schema_version : Key
  pub board : Key
  pub medium : Key
  pub language : Key
  pub owner : Key
  pub created_at : Key
  pub updated_at : Key
  pub status : PackageStatus
  pub history : List PackageTransition

pub record PackageRegisterRequest : Type 0 where
  pub package_id : Option Key
  pub dataset_id : Key
  pub dataset_version : Key
  pub schema_version : Key
  pub board : Key
  pub medium : Key
  pub language : Key
  pub owner : Key
  pub actor : Key
  pub reason : Key

-- ===== src/Documents/Models.antt =====
-- canonical_repository/models.py. The content of a version is a `Key`: it is hashed and kept.
use bhiv_masterdb_ingestion.Prelude.{ℕ, Bool, Option, List, Key, [], ◌∷◌}

pub data DocumentCategory : Type 0 where
  bcab bcaes_vol_1 bcaes_vol_2 bcaes_vol_3 : DocumentCategory
  bcaes_vol_4 bcaes_vol_5 bcaes_vol_6 bcaes_vol_7 : DocumentCategory

pub data DocumentStatus : Type 0 where
  placeholder draft published deprecated : DocumentStatus

pub record AccessPolicy : Type 0 where
  pub read_roles : List Key
  pub write_roles : List Key

-- "ecosystem-reader" and "bcaes-editor"
abbrev pub ecosystem_reader : Key
ecosystem_reader = 46

abbrev pub bcaes_editor : Key
bcaes_editor = 45

-- `AccessPolicy()`
abbrev pub default_policy : AccessPolicy
default_policy = record { read_roles = ecosystem_reader ∷ []; write_roles = bcaes_editor ∷ [] }

pub record RegisterDocumentRequest : Type 0 where
  pub category : DocumentCategory
  pub title : Key
  pub owner : Key
  pub access_policy : Option AccessPolicy
  pub initial_content : Option Key
  pub change_note : Key

pub record PublishVersionRequest : Type 0 where
  pub content : Key
  pub change_note : Key
  pub published_by : Key

pub record DocumentVersion : Type 0 where
  pub document_id : Key
  pub version_number : ℕ
  pub content : Key
  pub content_hash : Key
  pub change_note : Key
  pub published_by : Key
  pub published_at : Key
  pub is_placeholder : Bool

pub record CanonicalDocument : Type 0 where
  pub id : Key
  pub category : DocumentCategory
  pub title : Key
  pub owner : Key
  pub status : DocumentStatus
  pub access_policy : AccessPolicy
  pub current_version : ℕ
  pub created_at : Key
  pub updated_at : Key

-- ===== src/SharedRecords.antt =====
-- services/shared_record_store.py: `SharedRecordStore`, with its models of models.py. The store
-- keeps each record as one JSON file under its id; here it is the dictionary of the records that the
-- files hold. The values of a payload are of any type, fresh ids and the clock's readings are
-- inputs.
pub mod Replayed
mod Tests
use bhiv_masterdb_ingestion.Prelude.{
  ℕ, ◌+◌, Bool, true, false, not, ◌&&◌, ◌||◌, Option, none, some, List, [], ◌∷◌, ◌++◌, Key, Result,
  ok, err, is_some, if◌then◌else◌, ◌==◌,
}
use bhiv_masterdb_ingestion.Prelude.Dict.{Dict, get, put, contains}

pub data Action : Type 0 where
  registered_action updated_action deprecated_action : Action

pub record SharedRecordTransition : Type 0 where
  pub transition_id : Key
  pub version : ℕ
  pub action : Action
  pub actor : Key
  pub reason : Key
  pub timestamp : Key
  pub expires_at : Option Key

pub record SharedRecord (V : Type 0) : Type 0 where
  pub record_id : Key
  pub dataset : Key
  pub payload : Dict V
  pub version : ℕ
  pub deprecated : Bool
  pub created_at : Key
  pub updated_at : Key
  pub history : List SharedRecordTransition

pub record SharedStore (V : Type 0) : Type 0 where
  pub dataset : Key
  pub required_fields : List Key
  pub records : Dict (SharedRecord V)

pub data SharedRecordError : Type 0 where
  not_found already_exists is_deprecated : Key → SharedRecordError
  missing_fields : List Key → SharedRecordError

pub record Fresh : Type 0 where
  pub transition_id : Key
  pub created_at : Key
  pub updated_at : Key
  pub timestamp : Key

abbrev new_transition : ℕ → Action → Key → Key → Fresh → SharedRecordTransition
new_transition version action actor reason fresh = record {
  transition_id = fresh.transition_id;
  version = version;
  action = action;
  actor = actor;
  reason = reason;
  timestamp = fresh.timestamp;
  expires_at = none;
}

-- What `replay` reports.
pub data ReplayReport : Type 0 where
  -- transition, its version, the version expected
  bad_version : Key → ℕ → ℕ → ReplayReport
  -- consistent, replayed version, replayed and stored
  compared : Bool → ℕ → Bool → ℕ → Bool → ReplayReport

abbrev is_deprecation : Action → Bool
is_deprecation deprecated_action = true
is_deprecation _ = false

-- The loop of `replay`, from an index.
abbrev pub walk : ℕ → ℕ → Bool → List SharedRecordTransition → Result (Key × ℕ × ℕ) (ℕ × Bool)
walk index version deprecated [] = ok (version, deprecated)
walk index version deprecated (t ∷ ts) =
    if t.version == index + 1
    then walk (index + 1) t.version (deprecated || is_deprecation t.action) ts
    else err (t.transition_id, t.version, index + 1)

abbrev same_bool : Bool → Bool → Bool
same_bool true b = b
same_bool false b = not b

module _ {V : Type 0} where
  -- `_validate_payload`
  abbrev pub missing : List Key → Dict V → List Key
  missing [] payload = []
  missing (f ∷ fs) payload =
      if contains f payload then missing fs payload else f ∷ missing fs payload

  abbrev pub save :
      SharedStore V → SharedRecord V → Result SharedRecordError (SharedRecord V) × SharedStore V
  save s r = (ok r, record s { records = put r.record_id r s.records })

  abbrev pub validated :
      SharedStore V
      → Dict V
      → SharedRecord V
      → Result SharedRecordError (SharedRecord V) × SharedStore V
  validated s payload r = elim (missing s.required_fields payload) [
    | [] ↦ save s r
    | f ∷ fs ↦ (err (missing_fields (f ∷ fs)), s)
  ]

  abbrev pub new_record : Key → Key → Dict V → Key → Key → Fresh → SharedRecord V
  new_record dataset id payload actor reason fresh = record {
    record_id = id;
    dataset = dataset;
    payload = payload;
    version = 1;
    deprecated = false;
    created_at = fresh.created_at;
    updated_at = fresh.updated_at;
    history = new_transition 1 registered_action actor reason fresh ∷ [];
  }

  unfoldable pub register :
      SharedStore V
      → Key
      → Dict V
      → Key
      → Key
      → Fresh
      → Result SharedRecordError (SharedRecord V) × SharedStore V
  register s id payload actor reason fresh =
      if is_some (get id s.records)
      then (err (already_exists id), s)
      else validated s payload (new_record s.dataset id payload actor reason fresh)

  abbrev pub updated : SharedRecord V → Dict V → Key → Key → Fresh → SharedRecord V
  updated r payload actor reason fresh = record r {
    payload = payload;
    version = r.version + 1;
    updated_at = fresh.updated_at;
    history = r.history ++ new_transition (r.version + 1) updated_action actor reason fresh ∷ [];
  }

  unfoldable pub update :
      SharedStore V
      → Key
      → Dict V
      → Key
      → Key
      → Fresh
      → Result SharedRecordError (SharedRecord V) × SharedStore V
  update s id payload actor reason fresh = elim (get id s.records) [
    | none ↦ (err (not_found id), s)
    | some r ↦
        if r.deprecated
        then (err (is_deprecated id), s)
        else validated s payload (updated r payload actor reason fresh)
  ]

  abbrev pub withdrawn : SharedRecord V → Key → Key → Fresh → SharedRecord V
  withdrawn r actor reason fresh = record r {
    version = r.version + 1;
    deprecated = true;
    updated_at = fresh.updated_at;
    history = r.history ++ new_transition (r.version + 1) deprecated_action actor reason fresh ∷ [];
  }

  unfoldable pub deprecate :
      SharedStore V
      → Key
      → Key
      → Key
      → Fresh
      → Result SharedRecordError (SharedRecord V) × SharedStore V
  deprecate s id actor reason fresh = elim (get id s.records) [
    | none ↦ (err (not_found id), s)
    | some r ↦
        if r.deprecated
        then (err (is_deprecated id), s)
        else save s (withdrawn r actor reason fresh)
  ]

  abbrev pub report_of : SharedRecord V → Result (Key × ℕ × ℕ) (ℕ × Bool) → ReplayReport
  report_of r (err (id, found, expected)) = bad_version id found expected
  report_of r (ok (version, deprecated)) =
      compared (version == r.version && same_bool deprecated r.deprecated) version deprecated
        r.version r.deprecated

  unfoldable pub replay : SharedStore V → Key → Result SharedRecordError ReplayReport
  replay s id = elim (get id s.records) [
    | none ↦ err (not_found id)
    | some r ↦ ok (report_of r (walk 0 0 false r.history))
  ]

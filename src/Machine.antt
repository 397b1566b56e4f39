-- ===== src/Machine.antt =====
-- services/state_machine.py: `EntityState` and `PravahStateMachine`. A transition holds the lock of
-- its entity from its first read to its last write, so it is one step. The rule engine and the
-- lifecycle graph are set by the constructor and never written again.
pub mod Defaults
pub mod Consistent
pub mod Transitions
pub mod Entities
mod Tests
use bhiv_masterdb_ingestion.Prelude.{
  ℕ, ◌+◌, Bool, true, false, not, ◌&&◌, Option, none, some, List, [], ◌∷◌, ◌++◌, Key, Result, ok,
  err, elem, if◌then◌else◌,
}
use bhiv_masterdb_ingestion.Prelude.Dict.{Dict, get, put, contains}
use bhiv_masterdb_ingestion.Prelude.Sort.{sorted}
use bhiv_masterdb_ingestion.Json.{Json}
use bhiv_masterdb_ingestion.Lifecycle.{PackageStatus, registered, value, same, among}
use bhiv_masterdb_ingestion.Rules.{RuleResult, Reason, RuleEngine, evaluate}

-- models_pravah.py
pub data PravahEntityType : Type 0 where
  knowledge_package dataset capability task pipeline : PravahEntityType

-- One entry of `transition_log`.
pub record LogEntry : Type 0 where
  pub event_id : Key
  pub from_status : PackageStatus
  pub to_status : PackageStatus
  pub rule_result : RuleResult
  pub version : ℕ

pub record EntityState (V : Type 0) : Type 0 where
  pub entity_id : Key
  pub entity_type : PravahEntityType
  pub current_status : PackageStatus
  pub version : ℕ
  pub applied_events : List Key
  pub metadata : Dict V
  pub transition_log : List LogEntry

-- What `canonical_dict` keeps, its events sorted. Its metadata is written in key order by `json`
-- with `sort_keys`; here it is kept as the dictionary.
pub record Canonical (V : Type 0) : Type 0 where
  pub entity_id : Key
  pub entity_type : PravahEntityType
  pub current_status : PackageStatus
  pub version : ℕ
  pub applied_events : List Key
  pub metadata : Dict V

pub data TransitionError : Type 0 where
  not_allowed : Key → PackageStatus → PackageStatus → List PackageStatus → TransitionError
  rule_check_failed : Key → PackageStatus → PackageStatus → Reason → TransitionError
  -- `dict.update` raised a TypeError or a ValueError
  bad_metadata : TransitionError

-- `isinstance(e, InvalidStateTransitionError)`
abbrev pub is_invalid_transition : TransitionError → Bool
is_invalid_transition bad_metadata = false
is_invalid_transition _ = true

-- The dictionary of all entities.
abbrev pub Machine : Type 0 → Type 0
Machine V = Dict (EntityState V)

module _ {V : Type 0} where
  -- `EntityState(...)`
  abbrev pub new_state : Key → PravahEntityType → PackageStatus → EntityState V
  new_state id type status = record {
    entity_id = id;
    entity_type = type;
    current_status = status;
    version = 1;
    applied_events = [];
    metadata = [];
    transition_log = [];
  }

  unfoldable pub canonical_dict : EntityState V → Canonical V
  canonical_dict s = record {
    entity_id = s.entity_id;
    entity_type = s.entity_type;
    current_status = s.current_status;
    version = s.version;
    applied_events = sorted s.applied_events;
    metadata = s.metadata;
  }

  abbrev pub get_or_create_state :
      Machine V → Key → PravahEntityType → PackageStatus → EntityState V × Machine V
  get_or_create_state m id type initial = elim (get id m) [
    | some s ↦ (s, m)
    | none ↦ (new_state id type initial, put id (new_state id type initial) m)
  ]

  -- `metadata.update(items)`
  abbrev pub update : Dict V → Dict V → Dict V
  update d [] = d
  update d ((k, v) ∷ items) = update (put k v d) items

module _ (J : Json) where
  open J use {Value, is_true, items}

  -- `if metadata_updates: state.metadata.update(metadata_updates)`
  abbrev pub merge : Option Value → Dict Value → Option (Dict Value)
  merge none d = some d
  merge (some v) d =
      if is_true v then elim (items v) [ none ↦ none | some new ↦ some (update d new) ] else some d

  -- The entry that `transition` logs.
  abbrev pub entry_of : EntityState Value → PackageStatus → Key → RuleResult → LogEntry
  entry_of state target event_id rule_result = record {
    event_id = event_id;
    from_status = state.current_status;
    to_status = target;
    rule_result = rule_result;
    version = state.version + 1;
  }

  -- The writes at the end of `transition`, in their order: the status, the version and the event
  -- are there when `update` raises, the metadata and the log entry are not. The items that
  -- `update` may have written before it raises are not modelled.
  abbrev pub write :
      EntityState Value
      → PackageStatus
      → Key
      → RuleResult
      → Option (Dict Value)
      → Result TransitionError (EntityState Value) × EntityState Value
  write state target event_id rule_result none = (
    err bad_metadata,
    record state {
      current_status = target;
      version = state.version + 1;
      applied_events = state.applied_events ++ event_id ∷ [];
    },
  )
  write state target event_id rule_result (some metadata) =
      let logged : EntityState Value = record state {
        current_status = target;
        version = state.version + 1;
        applied_events = state.applied_events ++ event_id ∷ [];
        metadata = metadata;
        transition_log = state.transition_log ++ entry_of state target event_id rule_result ∷ [];
      } in
      (ok logged, logged)

  module _ (engine : RuleEngine (Dict Value)) (graph : PackageStatus → List PackageStatus) where
    -- What `transition` does to the state of its entity.
    unfoldable pub transition_state :
        EntityState Value
        → PackageStatus
        → Key
        → Dict Value
        → Option Value
        → Result TransitionError (EntityState Value) × EntityState Value
    unfolding evaluate
    transition_state state target event_id context updates =
        let current = state.current_status in
        let result = evaluate engine context (value target) in
        if elem event_id state.applied_events
        then (ok state, state)
        else if not (among target (graph current)) && not (same target current)
        then (err (not_allowed state.entity_id current target (graph current)), state)
        else if not result.passed
        then (err (rule_check_failed state.entity_id current target result.reason), state)
        else write state target event_id result (merge updates state.metadata)

    unfoldable pub transition :
        Machine Value
        → Key
        → PackageStatus
        → Key
        → Dict Value
        → Option Value
        → Result TransitionError (EntityState Value) × Machine Value
    transition m entity_id target event_id context updates =
        let (state, m') = get_or_create_state m entity_id knowledge_package registered in
        let (r, state') = transition_state state target event_id context updates in
        (r, put entity_id state' m')

-- `get_state`
abbrev pub get_state : {V : Type 0} → Machine V → Key → Option (EntityState V)
get_state m id = get id m

unfoldable pub clear : {V : Type 0} → Machine V → Machine V
clear m = []

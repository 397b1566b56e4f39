-- ===== src/Pipeline.antt =====
-- services/event_pipeline.py: `EventPipeline`, which runs an event through the ledger, the state
-- machine and the audit chain. A call reads clocks and may fail to write the audit store: these are
-- its inputs. SHA-256 over a canonical state is a parameter. Publishing an event downstream catches
-- every exception and returns nothing, so it has no place in the state.
pub mod Actions
pub mod Monad
pub mod Replay
pub mod Execute
pub mod Keeps
pub mod Executed
pub mod Reports
pub mod Again
mod Tests
pub use Monad.*
use bhiv_masterdb_ingestion.Prelude.{
  ℕ, Bool, true, false, Option, none, some, List, [], ◌∷◌, Key, Result, ok, err, elem,
  if◌then◌else◌,
}
use bhiv_masterdb_ingestion.Prelude.Dict.{Dict, get}
use bhiv_masterdb_ingestion.Json.{Json}
use bhiv_masterdb_ingestion.Lifecycle.{
  PackageStatus, registered, ingested, validated, verified, certified,
}
use bhiv_masterdb_ingestion.Rules.{RuleEngine}
use bhiv_masterdb_ingestion.Machine.{
  EntityState, Canonical, TransitionError, canonical_dict, get_or_create_state, transition,
  is_invalid_transition,
}
use bhiv_masterdb_ingestion.Ledger.{
  Ledger, PravahEvent, PravahEventType, PravahLedgerEntry, pending, record_event, commit_entry,
  fail_entry, ingestion_requested, validation_completed, verification_completed,
  certification_granted,
}
use bhiv_masterdb_ingestion.Audit.{Sha256, emit}

abbrev pub target_of_type : PravahEventType → Option PackageStatus
target_of_type ingestion_requested = some ingested
target_of_type validation_completed = some validated
target_of_type verification_completed = some verified
target_of_type certification_granted = some certified
target_of_type _ = none

-- Step 2: the explicit target, or the one that the event's type names.
abbrev pub target_of : {V : Type 0} → PravahEvent V → Option PackageStatus
target_of event = elim event.target_status [
  | some s ↦ some s
  | none ↦ target_of_type event.event_type
]

-- The key "metadata" of a payload.
abbrev pub metadata_key : Key
metadata_key = 17

module _ (J : Json) (engine : RuleEngine (Dict J.Value))
    (graph : PackageStatus → List PackageStatus) (sha : Sha256 AuditPayload)
    (state_hash : Canonical J.Value → Key) where
  open J use {Value}

  -- `compute_state_hash`
  abbrev pub compute_state_hash : EntityState Value → Key
  compute_state_hash s = state_hash (canonical_dict s)

  abbrev pub emit_audit : Key → Key → AuditPayload → Inputs → M Value (Unit {0})
  emit_audit event_type actor payload inputs p =
      let (r, audit) = emit sha p.audit event_type actor payload inputs.audit_time inputs.faults in
      (elim r [ ok _ ↦ ok tt | err e ↦ err (audit_error e) ], record p { audit = audit })

  -- The `except InvalidStateTransitionError` branch; it raises again.
  abbrev pub reject :
      PravahEvent Value
      → PravahLedgerEntry Value TransitionError
      → TransitionError
      → Inputs
      → M Value (EntityState Value)
  reject event entry e inputs =
      on_ledger (λ l. fail_entry l entry.sequence_number e inputs.processed_at)
      >> emit_audit pravah_event_failed event.producer
          (failed_payload event.event_id entry.sequence_number e) inputs
      >> raise (transition_error e)

  -- Step 3
  abbrev pub attempt :
      PackageStatus
      → PravahEvent Value
      → PravahLedgerEntry Value TransitionError
      → Inputs
      → M Value (EntityState Value)
  attempt target event entry inputs p =
      let (r, machine) =
        transition J engine graph p.machine event.entity_id target event.event_id event.payload
          (get metadata_key event.payload) in
      let p' : Pipeline Value = record p { machine = machine } in
      elim r [
        | ok s ↦ (ok s, p')
        | err e ↦
            if is_invalid_transition e
            then reject event entry e inputs p'
            else (err (transition_error e), p')
      ]

  -- Steps 4 and 5
  abbrev pub settle :
      PravahEvent Value
      → PravahLedgerEntry Value TransitionError
      → EntityState Value
      → Inputs
      → M Value (PravahLedgerEntry Value TransitionError × EntityState Value)
  settle event entry state inputs = do
    committed ← on_ledger (λ l.
        commit_entry l entry.sequence_number (some (compute_state_hash state)) inputs.processed_at)
    emit_audit pravah_event_committed event.producer
        (committed_payload event.event_id committed.sequence_number event.entity_id
          state.current_status (compute_state_hash state))
        inputs
    pure (committed, state)

  abbrev pub advance_to :
      Option PackageStatus
      → PravahEvent Value
      → PravahLedgerEntry Value TransitionError
      → EntityState Value
      → Inputs
      → M Value (EntityState Value)
  advance_to none event entry state inputs = pure state
  advance_to (some target) event entry state inputs = attempt target event entry inputs

  -- Steps 2 and 3
  abbrev pub advance :
      PravahEvent Value
      → PravahLedgerEntry Value TransitionError
      → EntityState Value
      → Inputs
      → M Value (EntityState Value)
  advance event entry state inputs = advance_to (target_of event) event entry state inputs

  unfoldable pub process_event :
      PravahEvent Value
      → Inputs
      → M Value (PravahLedgerEntry Value TransitionError × EntityState Value)
  process_event event inputs = do
    entry ← on_ledger (λ l. record_event l event pending inputs.recorded_at)
    state ← on_machine (λ m. get_or_create_state m event.entity_id event.entity_type registered)
    if elem event.event_id state.applied_events
        then pure (entry, state)
        else do state' ← advance event entry state inputs; settle event entry state' inputs

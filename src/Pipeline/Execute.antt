-- ===== src/Pipeline/Execute.antt =====
-- services/event_pipeline.py: `execute_pipeline`. The ids that it draws, and the clocks and the audit
-- store of each step, are inputs.
use bhiv_masterdb_ingestion.Prelude.{
  ℕ, ◌+◌, Bool, true, none, some, List, [], ◌∷◌, Key, ok, err, length, last?,
}
use bhiv_masterdb_ingestion.Prelude.Dict.{Dict, put}
use bhiv_masterdb_ingestion.Json.{Json}
use bhiv_masterdb_ingestion.Lifecycle.{PackageStatus, ingested, validated, verified, certified}
use bhiv_masterdb_ingestion.Lifecycle.Search.{find_lifecycle_path}
use bhiv_masterdb_ingestion.Rules.{RuleEngine}
use bhiv_masterdb_ingestion.Machine.{
  EntityState, Machine, Canonical, canonical_dict, TransitionError, PravahEntityType,
  get_or_create_state, update,
}
use bhiv_masterdb_ingestion.Ledger.{
  PravahEvent, PravahLedgerEntry, PravahEventType, ingestion_requested, validation_completed,
  verification_completed, certification_granted, status_changed, total_count,
}
use bhiv_masterdb_ingestion.Audit.{Sha256, AuditEntry, emit}
use bhiv_masterdb_ingestion.Pipeline.{
  no_lifecycle_path, audit_error, AuditPayload, completed_payload, pipeline_execution_completed,
  Inputs, M, pure, raise, on_machine, ◌>>=◌, process_event,
}

pub record PipelineExecutionRequest (V : Type 0) : Type 0 where
  pub entity_id : Key
  pub entity_type : PravahEntityType
  pub initial_status : PackageStatus
  pub target_status : PackageStatus
  pub actor : Key
  pub context : Dict V
  pub metadata : Dict V

pub record StepReport : Type 0 where
  pub from_status : PackageStatus
  pub to_status : PackageStatus
  pub event_id : Key
  pub sequence_number : ℕ
  pub version : ℕ

pub record PipelineExecutionResponse : Type 0 where
  pub pipeline_id : Key
  pub entity_id : Key
  pub final_status : PackageStatus
  pub success : Bool
  pub transitions : List StepReport
  pub state_hash : Key
  pub ledger_sequence_start : ℕ
  pub ledger_sequence_end : ℕ
  pub audit_entry_hash : Key

-- What the calls of one execution draw: its id, and for each step an event id, the time of the event
-- and the inputs of `process_event`; then the inputs of the last audit entry.
pub record Draws : Type 0 where
  pub pipeline_id : Key
  pub event_id : ℕ → Key
  pub event_time : ℕ → Key
  pub inputs : ℕ → Inputs
  pub last_inputs : Inputs

-- "pravah.masterdb.pipeline"
abbrev pub pipeline_topic : Key
pipeline_topic = 42

abbrev pub map_status_to_event_type : PackageStatus → PravahEventType
map_status_to_event_type ingested = ingestion_requested
map_status_to_event_type validated = validation_completed
map_status_to_event_type verified = verification_completed
map_status_to_event_type certified = certification_granted
map_status_to_event_type _ = status_changed

module _ {V : Type 0} where
  -- The event of one step.
  abbrev pub step_event : PipelineExecutionRequest V → Draws → ℕ → PackageStatus → PravahEvent V
  step_event request draws n status = record {
    event_id = draws.event_id n;
    topic = pipeline_topic;
    event_type = map_status_to_event_type status;
    entity_type = request.entity_type;
    entity_id = request.entity_id;
    producer = request.actor;
    timestamp = draws.event_time n;
    target_status = some status;
    payload = request.context;
    correlation_id = some draws.pipeline_id;
    idempotency_key = none;
  }

  -- `get_or_create_state`, and the metadata that the shared state object is given.
  abbrev pub prepare : PipelineExecutionRequest V → Machine V → EntityState V × Machine V
  prepare request m =
      let (state, m') =
        get_or_create_state m request.entity_id request.entity_type request.initial_status in
      let prepared : EntityState V = record state {
        metadata = update state.metadata request.metadata;
      } in
      (prepared, put request.entity_id prepared m')

  abbrev pub report_of :
      PipelineExecutionRequest V
      → Key
      → PackageStatus
      → PravahLedgerEntry V TransitionError × EntityState V
      → StepReport
  report_of request event_id next_status (entry, state) = record {
    from_status = elim (last? state.transition_log) [
      | none ↦ request.initial_status
      | some logged ↦ logged.from_status
    ];
    to_status = next_status;
    event_id = event_id;
    sequence_number = entry.sequence_number;
    version = state.version;
  }

  abbrev pub count_entries : M V ℕ
  count_entries p = (ok (total_count p.ledger), p)

abbrev pub tail : List PackageStatus → List PackageStatus
tail [] = []
tail (_ ∷ ss) = ss

module _ (J : Json) (engine : RuleEngine (Dict J.Value))
    (graph : PackageStatus → List PackageStatus) (sha : Sha256 AuditPayload)
    (state_hash : Canonical J.Value → Key) where
  open J use {Value}

  module _ (request : PipelineExecutionRequest Value) (draws : Draws) where
    -- The loop over `path[1:]`.
    unfoldable pub run_steps :
        List PackageStatus → ℕ → EntityState Value → M Value (List StepReport × EntityState Value)
    run_steps [] n state = pure ([], state)
    run_steps (s ∷ ss) n state = do
      done ←
          process_event J engine graph sha state_hash (step_event request draws n s)
            (draws.inputs n)
      rest ← run_steps ss (n + 1) done.1
      pure (report_of request (draws.event_id n) s done ∷ rest.0, rest.1)

    abbrev pub emit_completed : EntityState Value → ℕ → M Value (AuditEntry AuditPayload)
    emit_completed state count p =
        let (r, audit) =
          emit sha p.audit pipeline_execution_completed request.actor
            (completed_payload draws.pipeline_id request.entity_id state.current_status count
              (state_hash (canonical_dict state)))
            draws.last_inputs.audit_time draws.last_inputs.faults in
        (elim r [ ok e ↦ ok e | err e ↦ err (audit_error e) ], record p { audit = audit })

    abbrev pub response_of :
        ℕ
        → ℕ
        → List StepReport × EntityState Value
        → AuditEntry AuditPayload
        → PipelineExecutionResponse
    response_of count_before count_after done entry = record {
      pipeline_id = draws.pipeline_id;
      entity_id = request.entity_id;
      final_status = done.1.current_status;
      success = true;
      transitions = done.0;
      state_hash = state_hash (canonical_dict done.1);
      ledger_sequence_start = count_before + 1;
      ledger_sequence_end = count_after;
      audit_entry_hash = entry.entry_hash;
    }

    -- From `seq_end` on.
    abbrev pub complete :
        ℕ → List StepReport × EntityState Value → M Value PipelineExecutionResponse
    complete count_before done p =
        (emit_completed done.1 (length done.0) >>= λ entry.
        pure (response_of count_before (total_count p.ledger) done entry))
          p

    abbrev pub run_path : List PackageStatus → M Value PipelineExecutionResponse
    run_path path = do
      state ← on_machine (prepare request)
      count_before ← count_entries
      done ← run_steps (tail path) 0 state
      complete count_before done

    unfoldable pub execute_pipeline : M Value PipelineExecutionResponse
    unfolding run_steps
    execute_pipeline = elim (find_lifecycle_path request.initial_status request.target_status) [
      | none ↦ raise (no_lifecycle_path request.initial_status request.target_status)
      | some path ↦ run_path path
    ]

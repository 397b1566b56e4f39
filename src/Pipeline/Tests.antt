-- ===== src/Pipeline/Tests.antt =====
-- services/event_pipeline.py: the theorems at a concrete pipeline.
use bhiv_masterdb_ingestion.Machine.Entities.{AllConsistent}
use bhiv_masterdb_ingestion.Prelude.Dict.{get}
use bhiv_masterdb_ingestion.Json.Sample.{Sample, sample}
use bhiv_masterdb_ingestion.Lifecycle.{PackageStatus, registered, ingested, package_lifecycle_graph}
use bhiv_masterdb_ingestion.Machine.{
  bad_metadata, EntityState, Machine, Canonical, canonical_dict, TransitionError, knowledge_package,
  new_state, transition, transition_state,
}
use bhiv_masterdb_ingestion.Machine.Defaults.{default_rule_engine}
use bhiv_masterdb_ingestion.Ledger.Index.{IsIndexed, new_ledger-IsIndexed}
use bhiv_masterdb_ingestion.Audit.{Sha256, emit, verify_chain}
use bhiv_masterdb_ingestion.Pipeline.Keeps.{process_event_ends}
use bhiv_masterdb_ingestion.Pipeline.Actions.{IsSound}
use bhiv_masterdb_ingestion.Pipeline.Again.{process_event_duplicate}
use bhiv_masterdb_ingestion.Prelude.{
  ◌⊎◌, ◌+◌, ◌≡◌, refl, true, false, Option, none, some, List, [], ◌∷◌, Key, Result, ok, elem,
  get_elem?, err,
}
use bhiv_masterdb_ingestion.Lifecycle.Search.{find_lifecycle_path}
use bhiv_masterdb_ingestion.Ledger.{
  PravahEvent, PravahLedgerEntry, ingestion_requested, pending, new_ledger, new_entry, committed,
  record_event, commit_entry, total_count,
}
use bhiv_masterdb_ingestion.Pipeline.{
  transition_error, AuditPayload, Pipeline, PipelineError, Inputs, process_event, M,
}
use bhiv_masterdb_ingestion.Pipeline.Execute.{
  PipelineExecutionRequest, PipelineExecutionResponse, Draws, execute_pipeline,
}
use bhiv_masterdb_ingestion.Pipeline.Executed.{execute_pipeline_ends}
use bhiv_masterdb_ingestion.Pipeline.Replay.{Counts, replay_events}

abbrev sha : Sha256 AuditPayload
sha = record { digest = λ b. b.timestamp + 1; zeros = 0 }

abbrev hash : Canonical Sample → Key
hash s = s.version + 200

abbrev start : Pipeline Sample
start = record {
  ledger = new_ledger true;
  machine = [];
  audit = record { chain = []; is_corrupt = false; store = none };
}

abbrev inputs : Inputs
inputs = record {
  recorded_at = 100;
  processed_at = 101;
  audit_time = 102;
  faults = record { entry_write = false; manifest_write = false; cleanup = false };
}

-- The target is implied by the type.
abbrev event : Key → Option PackageStatus → PravahEvent Sample
event id target = record {
  event_id = id;
  topic = 40;
  event_type = ingestion_requested;
  entity_type = knowledge_package;
  entity_id = 1;
  producer = 41;
  timestamp = 99;
  target_status = target;
  payload = [];
  correlation_id = none;
  idempotency_key = none;
}

abbrev run :
    PravahEvent Sample
    → Pipeline Sample
    → Result PipelineError (PravahLedgerEntry Sample TransitionError × EntityState Sample)
      × Pipeline Sample
run e p =
    process_event sample (default_rule_engine sample) package_lifecycle_graph sha hash e inputs p

abbrev after : Pipeline Sample
after = (run (event 21 none) start).1

abbrev ingested_state : EntityState Sample
ingested_state =
    (transition_state sample (default_rule_engine sample) package_lifecycle_graph
      (new_state 1 knowledge_package registered) ingested 21 [] none).1

abbrev ingested_entry : PravahLedgerEntry Sample TransitionError
ingested_entry = committed (some 202) 101 (new_entry 1 (event 21 none) pending 100)

first_returns : (run (event 21 none) start).0 ≡ ok (ingested_entry, ingested_state)
unfolding process_event transition transition_state default_rule_engine record_event commit_entry
    emit canonical_dict
first_returns = refl

start-verifies : verify_chain sha start.audit ≡ true
unfolding verify_chain
start-verifies = refl

start-IsSound : IsSound sha start
start-IsSound = record {
  indexed = new_ledger-IsIndexed true;
  consistent = λ id s h. cc;
  verifies = start-verifies;
}

process_event_ends_example :
    IsIndexed after.ledger
    × (verify_chain sha after.audit ≡ true)
    × (((run (event 21 none) start).0 ≡ err (transition_error bad_metadata))
        ⊎ AllConsistent after.machine)
process_event_ends_example =
    process_event_ends sample (default_rule_engine sample) package_lifecycle_graph sha hash start
      (event 21 none) inputs start-IsSound

after-IsIndexed : IsIndexed after.ledger
after-IsIndexed =
    (process_event_ends sample (default_rule_engine sample) package_lifecycle_graph sha hash start
      (event 21 none) inputs start-IsSound).0

entry_there : get_elem? after.ledger.entries 0 ≡ some ingested_entry
unfolding process_event transition transition_state default_rule_engine record_event commit_entry
    emit canonical_dict
entry_there = refl

entity_there : get 1 after.machine ≡ some ingested_state
unfolding process_event transition transition_state default_rule_engine record_event commit_entry
    emit canonical_dict
entity_there = refl

applied_there : elem 21 ingested_state.applied_events ≡ true
unfolding transition_state default_rule_engine
applied_there = refl

process_event_duplicate_example :
    run (event 21 (some ingested)) after ≡ (ok (ingested_entry, ingested_state), after)
process_event_duplicate_example =
    process_event_duplicate sample (default_rule_engine sample) package_lifecycle_graph sha hash
      after (event 21 (some ingested)) inputs ingested_state 0 ingested_entry after-IsIndexed
      entry_there refl entity_there applied_there

abbrev zero_counts : Counts
zero_counts = record { replayed = 0; skipped_duplicate = 0; failed = 0 }

abbrev replay :
    List (PravahLedgerEntry Sample TransitionError)
    → Counts × Machine Sample
    → Counts × Machine Sample
replay es acc =
    replay_events sample (default_rule_engine sample) package_lifecycle_graph hash 0 es acc

abbrev request : PipelineExecutionRequest Sample
request = record {
  entity_id = 1;
  entity_type = knowledge_package;
  initial_status = registered;
  target_status = ingested;
  actor = 41;
  context = [];
  metadata = [];
}

abbrev draws : Draws
draws = record {
  pipeline_id = 30;
  event_id = λ n. n + 21;
  event_time = λ n. 99;
  inputs = λ n. inputs;
  last_inputs = inputs;
}

abbrev execute : PipelineExecutionRequest Sample → M Sample PipelineExecutionResponse
execute r =
    execute_pipeline sample (default_rule_engine sample) package_lifecycle_graph sha hash r draws

execute_pipeline_ends_example :
    IsIndexed (execute request start).1.ledger
    × (verify_chain sha (execute request start).1.audit ≡ true)
    × (((execute request start).0 ≡ err (transition_error bad_metadata))
        ⊎ AllConsistent (execute request start).1.machine)
execute_pipeline_ends_example =
    execute_pipeline_ends sample (default_rule_engine sample) package_lifecycle_graph sha hash
      request draws start start-IsSound

abbrev response : PipelineExecutionResponse
response = record {
  pipeline_id = 30;
  entity_id = 1;
  final_status = ingested;
  success = true;
  transitions =
      record {
        from_status = registered;
        to_status = ingested;
        event_id = 21;
        sequence_number = 1;
        version = 2;
      }
      ∷ [];
  state_hash = 202;
  ledger_sequence_start = 1;
  ledger_sequence_end = 1;
  audit_entry_hash = 103;
}

executed : (execute request start).0 ≡ ok response
unfolding execute_pipeline find_lifecycle_path process_event transition transition_state
    default_rule_engine record_event commit_entry emit canonical_dict total_count
executed = refl

-- Entity 1 is ingested; an execution from REGISTERED to REGISTERED reports success and finds it so.
abbrev idle : PipelineExecutionRequest Sample
idle = record request { target_status = registered }

abbrev final_status_of : Result PipelineError PipelineExecutionResponse → Option PackageStatus
final_status_of (ok r) = some r.final_status
final_status_of (err e) = none

idle_keeps_status : final_status_of (execute idle after).0 ≡ some ingested
unfolding execute_pipeline find_lifecycle_path process_event transition transition_state
    default_rule_engine record_event commit_entry emit canonical_dict total_count
idle_keeps_status = refl

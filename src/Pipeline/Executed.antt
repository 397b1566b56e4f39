-- ===== src/Pipeline/Executed.antt =====
-- services/event_pipeline.py: `execute_pipeline`, against the invariants.
use bhiv_masterdb_ingestion.Ledger.Index.{IsIndexed}
use bhiv_masterdb_ingestion.Prelude.{
  ◌⊎◌, true, ℕ, ◌+◌, ◌≡◌, length, false, Option, none, some, List, [], ◌∷◌, arith, Key, err,
  Option-cases, inl, inr, Bool-cases, ◌==◌, subst,
}
use bhiv_masterdb_ingestion.Prelude.Dict.{Dict, get, get-put}
use bhiv_masterdb_ingestion.Json.{Json}
use bhiv_masterdb_ingestion.Lifecycle.{PackageStatus}
use bhiv_masterdb_ingestion.Lifecycle.Search.{find_lifecycle_path}
use bhiv_masterdb_ingestion.Rules.{RuleEngine}
use bhiv_masterdb_ingestion.Machine.{
  bad_metadata, EntityState, Machine, Canonical, canonical_dict, get_or_create_state, update,
  new_state,
}
use bhiv_masterdb_ingestion.Machine.Consistent.{IsConsistent}
use bhiv_masterdb_ingestion.Machine.Entities.{AllConsistent, new_state-IsConsistent}
use bhiv_masterdb_ingestion.Audit.{verify_chain, Sha256}
use bhiv_masterdb_ingestion.Ledger.{total_count}
use bhiv_masterdb_ingestion.Audit.Chain.{emit-verifies}
use bhiv_masterdb_ingestion.Pipeline.{
  transition_error, Pipeline, no_lifecycle_path, AuditPayload, completed_payload,
  pipeline_execution_completed, M, pure, raise, on_machine,
}
use bhiv_masterdb_ingestion.Pipeline.Keeps.{process_event-Keeps}
use bhiv_masterdb_ingestion.Pipeline.Actions.{
  IsSound, Ends-cases, Keeps, Keeps-pure, Keeps-raise, Keeps-bind,
}
use bhiv_masterdb_ingestion.Pipeline.Execute.{
  PipelineExecutionRequest, PipelineExecutionResponse, StepReport, Draws, step_event, prepare,
  count_entries, run_steps, emit_completed, run_path, execute_pipeline, tail, complete, response_of,
}

with_metadata-IsConsistent :
    {V : Type 0} (initial : PackageStatus) (s : EntityState V) (d : Dict V)
    → IsConsistent initial s
    → IsConsistent initial (record s { metadata = d })
with_metadata-IsConsistent initial s d h = record {
  counted = h.counted;
  distinct = h.distinct;
  logged = h.logged;
  log_length = h.log_length;
  leads = h.leads;
}

module _ (J : Json) (engine : RuleEngine (Dict J.Value))
    (graph : PackageStatus → List PackageStatus) (sha : Sha256 AuditPayload)
    (state_hash : Canonical J.Value → Key) where
  open J use {Value}

  module _ (request : PipelineExecutionRequest Value) (draws : Draws) where
    abbrev begun : Machine Value → EntityState Value × Machine Value
    begun m = get_or_create_state m request.entity_id request.entity_type request.initial_status

    begun-IsConsistent :
        (m : Machine Value)
        → AllConsistent m
        → (initial : PackageStatus) × IsConsistent initial (begun m).0
    begun-IsConsistent m h = elim (Option-cases (get request.entity_id m)) [
      | inr (s, found) ↦
          let shape : (begun m).0 ≡ s = ground arith in rw shape (h request.entity_id s found)
      | inl missing ↦
          let shape : (begun m).0
              ≡ new_state request.entity_id request.entity_type request.initial_status =
            ground arith in
          rw shape (
            request.initial_status,
            new_state-IsConsistent request.entity_id request.entity_type request.initial_status,
          )
    ]

    begun-get :
        (m : Machine Value) (j : Key)
        → (request.entity_id == j) ≡ false
        → get j (begun m).1 ≡ get j m
    begun-get m j other = elim (Option-cases (get request.entity_id m)) [
      | inr (s, found) ↦ ground arith
      | inl missing ↦ ground (
        arith,
        get-put request.entity_id j
            (new_state request.entity_id request.entity_type request.initial_status) m,
      )
    ]

    prepare-AllConsistent :
        (m : Machine Value) → AllConsistent m → AllConsistent (prepare request m).1
    prepare-AllConsistent m h j s found =
        let prepared = (prepare request m).0 in
        elim (Bool-cases (request.entity_id == j)) [
          | inr other ↦ h j s (
              ground (arith, get-put request.entity_id j prepared (begun m).1, begun-get m j other))
          | inl self ↦
              let (initial, before) = begun-IsConsistent m h in
              let here : prepared ≡ s =
                ground (arith, get-put request.entity_id j prepared (begun m).1) in
              (
                initial,
                subst (IsConsistent initial) here (
                    with_metadata-IsConsistent initial (begun m).0
                      (update (begun m).0.metadata request.metadata) before),
              )
        ]

    run_steps-Keeps :
        (ss : List PackageStatus) (n : ℕ) (state : EntityState Value)
        → Keeps sha (run_steps J engine graph sha state_hash request draws ss n state)
    unfolding run_steps
    run_steps-Keeps [] n state = Keeps-pure sha ([], state)
    run_steps-Keeps (s ∷ ss) n state =
        Keeps-bind sha _ _
          (process_event-Keeps J engine graph sha state_hash (step_event request draws n s)
            (draws.inputs n))
          (λ done.
            Keeps-bind sha _ _ (run_steps-Keeps ss (n + 1) done.1) (λ rest. Keeps-pure sha _))

    emit_completed-Keeps :
        (state : EntityState Value) (count : ℕ)
        → Keeps sha (emit_completed J engine graph sha state_hash request draws state count)
    emit_completed-Keeps state count = record {
      at = λ p h. record {
        indexed = h.indexed;
        consistent = λ _. h.consistent;
        verifies =
            (emit-verifies sha p.audit pipeline_execution_completed request.actor
              (completed_payload draws.pipeline_id request.entity_id state.current_status count
                (state_hash (canonical_dict state)))
              draws.last_inputs.audit_time draws.last_inputs.faults h.verifies).0;
      };
    }

    count_entries-Keeps : Keeps sha {V = Value} count_entries
    count_entries-Keeps = record {
      at = λ p h. record {
        indexed = h.indexed;
        consistent = λ _. h.consistent;
        verifies = h.verifies;
      };
    }

    prepare-Keeps : Keeps sha (on_machine (prepare request))
    prepare-Keeps = record {
      at = λ p h. record {
        indexed = h.indexed;
        consistent = λ _. prepare-AllConsistent p.machine h.consistent;
        verifies = h.verifies;
      };
    }

    complete-Keeps :
        (before : ℕ) (done : List StepReport × EntityState Value)
        → Keeps sha (complete J engine graph sha state_hash request draws before done)
    complete-Keeps before done = record {
      at = λ p h.
          (Keeps-bind sha
              (emit_completed J engine graph sha state_hash request draws done.1 (length done.0))
              (λ entry. pure (
                response_of J engine graph sha state_hash request draws before
                  (total_count p.ledger) done entry))
              (emit_completed-Keeps done.1 (length done.0)) (λ entry. Keeps-pure sha _)).at
            p h;
    }

    run_path-Keeps :
        (path : List PackageStatus)
        → Keeps sha (run_path J engine graph sha state_hash request draws path)
    run_path-Keeps path = Keeps-bind sha _ _ prepare-Keeps (λ state.
        Keeps-bind sha _ _ count_entries-Keeps (λ before.
          Keeps-bind sha _ _ (run_steps-Keeps (tail path) 0 state)
            (λ done. complete-Keeps before done)))

    by_path :
        (o : Option (List PackageStatus))
        → Keeps sha (elim o as (λ _. M Value PipelineExecutionResponse) [
          | none ↦ raise (no_lifecycle_path request.initial_status request.target_status)
          | some path ↦ run_path J engine graph sha state_hash request draws path
        ])
    by_path none = Keeps-raise sha (no_lifecycle_path request.initial_status request.target_status)
    by_path (some path) = run_path-Keeps path

    pub execute_pipeline-Keeps :
        Keeps sha (execute_pipeline J engine graph sha state_hash request draws)
    unfolding execute_pipeline
    execute_pipeline-Keeps =
        by_path (find_lifecycle_path request.initial_status request.target_status)

    -- However an execution of a sound pipeline ends, the ledger stays indexed and the audit chain
    -- verifies; and so does the account of every entity, or the execution ended because `dict.update`
    -- raised on the metadata of an event.
    pub execute_pipeline_ends :
        (p : Pipeline Value)
        → IsSound sha p
        → let call = execute_pipeline J engine graph sha state_hash request draws p in
          IsIndexed call.1.ledger
          × (verify_chain sha call.1.audit ≡ true)
          × ((call.0 ≡ err (transition_error bad_metadata)) ⊎ AllConsistent call.1.machine)
    execute_pipeline_ends p h = Ends-cases sha _ _ (execute_pipeline-Keeps.at p h)

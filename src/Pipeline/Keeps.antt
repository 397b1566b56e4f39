-- ===== src/Pipeline/Keeps.antt =====
-- services/event_pipeline.py: `process_event`, against the invariants of the three components.
use bhiv_masterdb_ingestion.Prelude.{
  ◌⊎◌, ◌≡◌, ◌≢◌, refl, true, Option, none, some, List, arith, Key, Result, ok, err, elem,
}
use bhiv_masterdb_ingestion.Prelude.Dict.{Dict, get}
use bhiv_masterdb_ingestion.Json.{Json}
use bhiv_masterdb_ingestion.Lifecycle.{PackageStatus, registered}
use bhiv_masterdb_ingestion.Rules.{RuleEngine}
use bhiv_masterdb_ingestion.Machine.{
  EntityState, Machine, Canonical, TransitionError, bad_metadata, transition,
}
use bhiv_masterdb_ingestion.Machine.Entities.{AllConsistent, transition-AllConsistent}
use bhiv_masterdb_ingestion.Ledger.{PravahEvent, PravahLedgerEntry, pending}
use bhiv_masterdb_ingestion.Ledger.Index.{IsIndexed}
use bhiv_masterdb_ingestion.Ledger.Record.{record_event-IsIndexed}
use bhiv_masterdb_ingestion.Ledger.Updates.{commit_entry-Rewrites, fail_entry-Rewrites}
use bhiv_masterdb_ingestion.Audit.{Sha256, verify_chain}
use bhiv_masterdb_ingestion.Audit.Chain.{emit-verifies}
use bhiv_masterdb_ingestion.Pipeline.{
  Pipeline, PipelineError, transition_error, AuditPayload, Inputs, emit_audit, reject, attempt,
  settle, advance_to, process_event, target_of, metadata_key, compute_state_hash,
}
use bhiv_masterdb_ingestion.Pipeline.Actions.{
  IsSound, Ends, Keeps, Keeps-pure, Keeps-raise, Ends-cases, Keeps-bind, Keeps-on_ledger, Keeps-if,
  Keeps-create,
}

module _ (J : Json) (engine : RuleEngine (Dict J.Value))
    (graph : PackageStatus → List PackageStatus) (sha : Sha256 AuditPayload)
    (state_hash : Canonical J.Value → Key) where
  open J use {Value}

  Keeps-emit_audit :
      (event_type actor : Key) (payload : AuditPayload) (inputs : Inputs)
      → Keeps sha (emit_audit J engine graph sha state_hash event_type actor payload inputs)
  Keeps-emit_audit event_type actor payload inputs = record {
    at = λ p h. record {
      indexed = h.indexed;
      consistent = λ _. h.consistent;
      verifies =
          (emit-verifies sha p.audit event_type actor payload inputs.audit_time inputs.faults
            h.verifies).0;
    };
  }

  Keeps-reject :
      (event : PravahEvent Value) (entry : PravahLedgerEntry Value TransitionError)
      (e : TransitionError) (inputs : Inputs)
      → Keeps sha (reject J engine graph sha state_hash event entry e inputs)
  Keeps-reject event entry e inputs =
      Keeps-bind sha _ _
        (Keeps-bind sha _ _
          (Keeps-on_ledger sha _
            (λ l h. (fail_entry-Rewrites l entry.sequence_number e inputs.processed_at h).1))
          (λ _. Keeps-emit_audit _ _ _ inputs))
        (λ _. Keeps-raise sha _)

  module _ (target : PackageStatus) (event : PravahEvent Value)
      (entry : PravahLedgerEntry Value TransitionError) (inputs : Inputs) (p : Pipeline Value)
      (h : IsSound sha p) where
    abbrev moved : Result TransitionError (EntityState Value) × Machine Value
    moved =
        transition J engine graph p.machine event.entity_id target event.event_id event.payload
          (get metadata_key event.payload)

    abbrev p' : Pipeline Value
    p' = record p { machine = moved.1 }

    abbrev tried : Result PipelineError (EntityState Value) × Pipeline Value
    tried = attempt J engine graph sha state_hash target event entry inputs p

    moved-IsSound : moved.0 ≢ err bad_metadata → IsSound sha p'
    moved-IsSound fits = record {
      indexed = h.indexed;
      consistent =
          transition-AllConsistent J engine graph p.machine event.entity_id target event.event_id
            event.payload (get metadata_key event.payload) h.consistent fits;
      verifies = h.verifies;
    }

    by_result :
        (r : Result TransitionError (EntityState Value)) → moved.0 ≡ r → Ends sha tried.0 tried.1
    by_result (ok s) e =
        let shape : tried ≡ (ok s, p') = ground arith in
        rw shape ((Keeps-pure sha s).at p' (moved-IsSound (λ bad. cc)))
    by_result (err bad_metadata) e =
        let shape : tried ≡ (err (transition_error bad_metadata), p') = ground arith in
        rw shape (record {
          indexed = h.indexed;
          consistent = λ ne. absurd (ne refl);
          verifies = h.verifies;
        })
    by_result (err x) e =
        let shape : tried ≡ reject J engine graph sha state_hash event entry x inputs p' =
          ground arith in
        rw shape ((Keeps-reject event entry x inputs).at p' (moved-IsSound (λ bad. cc)))

  Keeps-attempt :
      (target : PackageStatus) (event : PravahEvent Value)
      (entry : PravahLedgerEntry Value TransitionError) (inputs : Inputs)
      → Keeps sha (attempt J engine graph sha state_hash target event entry inputs)
  Keeps-attempt target event entry inputs = record {
    at =
        λ p h. by_result target event entry inputs p h (moved target event entry inputs p h).0 refl;
  }

  Keeps-advance :
      (o : Option PackageStatus) (event : PravahEvent Value)
      (entry : PravahLedgerEntry Value TransitionError) (state : EntityState Value)
      (inputs : Inputs)
      → Keeps sha (advance_to J engine graph sha state_hash o event entry state inputs)
  Keeps-advance none event entry state inputs = Keeps-pure sha state
  Keeps-advance (some target) event entry state inputs = Keeps-attempt target event entry inputs

  Keeps-settle :
      (event : PravahEvent Value) (entry : PravahLedgerEntry Value TransitionError)
      (state : EntityState Value) (inputs : Inputs)
      → Keeps sha (settle J engine graph sha state_hash event entry state inputs)
  Keeps-settle event entry state inputs =
      Keeps-bind sha _ _
        (Keeps-on_ledger sha _ (λ l h.
          (commit_entry-Rewrites l entry.sequence_number
            (some (compute_state_hash J engine graph sha state_hash state)) inputs.processed_at
            h).1))
        (λ committed. Keeps-bind sha _ _ (Keeps-emit_audit _ _ _ inputs) (λ _. Keeps-pure sha _))

  pub process_event-Keeps :
      (event : PravahEvent Value) (inputs : Inputs)
      → Keeps sha (process_event J engine graph sha state_hash event inputs)
  unfolding process_event
  process_event-Keeps event inputs =
      Keeps-bind sha _ _
        (Keeps-on_ledger sha _ (λ l h. record_event-IsIndexed l event pending inputs.recorded_at h))
        (λ entry.
          Keeps-bind sha _ _ (Keeps-create sha event.entity_id event.entity_type registered)
            (λ state.
              Keeps-if sha (elem event.event_id state.applied_events) _ _
                (Keeps-pure sha (entry, state))
                (Keeps-bind sha _ _ (Keeps-advance (target_of event) event entry state inputs)
                  (λ state'. Keeps-settle event entry state' inputs))))

  -- However a call of `process_event` on a sound pipeline ends, by its result, by a refused transition
  -- or by a failed write, the ledger stays indexed and the audit chain verifies; and so does the
  -- account of every entity, or the call ended because `dict.update` raised on the event's metadata.
  pub process_event_ends :
      (p : Pipeline Value) (event : PravahEvent Value) (inputs : Inputs)
      → IsSound sha p
      → let call = process_event J engine graph sha state_hash event inputs p in
        IsIndexed call.1.ledger
        × (verify_chain sha call.1.audit ≡ true)
        × ((call.0 ≡ err (transition_error bad_metadata)) ⊎ AllConsistent call.1.machine)
  process_event_ends p event inputs h =
      Ends-cases sha _ _ ((process_event-Keeps event inputs).at p h)

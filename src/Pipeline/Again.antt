-- ===== src/Pipeline/Again.antt =====
-- services/event_pipeline.py: what `process_event` does with an event that it has seen.
use bhiv_masterdb_ingestion.Prelude.{ℕ, ◌≡◌, true, some, List, arith, Key, ok, elem, get_elem?}
use bhiv_masterdb_ingestion.Prelude.Dict.{Dict, get}
use bhiv_masterdb_ingestion.Json.{Json}
use bhiv_masterdb_ingestion.Lifecycle.{PackageStatus}
use bhiv_masterdb_ingestion.Rules.{RuleEngine}
use bhiv_masterdb_ingestion.Machine.{EntityState, Canonical, TransitionError}
use bhiv_masterdb_ingestion.Ledger.{PravahEvent, PravahLedgerEntry, pending}
use bhiv_masterdb_ingestion.Ledger.Index.{IsIndexed}
use bhiv_masterdb_ingestion.Ledger.Record.{known_id_returns}
use bhiv_masterdb_ingestion.Audit.{Sha256}
use bhiv_masterdb_ingestion.Pipeline.{Pipeline, AuditPayload, Inputs, process_event}

module _ (J : Json) (engine : RuleEngine (Dict J.Value))
    (graph : PackageStatus → List PackageStatus) (sha : Sha256 AuditPayload)
    (state_hash : Canonical J.Value → Key) where
  open J use {Value}

  -- A duplicate delivery is free: on an indexed ledger, an event that the ledger holds and that
  -- is applied to its entity is answered with its entry and the state of the entity, and ledger,
  -- machine and audit chain stay as they are.
  pub process_event_duplicate :
      (p : Pipeline Value) (event : PravahEvent Value) (inputs : Inputs) (s : EntityState Value)
      (i : ℕ) (e : PravahLedgerEntry Value TransitionError)
      → IsIndexed p.ledger
      → get_elem? p.ledger.entries i ≡ some e
      → e.event.event_id ≡ event.event_id
      → get event.entity_id p.machine ≡ some s
      → elem event.event_id s.applied_events ≡ true
      → process_event J engine graph sha state_hash event inputs p ≡ (ok (e, s), p)
  unfolding process_event
  process_event_duplicate p event inputs s i e indexed held id found applied =
      let known =
        known_id_returns p.ledger event pending inputs.recorded_at e i held
          (ground (arith, indexed.dedup_complete i e held)) in
      ground (arith, known)

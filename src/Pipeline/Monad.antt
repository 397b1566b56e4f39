-- ===== src/Pipeline/Monad.antt =====
-- services/event_pipeline.py: the state of the pipeline, what it audits and how its calls raise. A
-- call that raises keeps what it has written.
use bhiv_masterdb_ingestion.Prelude.{ℕ, Key, Result, ok, err}
use bhiv_masterdb_ingestion.Lifecycle.{PackageStatus}
use bhiv_masterdb_ingestion.Machine.{Machine, TransitionError}
use bhiv_masterdb_ingestion.Ledger.{Ledger, LedgerError}
use bhiv_masterdb_ingestion.Audit.{Emitter, Faults, AuditError}

pub data AuditPayload : Type 0 where
  -- event id, sequence number, error
  failed_payload : Key → ℕ → TransitionError → AuditPayload
  -- event id, sequence number, entity id, status, state hash
  committed_payload : Key → ℕ → Key → PackageStatus → Key → AuditPayload
  -- pipeline id, entity id, final status, number of transitions, state hash
  completed_payload : Key → Key → PackageStatus → ℕ → Key → AuditPayload

-- The event types of the audit entries, numbered in the order of their strings.
abbrev pub pipeline_execution_completed : Key
pipeline_execution_completed = 61

abbrev pub pravah_event_committed : Key
pravah_event_committed = 62

abbrev pub pravah_event_failed : Key
pravah_event_failed = 63

pub data PipelineError : Type 0 where
  ledger_error : LedgerError → PipelineError
  transition_error : TransitionError → PipelineError
  audit_error : AuditError → PipelineError
  -- `InvalidStateTransitionError` of `execute_pipeline`: from, to
  no_lifecycle_path : PackageStatus → PackageStatus → PipelineError

pub record Pipeline (V : Type 0) : Type 0 where
  pub ledger : Ledger V TransitionError
  pub machine : Machine V
  pub audit : Emitter AuditPayload

-- The readings of the clocks during one call, and the writes of the audit store that raise.
pub record Inputs : Type 0 where
  pub recorded_at : Key
  pub processed_at : Key
  pub audit_time : Key
  pub faults : Faults

abbrev pub M : Type 0 → Type 0 → Type 0
M V A = Pipeline V → Result PipelineError A × Pipeline V

module _ {V A : Type 0} where
  abbrev pub pure : A → M V A
  pure a p = (ok a, p)

  abbrev pub raise : PipelineError → M V A
  raise e p = (err e, p)

  -- A call of the ledger; what it raises goes on.
  abbrev pub on_ledger :
      (Ledger V TransitionError → Result LedgerError A × Ledger V TransitionError) → M V A
  on_ledger f p =
      let (r, ledger) = f p.ledger in
      (elim r [ ok a ↦ ok a | err e ↦ err (ledger_error e) ], record p { ledger = ledger })

  -- A call of the state machine that does not raise.
  abbrev pub on_machine : (Machine V → A × Machine V) → M V A
  on_machine f p = let (a, machine) = f p.machine in (ok a, record p { machine = machine })

infixl 5 ◌>>=◌ ◌>>◌
abbrev pub ◌>>=◌ : {V A B : Type 0} → M V A → (A → M V B) → M V B
◌>>=◌ m f p = let (r, p') = m p in elim r [ ok a ↦ f a p' | err e ↦ (err e, p') ]

abbrev pub ◌>>◌ : {V A B : Type 0} → M V A → M V B → M V B
m >> k = m >>= λ _. k

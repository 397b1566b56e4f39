-- ===== src/Ledger/Events.antt =====
-- models_pravah.py: the event envelope and the ledger entry.
use bhiv_masterdb_ingestion.Prelude.{ℕ, Option, Key}
use bhiv_masterdb_ingestion.Prelude.Dict.{Dict}
use bhiv_masterdb_ingestion.Lifecycle.{PackageStatus}
use bhiv_masterdb_ingestion.Machine.{PravahEntityType}

pub data PravahEventType : Type 0 where
  ingestion_requested validation_completed verification_completed : PravahEventType
  certification_granted status_changed replay_requested : PravahEventType
  compliance_evaluated pipeline_triggered transition_failed : PravahEventType

pub data PravahEventStatus : Type 0 where
  pending processing committed_status failed_status replayed duplicate : PravahEventStatus

pub record PravahEvent (V : Type 0) : Type 0 where
  pub event_id : Key
  pub topic : Key
  pub event_type : PravahEventType
  pub entity_type : PravahEntityType
  pub entity_id : Key
  pub producer : Key
  pub timestamp : Key
  pub target_status : Option PackageStatus
  pub payload : Dict V
  pub correlation_id : Option Key
  pub idempotency_key : Option Key

-- The error message is the exception of which it is the text.
pub record PravahLedgerEntry (V E : Type 0) : Type 0 where
  pub sequence_number : ℕ
  pub event : PravahEvent V
  pub status : PravahEventStatus
  pub recorded_at : Key
  pub processed_at : Option Key
  pub state_hash_after : Option Key
  pub error_message : Option E
  pub retry_count : ℕ

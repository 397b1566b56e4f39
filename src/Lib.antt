-- ===== src/Lib.antt =====
-- MASTERDB ingestion and certification service: its state machines, ledgers, registries and
-- guards, modelled from the Python source.
--
-- Parts and files:
-- - Lifecycle (models.py `PackageStatus` and `PACKAGE_LIFECYCLE_GRAPH`), with Lifecycle/Search
--   (services/event_pipeline.py `_find_lifecycle_path`).
-- - Rules (evaluation_engine/rule_engine.py `RuleEngine`).
-- - Machine (services/state_machine.py `PravahStateMachine`): `transition` finds or creates the state
--   of an entity, tests the graph and the rules, and writes.
-- - Ledger (services/pravah_ledger.py `PravahReplayLedger`): numbered entries with two indices.
-- - Audit (services/crypto_audit_emitter.py `CryptoAuditEmitter`): a chain of hashed entries and its
--   store.
-- - Pipeline (services/event_pipeline.py `EventPipeline`): `process_event` runs an event through
--   ledger, machine and audit chain; `replay_ledger` and `execute_pipeline` stand on these.
-- - Packages (services/package_registry_service.py `PackageRegistryService`): packages with the
--   history of their status. Packages/Replay has `replay` and `audit_completeness`.
-- - Certification (services/certification_service.py `CertificationService`): the gates on a report,
--   and the withdrawal of packages through the registry.
-- - Documents (canonical_repository/store.py and service.py): versioned documents behind roles.
-- - SharedRecords (services/shared_record_store.py `SharedRecordStore`).
-- - Bcaes (bcaes_registry/): Bcaes/Store is the store and its directory, Bcaes/Graph the walk over
--   the dependencies, Bcaes/Validators the checks, Bcaes/Service the access control in front of the
--   store, Bcaes/Convergence the declared states and the snapshot. The checks negotiate versions
--   through Versions (services/shared_version_compatibility.py).
-- - Uploads (upload/service.py, store.py and models.py): the jobs and their staged files, up to the
--   validation; Uploads/Checks has the checks of a request, Uploads/Operations what follows the
--   validation, Uploads/Complete `complete_upload`, Uploads/Listing `list_uploads`. Their trace ids
--   come from Trace (utils/trace.py).
-- - Targets (database_targets/service.py, models.py and registry.py): `ingest` takes a certified
--   dataset to a target database and moves the linked upload of Uploads on (Targets/Linked);
--   Targets/Inputs has the state and what a call looks up.
-- - Breaker (middleware/circuit_breaker.py `CircuitBreaker`) and RateLimiter
--   (middleware/rate_limiter.py `SlidingWindowRateLimiter`).
-- - Prelude, shared names, tests, lists, dictionaries. Json, the values of a payload as an interface,
--   with a sample instance.
--
-- Each operation is a function with the name of its method from a state to a result and a state. A
-- raised exception is a value that keeps what was written before it. Strings that the code only
-- compares, sorts or tests for emptiness are numbers, the empty string 0. Times are ticks, scores
-- are hundredths. A method that holds a lock throughout is one step; the circuit breaker's calls,
-- which do not, are a relation of steps. Files hold what was last written to them.
--
-- The search for a path runs on nine rounds of fuel: a status is queued once at most and there are
-- eight, so the queue is empty before the fuel is; the answer is compared with every route.
--
-- The walk over the dependencies runs on one round of fuel for each id of the store and one more: each
-- nested call that goes on marks another id of the store.
--
-- Texts that the code looks into are lists of code points; lower case and white space are those of
-- ASCII.
--
-- Parameters: SHA-256 over an entry, a state or a content, the evaluators of rules, the values of
-- JSON payloads, the report and validation services, the loader of dataset files, path resolution, the
-- word characters of `re`, and formatted texts; `str.lower` too where ids are numbers. One theorem
-- asks that the hash has no collision between two chains.
--
-- Not modelled: the HTTP routes, authentication, the source and capability registries, retrieval
-- readiness and knowledge objects, the validators over tables, connectors and clients of other
-- services, persistence in SQL, scripts and the front end. Interleavings of
-- `process_event` on one entity are not modelled.
--
-- Also left out: a failed save that leaves a file half written (services/artifact_store.py opens the
-- file for writing before it dumps; the audit store of the model keeps what was there, as a
-- transaction of services/sql_artifact_store.py does); items that a raising `dict.update` has
-- written; sorting the keys of metadata of mixed types; the report that an automatic certification
-- leaves when it raises; negative sequence numbers; Python's limit on recursion.
pub mod Prelude
pub mod Lifecycle
pub mod Json
pub mod Rules
pub mod Machine
pub mod Ledger
pub mod Audit
pub mod Pipeline
pub mod RateLimiter
pub mod Breaker
pub mod Packages
pub mod Certification
pub mod Documents
pub mod SharedRecords
pub mod Uploads
pub mod Targets
pub mod Versions
pub mod Trace
pub mod Bcaes

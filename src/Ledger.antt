-- ===== src/Ledger.antt =====
-- services/pravah_ledger.py: `PravahReplayLedger`, with the event and entry models of
-- models_pravah.py. Every method holds the ledger's lock, so each is one step. The clock's reading
-- is an argument; the snapshot file is a field that holds what it was last given.
pub mod Events
pub mod Query
pub mod Selected
pub mod Index
pub mod Append
pub mod Record
pub mod Updates
pub mod Snapshots
mod Tests
pub use Events.*
use bhiv_masterdb_ingestion.Prelude.{
  ℕ, zero, suc, ◌+◌, ◌-◌, Bool, true, false, ◌&&◌, ◌||◌, Option, none, some, List, [], ◌∷◌, ◌++◌,
  Key, Result, ok, err, get_elem?, set, length, last?, ltb, if◌then◌else◌, truthy,
}
use bhiv_masterdb_ingestion.Prelude.Dict.{Dict, get, put, contains}

-- `ValueError("Invalid sequence_number")` and an index past the end.
pub data LedgerError : Type 0 where
  invalid_sequence_number index_error : LedgerError

-- What `save_snapshot` writes.
pub record Snapshot (V E : Type 0) : Type 0 where
  pub sequence_counter : ℕ
  pub entries : List (PravahLedgerEntry V E)

pub record Ledger (V E : Type 0) : Type 0 where
  pub entries : List (PravahLedgerEntry V E)
  pub sequence_counter : ℕ
  pub dedup_index : Dict ℕ
  pub idempotency_index : Dict ℕ
  -- whether `persistence_path` is set, and the file's content
  pub persistent : Bool
  pub saved : Option (Snapshot V E)

-- `if event.idempotency_key: index[event.idempotency_key] = n`
abbrev pub index_key : Option Key → ℕ → Dict ℕ → Dict ℕ
index_key none n d = d
index_key (some k) n d = if truthy k then put k n d else d

module _ {V E : Type 0} where
  -- The fields that `__init__` sets.
  abbrev pub new_ledger : Bool → Ledger V E
  new_ledger persistent = record {
    entries = [];
    sequence_counter = 0;
    dedup_index = [];
    idempotency_index = [];
    persistent = persistent;
    saved = none;
  }

  abbrev pub snapshot : Ledger V E → Snapshot V E
  snapshot l = record { sequence_counter = l.sequence_counter; entries = l.entries }

  -- `if self.persistence_path: self._save_atomic()`
  abbrev pub save_atomic : Ledger V E → Ledger V E
  save_atomic l = if l.persistent then record l { saved = some (snapshot l) } else l

  -- `self._entries[seq - 1]`, where index -1 is the last entry
  abbrev pub entry_at : Ledger V E → ℕ → Option (PravahLedgerEntry V E)
  entry_at l zero = last? l.entries
  entry_at l (suc i) = get_elem? l.entries i

  abbrev pub or_index_error :
      Option (PravahLedgerEntry V E) → Result LedgerError (PravahLedgerEntry V E)
  or_index_error none = err index_error
  or_index_error (some e) = ok e

  -- `self._idempotency_index.get(key)` where the event has a key that is not empty
  abbrev pub known_key : Ledger V E → Option Key → Option ℕ
  known_key l none = none
  known_key l (some k) = if truthy k then get k l.idempotency_index else none

  abbrev pub new_entry : ℕ → PravahEvent V → PravahEventStatus → Key → PravahLedgerEntry V E
  new_entry n event status now = record {
    sequence_number = n;
    event = event;
    status = status;
    recorded_at = now;
    processed_at = none;
    state_hash_after = none;
    error_message = none;
    retry_count = 0;
  }

  -- The part of `record_event` that writes.
  abbrev pub appended : Ledger V E → PravahEvent V → PravahEventStatus → Key → Ledger V E
  appended l event status now =
      let n = l.sequence_counter + 1 in
      record l {
        entries = l.entries ++ new_entry n event status now ∷ [];
        sequence_counter = n;
        dedup_index = put event.event_id n l.dedup_index;
        idempotency_index = index_key event.idempotency_key n l.idempotency_index;
      }

  abbrev pub append_event :
      Ledger V E
      → PravahEvent V
      → PravahEventStatus
      → Key
      → Result LedgerError (PravahLedgerEntry V E) × Ledger V E
  append_event l event status now = (
    ok (new_entry (l.sequence_counter + 1) event status now),
    save_atomic (appended l event status now),
  )

  unfoldable pub record_event :
      Ledger V E
      → PravahEvent V
      → PravahEventStatus
      → Key
      → Result LedgerError (PravahLedgerEntry V E) × Ledger V E
  record_event l event status now = elim (get event.event_id l.dedup_index) [
    | some seq ↦ (or_index_error (entry_at l seq), l)
    | none ↦ elim (known_key l event.idempotency_key) [
      | some seq ↦ (or_index_error (entry_at l seq), l)
      | none ↦ append_event l event status now
    ]
  ]

  -- The common frame of `commit_entry` and `fail_entry`: check the number, rewrite the entry.
  abbrev rewrite_entry :
      Ledger V E
      → ℕ
      → (PravahLedgerEntry V E → PravahLedgerEntry V E)
      → Result LedgerError (PravahLedgerEntry V E) × Ledger V E
  rewrite_entry l seq f =
      if ltb seq 1 || ltb (length l.entries) seq
      then (err invalid_sequence_number, l)
      else elim (get_elem? l.entries (seq - 1)) [
        | none ↦ (err index_error, l)
        | some e ↦ (ok (f e), save_atomic (record l { entries = set l.entries (seq - 1) (f e) }))
      ]

  abbrev pub committed : Option Key → Key → PravahLedgerEntry V E → PravahLedgerEntry V E
  committed state_hash_after now e = record {
    sequence_number = e.sequence_number;
    event = e.event;
    status = committed_status;
    recorded_at = e.recorded_at;
    processed_at = some now;
    state_hash_after = state_hash_after;
    error_message = none;
    retry_count = e.retry_count;
  }

  abbrev pub failed : E → Key → PravahLedgerEntry V E → PravahLedgerEntry V E
  failed error_message now e = record {
    sequence_number = e.sequence_number;
    event = e.event;
    status = failed_status;
    recorded_at = e.recorded_at;
    processed_at = some now;
    state_hash_after = e.state_hash_after;
    error_message = some error_message;
    retry_count = e.retry_count + 1;
  }

  unfoldable pub commit_entry :
      Ledger V E → ℕ → Option Key → Key → Result LedgerError (PravahLedgerEntry V E) × Ledger V E
  commit_entry l seq state_hash_after now = rewrite_entry l seq (committed state_hash_after now)

  unfoldable pub fail_entry :
      Ledger V E → ℕ → E → Key → Result LedgerError (PravahLedgerEntry V E) × Ledger V E
  fail_entry l seq error_message now = rewrite_entry l seq (failed error_message now)

  unfoldable pub get_entry : Ledger V E → ℕ → Option (PravahLedgerEntry V E)
  get_entry l zero = none
  get_entry l (suc i) = get_elem? l.entries i

  unfoldable pub get_entry_by_event_id : Ledger V E → Key → Option (PravahLedgerEntry V E)
  get_entry_by_event_id l event_id = elim (get event_id l.dedup_index) [
    | none ↦ none
    | some seq ↦ entry_at l seq
  ]

  unfoldable pub total_count : Ledger V E → ℕ
  total_count l = length l.entries

  unfoldable pub clear : Ledger V E → Ledger V E
  clear l = record {
    entries = [];
    sequence_counter = 0;
    dedup_index = [];
    idempotency_index = [];
    persistent = l.persistent;
    saved = if l.persistent then none else l.saved;
  }

  -- The comprehensions of `load_snapshot` that rebuild the indices.
  abbrev pub dedup_of : List (PravahLedgerEntry V E) → Dict ℕ → Dict ℕ
  dedup_of [] d = d
  dedup_of (e ∷ es) d = dedup_of es (put e.event.event_id e.sequence_number d)

  abbrev pub idempotency_of : List (PravahLedgerEntry V E) → Dict ℕ → Dict ℕ
  idempotency_of [] d = d
  idempotency_of (e ∷ es) d =
      idempotency_of es (index_key e.event.idempotency_key e.sequence_number d)

  unfoldable pub load_snapshot : Ledger V E → Ledger V E
  load_snapshot l = elim l.saved [
    | none ↦ l
    | some s ↦ record l {
      sequence_counter = s.sequence_counter;
      entries = s.entries;
      dedup_index = dedup_of s.entries [];
      idempotency_index = idempotency_of s.entries [];
    }
  ]

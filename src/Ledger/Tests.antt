-- ===== src/Ledger/Tests.antt =====
-- services/pravah_ledger.py: the theorems at concrete ledgers.
use bhiv_masterdb_ingestion.Prelude.{
  ℕ, ◌≡◌, refl, ◌⊎◌, true, Option, none, some, [], Key, ok, length,
}
use Prim.Native.Nat.{max}
use bhiv_masterdb_ingestion.Lifecycle.{ingested}
use bhiv_masterdb_ingestion.Machine.{knowledge_package}
use bhiv_masterdb_ingestion.Ledger.{
  Ledger, new_ledger, PravahEvent, pending, ingestion_requested, record_event, commit_entry,
  load_snapshot, snapshot, committed, new_entry,
}
use bhiv_masterdb_ingestion.Ledger.Index.{IsIndexed, new_ledger-IsIndexed}
use bhiv_masterdb_ingestion.Ledger.Record.{
  KnownId, KnownKey, Recorded, record_event_branches, record_event-IsIndexed,
}
use bhiv_masterdb_ingestion.Ledger.Updates.{Rewrites, commit_entry-Rewrites}
use bhiv_masterdb_ingestion.Ledger.Snapshots.{SameView, load_snapshot-SameView}
use bhiv_masterdb_ingestion.Ledger.Selected.{Selects, IsWanted, query_entries-Selects}
use bhiv_masterdb_ingestion.Ledger.Query.{query_entries}

-- A new ledger that is written to a file.
abbrev empty : Ledger ℕ Key
empty = new_ledger true

abbrev event : Key → Option Key → PravahEvent ℕ
event id key = record {
  event_id = id;
  topic = 40;
  event_type = ingestion_requested;
  entity_type = knowledge_package;
  entity_id = 1;
  producer = 41;
  timestamp = 100;
  target_status = some ingested;
  payload = [];
  correlation_id = none;
  idempotency_key = key;
}

empty-IsIndexed : IsIndexed empty
empty-IsIndexed = new_ledger-IsIndexed true

abbrev one : Ledger ℕ Key
one = (record_event empty (event 21 (some 31)) pending 100).1

record_event_branches_example :
    KnownId empty (event 21 (some 31)) pending 100
    ⊎ KnownKey empty (event 21 (some 31)) pending 100
    ⊎ Recorded empty (event 21 (some 31)) pending 100
record_event_branches_example =
    record_event_branches empty (event 21 (some 31)) pending 100 empty-IsIndexed

-- Another id with the same idempotency key gives the first entry, still marked PENDING.
same_key :
    record_event one (event 22 (some 31)) pending 101
    ≡ (ok (new_entry 1 (event 21 (some 31)) pending 100), one)
unfolding record_event
same_key = refl

one-IsIndexed : IsIndexed one
one-IsIndexed = record_event-IsIndexed empty (event 21 (some 31)) pending 100 empty-IsIndexed

commit_entry-Rewrites_example :
    Rewrites (committed (some 77) 101) one 1 (commit_entry one 1 (some 77) 101)
    × IsIndexed (commit_entry one 1 (some 77) 101).1
commit_entry-Rewrites_example = commit_entry-Rewrites one 1 (some 77) 101 one-IsIndexed

-- What another process finds in the file.
abbrev restarted : Ledger ℕ Key
restarted = record empty { saved = some (snapshot one) }

load_snapshot-SameView_example : SameView (load_snapshot restarted) one
load_snapshot-SameView_example = load_snapshot-SameView one one-IsIndexed restarted refl

saved_by_record : one.saved ≡ some (snapshot one)
unfolding record_event
saved_by_record = refl

query_limit_zero : length (query_entries one 1 none none none none 0) ≡ 1
unfolding query_entries record_event
query_limit_zero = refl

query_entries-Selects_example :
    Selects
      (IsWanted {V = ℕ} {E = Key} 1 none (some 40) none none)
      (max 1 0)
      one.entries
      (query_entries one 1 none (some 40) none none 0)
query_entries-Selects_example = query_entries-Selects one 1 none (some 40) none none 0 one-IsIndexed

-- ===== src/Audit.antt =====
-- services/crypto_audit_emitter.py: `CryptoAuditEmitter`, a chain of hashed entries with an optional
-- persistent store. Every method holds the emitter's lock, so each is one step. `Sha256` stands for
-- `hashlib.sha256` over `json.dumps` of an entry's body, which are Python's own. The store keeps
-- the records "audit_entry_<index>" by index, and the record "audit_manifest"; which of its writes
-- raise is an argument of `emit`. A write that raises leaves what was there, as the transactions of
-- services/sql_artifact_store.py do; services/artifact_store.py may leave a file half written, which
-- is not modelled.
pub mod Chain
pub mod Tamper
pub mod Durable
mod Tests
use bhiv_masterdb_ingestion.Prelude.{
  ℕ, zero, suc, ◌+◌, ◌≡◌, Bool, true, false, not, ◌&&◌, ◌||◌, Option, none, some, List, [], ◌∷◌,
  ◌++◌, Key, Result, ok, err, get_elem?, length, last?, ltb, if◌then◌else◌, ◌==◌, is_some,
}

-- What is hashed.
pub record Body (P : Type 0) : Type 0 where
  pub timestamp : Key
  pub event_type : Key
  pub actor : Key
  pub payload : P
  pub previous_hash : Key

pub record AuditEntry (P : Type 0) : Type 0 where
  pub timestamp : Key
  pub event_type : Key
  pub actor : Key
  pub payload : P
  pub previous_hash : Key
  pub entry_hash : Key

pub record Sha256 (P : Type 0) : Type 0 where
  pub digest : Body P → Key
  -- "0" * 64
  pub zeros : Key

-- What may stand in a record's file: an entry, or what cannot be read as one.
pub data Stored (P : Type 0) : Type 0 where
  entry : AuditEntry P → Stored P
  unreadable : Stored P

-- The two fields of the manifest; a count that is no number is `malformed`.
pub data Count : Type 0 where
  number : ℕ → Count
  malformed : Count

pub record Manifest : Type 0 where
  pub count : Option Count
  pub last_hash : Option Key

pub record Store (P : Type 0) : Type 0 where
  pub records : List (Option (Stored P))
  pub manifest : Option Manifest

pub record Emitter (P : Type 0) : Type 0 where
  pub chain : List (AuditEntry P)
  pub is_corrupt : Bool
  pub store : Option (Store P)

-- Which of the writes of one `emit` raise.
pub record Faults : Type 0 where
  pub entry_write : Bool
  pub manifest_write : Bool
  pub cleanup : Bool

pub data AuditError : Type 0 where
  entry_not_persisted manifest_not_persisted corrupted : AuditError

abbrev pub manifest_of : ℕ → Key → Option Manifest
manifest_of n h = some (record { count = some (number n); last_hash = some h })

-- `expected_count`, and whether the count is malformed.
abbrev pub expected_count : Option Manifest → Option ℕ × Bool
expected_count none = (none, false)
expected_count (some m) = elim m.count [
  | none ↦ (none, false)
  | some malformed ↦ (none, true)
  | some (number n) ↦ (some n, false)
]

abbrev count_differs : Option ℕ → ℕ → Bool
count_differs none n = false
count_differs (some k) n = not (n == k)

abbrev count_agrees : Option Count → ℕ → Bool
count_agrees none n = true
count_agrees (some malformed) n = false
count_agrees (some (number k)) n = k == n

module _ {P : Type 0} where
  abbrev pub body : AuditEntry P → Body P
  body e = record {
    timestamp = e.timestamp;
    event_type = e.event_type;
    actor = e.actor;
    payload = e.payload;
    previous_hash = e.previous_hash;
  }

  -- The store's `save` and `delete` of the record with an index.
  abbrev pub put_record :
      ℕ → Option (Stored P) → List (Option (Stored P)) → List (Option (Stored P))
  put_record zero r [] = r ∷ []
  put_record zero r (x ∷ rs) = r ∷ rs
  put_record (suc i) r [] = none ∷ put_record i r []
  put_record (suc i) r (x ∷ rs) = x ∷ put_record i r rs

  -- Steps 1 and 2 of `emit` on the store.
  abbrev pub persist : Store P → ℕ → AuditEntry P → Faults → Result AuditError (Unit {0}) × Store P
  persist s idx e faults =
      let with_entry = put_record idx (some (entry e)) s.records in
      if faults.entry_write
      then (err entry_not_persisted, s)
      else if faults.manifest_write
      then (
        err manifest_not_persisted,
        record s {
          records = if faults.cleanup then with_entry else put_record idx none with_entry;
        },
      )
      else (ok tt, record s { records = with_entry; manifest = manifest_of (idx + 1) e.entry_hash })

  -- `self._chain[-1].entry_hash if self._chain else "0" * 64`
  abbrev pub head_hash : Key → List (AuditEntry P) → Key
  head_hash start [] = start
  head_hash start (e ∷ es) = head_hash e.entry_hash es

  abbrev hash_agrees : Option Key → List (AuditEntry P) → Bool
  hash_agrees none c = true
  hash_agrees (some h) [] = true
  hash_agrees (some h) (e ∷ es) = h == head_hash e.entry_hash es

  abbrev pub manifest_agrees : Option (Store P) → List (AuditEntry P) → Bool
  manifest_agrees none c = true
  manifest_agrees (some s) c = elim s.manifest [
    | none ↦ true
    | some m ↦ count_agrees m.count (length c) && hash_agrees m.last_hash c
  ]

  module _ (sha : Sha256 P) where
    abbrev pub make_entry : Key → Key → Key → P → Key → AuditEntry P
    make_entry timestamp event_type actor payload previous_hash = record {
      timestamp = timestamp;
      event_type = event_type;
      actor = actor;
      payload = payload;
      previous_hash = previous_hash;
      entry_hash = sha.digest (record {
        timestamp = timestamp;
        event_type = event_type;
        actor = actor;
        payload = payload;
        previous_hash = previous_hash;
      });
    }

    unfoldable pub emit :
        Emitter P → Key → Key → P → Key → Faults → Result AuditError (AuditEntry P) × Emitter P
    emit m event_type actor payload timestamp faults =
        let e = make_entry timestamp event_type actor payload (head_hash sha.zeros m.chain) in
        elim m.store [
          | none ↦ (ok e, record m { chain = m.chain ++ e ∷ [] })
          | some s ↦
              let (r, s') = persist s (length m.chain) e faults in
              elim r [
                | err x ↦ (err x, record m { store = some s' })
                | ok _ ↦ (ok e, record m { chain = m.chain ++ e ∷ []; store = some s' })
              ]
        ]

    -- The loop of `verify_chain`, from the hash that the next entry must name.
    abbrev pub linked : Key → List (AuditEntry P) → Bool
    linked previous [] = true
    linked previous (e ∷ es) =
        e.previous_hash == previous && e.entry_hash == sha.digest (body e) && linked e.entry_hash es

    unfoldable pub verify_chain : Emitter P → Bool
    verify_chain m =
        if m.is_corrupt then false else linked sha.zeros m.chain && manifest_agrees m.store m.chain

  -- The loop of `_load_from_store`: the entries that it loads, and whether it met a record that it
  -- could not read or a record that the manifest's count promises and that is not there. The
  -- expected count falls as the index climbs.
  abbrev pub load_records : Option ℕ → List (Option (Stored P)) → List (AuditEntry P) × Bool
  load_records (some zero) rs = ([], false)
  load_records (some (suc n)) [] = ([], true)
  load_records none [] = ([], false)
  load_records (some (suc n)) (none ∷ rs) = ([], true)
  load_records none (none ∷ rs) = ([], false)
  load_records expected (some unreadable ∷ rs) = ([], true)
  load_records (some (suc n)) (some (entry e) ∷ rs) =
      let (es, corrupt) = load_records (some n) rs in (e ∷ es, corrupt)
  load_records none (some (entry e) ∷ rs) =
      let (es, corrupt) = load_records none rs in (e ∷ es, corrupt)

  -- The comparison of the manifest's last hash with the last entry loaded.
  abbrev last_hash_differs : Option Manifest → List (AuditEntry P) → Bool
  last_hash_differs none es = false
  last_hash_differs (some m) es = elim m.last_hash [
    | none ↦ false
    | some h ↦ elim (last? es) [ none ↦ false | some e ↦ not (e.entry_hash == h) ]
  ]

  -- `_load_from_store`: the chain is loaded even where the store is found corrupt; with `strict`
  -- that raises.
  unfoldable pub reload_from_store : Emitter P → Bool → Result AuditError ℕ × Emitter P
  reload_from_store m strict = elim m.store [
    | none ↦ (ok (length m.chain), m)
    | some s ↦
        let (expected, bad_count) = expected_count s.manifest in
        let (loaded, bad_record) = load_records expected s.records in
        let corrupt =
          bad_count
          || bad_record
          || (if count_differs expected (length loaded)
              then true
              else last_hash_differs s.manifest loaded) in
        let m' : Emitter P = record m { chain = loaded; is_corrupt = corrupt } in
        (if strict && corrupt then err corrupted else ok (length loaded), m')
  ]

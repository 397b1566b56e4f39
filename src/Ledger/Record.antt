-- ===== src/Ledger/Record.antt =====
-- services/pravah_ledger.py: `record_event` on each of its branches.
use bhiv_masterdb_ingestion.Prelude.{
  ℕ, suc, ◌+◌, ◌≡◌, ◌≢◌, ◌∙◌, ap, refl, ◌⊎◌, inl, inr, true, Option, none, some, [], ◌∷◌, ◌++◌,
  arith, Key, Result, ok, length, get_elem?, get_elem?-append_one, truthy, Option-cases,
}
use bhiv_masterdb_ingestion.Prelude.Dict.{get}
use bhiv_masterdb_ingestion.Ledger.{
  Ledger, LedgerError, PravahEvent, PravahEventStatus, PravahLedgerEntry, record_event, appended,
  new_entry, known_key, save_atomic,
}
use bhiv_masterdb_ingestion.Ledger.Index.{IsIndexed, save_atomic-IsIndexed}
use bhiv_masterdb_ingestion.Ledger.Append.{appended-IsIndexed}

module _ {V E : Type 0} where
  -- `e` is one of the entries.
  abbrev pub Holds : Ledger V E → PravahLedgerEntry V E → Type 0
  Holds l e = (i : ℕ) × (get_elem? l.entries i ≡ some e)

  known_key-found :
      (l : Ledger V E) (key : Option Key) (seq : ℕ)
      → known_key l key ≡ some seq
      → (k : Key) × (key ≡ some k) × (truthy k ≡ true) × (get k l.idempotency_index ≡ some seq)
  known_key-found l none seq h = cc
  known_key-found l (some k) seq h = (k, refl, ground arith, ground arith)

  known_key-missing :
      (l : Ledger V E) (k : Key)
      → known_key l (some k) ≡ none
      → truthy k ≡ true
      → get k l.idempotency_index ≡ none
  known_key-missing l k h real = ground arith

  fields_saved :
      (l : Ledger V E)
      → ((save_atomic l).entries ≡ l.entries)
        × ((save_atomic l).dedup_index ≡ l.dedup_index)
        × ((save_atomic l).idempotency_index ≡ l.idempotency_index)
  fields_saved l = ground arith

module _ {V E : Type 0} (l : Ledger V E) (event : PravahEvent V) (status : PravahEventStatus)
    (now : Key) where
  abbrev call : Result LedgerError (PravahLedgerEntry V E) × Ledger V E
  call = record_event l event status now

  abbrev entry : PravahLedgerEntry V E
  entry = new_entry (l.sequence_counter + 1) event status now

  -- The three ways in which a call ends.
  abbrev pub KnownId : Type 0
  KnownId =
      (e : PravahLedgerEntry V E) × Holds l e
      × (e.event.event_id ≡ event.event_id)
      × (call ≡ (ok e, l))

  abbrev pub KnownKey : Type 0
  KnownKey =
      (e : PravahLedgerEntry V E) × (k : Key) × Holds l e
      × (truthy k ≡ true)
      × (event.idempotency_key ≡ some k)
      × (e.event.idempotency_key ≡ some k)
      × (get event.event_id l.dedup_index ≡ none)
      × (call ≡ (ok e, l))

  abbrev pub Recorded : Type 0
  Recorded =
      (call.0 ≡ ok entry)
      × (call.1.entries ≡ l.entries ++ entry ∷ [])
      × (entry.sequence_number ≡ length l.entries + 1)
      × ((e : PravahLedgerEntry V E) → Holds l e → e.event.event_id ≢ event.event_id)
      × ((e : PravahLedgerEntry V E) (k : Key)
          → Holds l e
          → truthy k ≡ true
          → event.idempotency_key ≡ some k
          → e.event.idempotency_key ≢ some k)
      × (call.1 ≡ save_atomic (appended l event status now))

  -- On a ledger whose indices are in step, a call ends in one of three ways, never by an index
  -- error: the event id is known, and it returns an entry with that id and changes nothing; else
  -- the idempotency key is known, and it returns an entry with that key and changes nothing; else
  -- no entry has the id or the key, and one entry with the next number is appended.
  pub record_event_branches : IsIndexed l → KnownId ⊎ KnownKey ⊎ Recorded
  unfolding record_event
  record_event_branches h = elim (Option-cases (get event.event_id l.dedup_index)) [
    | inr (seq, known) ↦
        let (i, e, num, found, id) = h.dedup_sound event.event_id seq known in
        inl (e, (i, found), id, ground arith)
    | inl new_id ↦ elim (Option-cases (known_key l event.idempotency_key)) [
      | inr (seq, known) ↦
          let (k, has, real, indexed) = known_key-found l event.idempotency_key seq known in
          let (i, e, num, found, same_key, _) = h.key_sound k seq indexed in
          inr (inl (e, k, (i, found), real, has, same_key, new_id, ground arith))
      | inl new_key ↦ inr (
          inr (
            ground arith,
            ground (arith, fields_saved (appended l event status now)),
            ground (arith, h.counted),
            λ e held same. ground (arith, h.dedup_complete held.0 e held.1),
            λ e k held real has same. ground (arith, h.key_complete held.0 e k held.1 same real),
            ground arith,
          ))
    ]
  ]

  -- Recording keeps the numbering and both indices of an indexed ledger in step with its entries.
  pub record_event-IsIndexed : IsIndexed l → IsIndexed call.1
  unfolding record_event
  record_event-IsIndexed h = elim (Option-cases (get event.event_id l.dedup_index)) [
    | inr (seq, known) ↦ rw (known, record_event) h
    | inl new_id ↦ elim (Option-cases (known_key l event.idempotency_key)) [
      | inr (seq, known) ↦ rw (new_id, record_event) (rw (known, record_event) h)
      | inl new_key ↦
          rw (new_id, record_event)
            (rw (new_key, record_event)
              (save_atomic-IsIndexed (appended l event status now)
                (appended-IsIndexed l event status now h new_id new_key)))
    ]
  ]

module _ {V E : Type 0} (l : Ledger V E) (event : PravahEvent V) (status : PravahEventStatus)
    (now : Key) (e : PravahLedgerEntry V E) (i : ℕ) (held : get_elem? l.entries i ≡ some e) where
  pub known_id_returns :
      get event.event_id l.dedup_index ≡ some (suc i) → record_event l event status now ≡ (ok e, l)
  unfolding record_event
  known_id_returns known = ground arith

  known_key_returns :
      (k : Key)
      → get event.event_id l.dedup_index ≡ none
      → event.idempotency_key ≡ some k
      → truthy k ≡ true
      → get k l.idempotency_index ≡ some (suc i)
      → record_event l event status now ≡ (ok e, l)
  unfolding record_event
  known_key_returns k new_id has real known = ground arith

-- On an indexed ledger, recording an event a second time, at whatever time and with whatever
-- status, returns the entry of the first time and leaves the ledger as it is.
pub record_event_again :
    {V E : Type 0} (l : Ledger V E) (event : PravahEvent V) (status status' : PravahEventStatus)
    (now now' : Key)
    → IsIndexed l
    → (e : PravahLedgerEntry V E) → (record_event l event status now).0 ≡ ok e
    → record_event (record_event l event status now).1 event status' now'
      ≡ (ok e, (record_event l event status now).1)
record_event_again {V} {E} l event status status' now now' h e returned =
    elim (record_event_branches l event status now h) [
      | inl (e', held, id, outcome) ↦
          let same : e' ≡ e = cc in
          rw (ap (λ (p : Result LedgerError (PravahLedgerEntry V E) × Ledger V E). p.1) outcome) (
            known_id_returns l event status' now' e held.0 (cc (held.1, same))
              (ground (arith, h.dedup_complete held.0 e' held.1)))
      | inr (inl (e', k, held, real, has, same_key, new_id, outcome)) ↦
          let same : e' ≡ e = cc in
          rw (ap (λ (p : Result LedgerError (PravahLedgerEntry V E) × Ledger V E). p.1) outcome) (
            known_key_returns l event status' now' e held.0 (cc (held.1, same)) k new_id has real
              (h.key_complete held.0 e' k held.1 same_key real))
      | inr (inr (r, entries, num, fresh_id, fresh_key, after)) ↦
          let l' = (record_event l event status now).1 in
          let h' = record_event-IsIndexed l event status now h in
          let same : entry {E = E} l event status now ≡ e = cc in
          let at_end : get_elem? l'.entries (length l.entries) ≡ some e =
            rw entries (get_elem?-append_one l.entries (entry l event status now) ∙ ap some same) in
          known_id_returns l' event status' now' e (length l.entries) at_end
            (ground (arith, h'.dedup_complete (length l.entries) e at_end, same))
    ]

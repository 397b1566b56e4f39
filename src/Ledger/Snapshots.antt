-- ===== src/Ledger/Snapshots.antt =====
-- services/pravah_ledger.py: `load_snapshot` after `save_snapshot`.
use bhiv_masterdb_ingestion.Prelude.{
  ℕ, zero, suc, ◌≡◌, ◌≢◌, ◌∙◌, sym, refl, inl, inr, true, some, List, [], ◌∷◌, arith, Key,
  get_elem?, truthy, Option-cases,
}
use bhiv_masterdb_ingestion.Prelude.Dict.{Dict, get, put, get-put}
use bhiv_masterdb_ingestion.Ledger.{
  Ledger, PravahLedgerEntry, index_key, snapshot, dedup_of, idempotency_of, load_snapshot,
}
use bhiv_masterdb_ingestion.Ledger.Index.{IsIndexed}
use bhiv_masterdb_ingestion.Ledger.Append.{get-index_key}

module _ {V E : Type 0} where
  -- A key that no entry of the list has is looked up as before; the key of an entry gives that entry's
  -- number, if no other entry has it.
  get-dedup_of_absent :
      (es : List (PravahLedgerEntry V E)) (d : Dict ℕ) (k : Key)
      → ((i : ℕ) (e : PravahLedgerEntry V E) → get_elem? es i ≡ some e → e.event.event_id ≢ k)
      → get k (dedup_of es d) ≡ get k d
  get-dedup_of_absent [] d k h = refl
  get-dedup_of_absent (e ∷ es) d k h =
      get-dedup_of_absent es (put e.event.event_id e.sequence_number d) k (λ i. h (suc i))
      ∙ ground (arith, get-put e.event.event_id k e.sequence_number d, h 0 e refl)

  get-dedup_of :
      (es : List (PravahLedgerEntry V E)) (d : Dict ℕ) (i : ℕ) (e : PravahLedgerEntry V E)
      → get_elem? es i ≡ some e
      → ((j : ℕ) (b : PravahLedgerEntry V E)
          → get_elem? es j ≡ some b
          → b.event.event_id ≡ e.event.event_id
          → j ≡ i)
      → get e.event.event_id (dedup_of es d) ≡ some e.sequence_number
  get-dedup_of [] d i e found only = cc
  get-dedup_of (x ∷ es) d zero e found only =
      get-dedup_of_absent es (put x.event.event_id x.sequence_number d) e.event.event_id
        (λ j b at_j same. ground (arith, only (suc j) b at_j same))
      ∙ ground (arith, get-put x.event.event_id e.event.event_id x.sequence_number d)
  get-dedup_of (x ∷ es) d (suc i) e found only =
      get-dedup_of es (put x.event.event_id x.sequence_number d) i e found
        (λ j b at_j same. ground (arith, only (suc j) b at_j same))

  get-idempotency_of_absent :
      (es : List (PravahLedgerEntry V E)) (d : Dict ℕ) (k : Key)
      → ((i : ℕ) (e : PravahLedgerEntry V E)
          → get_elem? es i ≡ some e
          → truthy k ≡ true
          → e.event.idempotency_key ≢ some k)
      → get k (idempotency_of es d) ≡ get k d
  get-idempotency_of_absent [] d k h = refl
  get-idempotency_of_absent (e ∷ es) d k h =
      get-idempotency_of_absent es (index_key e.event.idempotency_key e.sequence_number d) k
        (λ i. h (suc i))
      ∙ elim (get-index_key e.event.idempotency_key e.sequence_number d k) [
        | inl same ↦ same
        | inr (has, real, _) ↦ absurd (h 0 e refl real has)
      ]

  get-idempotency_of :
      (es : List (PravahLedgerEntry V E)) (d : Dict ℕ) (i : ℕ) (e : PravahLedgerEntry V E) (k : Key)
      → get_elem? es i ≡ some e
      → e.event.idempotency_key ≡ some k
      → truthy k ≡ true
      → ((j : ℕ) (b : PravahLedgerEntry V E)
          → get_elem? es j ≡ some b
          → b.event.idempotency_key ≡ some k
          → j ≡ i)
      → get k (idempotency_of es d) ≡ some e.sequence_number
  get-idempotency_of [] d i e k found has real only = cc
  get-idempotency_of (x ∷ es) d zero e k found has real only =
      get-idempotency_of_absent es (index_key x.event.idempotency_key x.sequence_number d) k
        (λ j b at_j _ same. ground (arith, only (suc j) b at_j same))
      ∙ ground (arith, get-put k k x.sequence_number d)
  get-idempotency_of (x ∷ es) d (suc i) e k found has real only =
      get-idempotency_of es (index_key x.event.idempotency_key x.sequence_number d) i e k found has
        real (λ j b at_j same. ground (arith, only (suc j) b at_j same))

  -- The same counter, entries and answers of the two indices.
  pub record SameView (a b : Ledger V E) : Type 0 where
    pub entries : a.entries ≡ b.entries
    pub sequence_counter : a.sequence_counter ≡ b.sequence_counter
    pub dedup : (k : Key) → get k a.dedup_index ≡ get k b.dedup_index
    pub keys : (k : Key) → get k a.idempotency_index ≡ get k b.idempotency_index

  module _ (l : Ledger V E) (h : IsIndexed l) where
    dedup_rebuilt : (k : Key) → get k (dedup_of l.entries []) ≡ get k l.dedup_index
    dedup_rebuilt k = elim (Option-cases (get k l.dedup_index)) [
      | inr (seq, known) ↦
          let (i, e, num, found, id) = h.dedup_sound k seq known in
          let rebuilt = get-dedup_of l.entries [] i e found (λ j b at_j same.
            ground (arith, h.dedup_complete j b at_j, h.dedup_complete i e found)) in
          ground (arith, rebuilt, h.numbered i e found)
      | inl unknown ↦
          get-dedup_of_absent l.entries [] k
            (λ i e found same. ground (arith, h.dedup_complete i e found))
          ∙ sym unknown
    ]

    keys_rebuilt : (k : Key) → get k (idempotency_of l.entries []) ≡ get k l.idempotency_index
    keys_rebuilt k = elim (Option-cases (get k l.idempotency_index)) [
      | inr (seq, known) ↦
          let (i, e, num, found, has, real) = h.key_sound k seq known in
          let rebuilt = get-idempotency_of l.entries [] i e k found has real (λ j b at_j same.
            ground
              (arith, h.key_complete j b k at_j same real, h.key_complete i e k found has real)) in
          ground (arith, rebuilt, h.numbered i e found)
      | inl unknown ↦
          get-idempotency_of_absent l.entries [] k
            (λ i e found real same. ground (arith, h.key_complete i e k found same real))
          ∙ sym unknown
    ]

    -- A restart loses nothing: a ledger that loads the snapshot which an indexed ledger has saved has
    -- its entries and its counter, and both rebuilt indices answer every key as the saved ones.
    pub load_snapshot-SameView :
        (fresh : Ledger V E) → fresh.saved ≡ some (snapshot l) → SameView (load_snapshot fresh) l
    unfolding load_snapshot
    load_snapshot-SameView fresh saved = record {
      entries = ground arith;
      sequence_counter = ground arith;
      dedup = λ k. ground (arith, dedup_rebuilt k);
      keys = λ k. ground (arith, keys_rebuilt k);
    }

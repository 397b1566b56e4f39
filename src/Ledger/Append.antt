-- ===== src/Ledger/Append.antt =====
-- services/pravah_ledger.py: the append of `record_event`, and the indices.
use bhiv_masterdb_ingestion.Prelude.{
  ℕ, suc, ◌+◌, ◌≡◌, ◌∙◌, refl, ◌⊎◌, inl, inr, true, Option, none, some, [], ◌∷◌, arith, Key, length,
  length-append, get_elem?, get_elem?-append_left, get_elem?-append_one, get_elem?-lt, truthy, ◌==◌,
  Bool-cases,
}
use bhiv_masterdb_ingestion.Prelude.Dict.{Dict, get, get-put}
use bhiv_masterdb_ingestion.Ledger.{
  Ledger, PravahEvent, PravahEventStatus, PravahLedgerEntry, new_entry, known_key, index_key,
  appended,
}
use bhiv_masterdb_ingestion.Ledger.Index.{IsIndexed, get_elem?-append_one_cases}

pub get-index_key :
    (key : Option Key) (n : ℕ) (d : Dict ℕ) (k : Key)
    → (get k (index_key key n d) ≡ get k d)
      ⊎ ((key ≡ some k) × (truthy k ≡ true) × (get k (index_key key n d) ≡ some n))
get-index_key none n d k = inl refl
get-index_key (some j) n d k = elim (Bool-cases (truthy j)) [
  | inr empty ↦ inl (ground arith)
  | inl present ↦ elim (Bool-cases (j == k)) [
    | inl self ↦ inr (ground arith, ground arith, ground (arith, get-put j k n d))
    | inr other ↦ inl (ground (arith, get-put j k n d))
  ]
]

module _ {V E : Type 0} (l : Ledger V E) (event : PravahEvent V) (status : PravahEventStatus)
    (now : Key) (h : IsIndexed l) (new_id : get event.event_id l.dedup_index ≡ none) where
  abbrev entry : PravahLedgerEntry V E
  entry = new_entry (l.sequence_counter + 1) event status now

  abbrev added : Ledger V E
  added = appended l event status now

  numbered_added :
      (i : ℕ) (e : PravahLedgerEntry V E)
      → get_elem? added.entries i ≡ some e
      → e.sequence_number ≡ i + 1
  numbered_added i e found = elim (get_elem?-append_one_cases l.entries entry i e found) [
    | inl old ↦ h.numbered i e old
    | inr (at_end, new) ↦ ground (arith, h.counted)
  ]

  dedup_complete_added :
      (i : ℕ) (e : PravahLedgerEntry V E)
      → get_elem? added.entries i ≡ some e
      → get e.event.event_id added.dedup_index ≡ some (suc i)
  dedup_complete_added i e found = elim (get_elem?-append_one_cases l.entries entry i e found) [
    | inl old ↦ ground (
      arith,
      h.dedup_complete i e old,
      get-put event.event_id e.event.event_id (l.sequence_counter + 1) l.dedup_index,
    )
    | inr (at_end, new) ↦ ground (
      arith,
      h.counted,
      get-put event.event_id e.event.event_id (l.sequence_counter + 1) l.dedup_index,
    )
  ]

  dedup_sound_added :
      (k : Key) (seq : ℕ)
      → get k added.dedup_index ≡ some seq
      → (i : ℕ) × (e : PravahLedgerEntry V E) × (seq ≡ suc i)
        × (get_elem? added.entries i ≡ some e)
        × (e.event.event_id ≡ k)
  dedup_sound_added k seq found =
      let put_lem = get-put event.event_id k (l.sequence_counter + 1) l.dedup_index in
      elim (Bool-cases (event.event_id == k)) [
        | inl self ↦ (
          length l.entries,
          entry,
          ground (arith, h.counted, put_lem),
          get_elem?-append_one l.entries entry,
          ground arith,
        )
        | inr other ↦
            let (i, e, num, old, id) = h.dedup_sound k seq (ground (arith, put_lem)) in
            (i, e, num, extend i e old, id)
      ]
    where
      extend :
          (i : ℕ) (e : PravahLedgerEntry V E)
          → get_elem? l.entries i ≡ some e
          → get_elem? added.entries i ≡ some e
      extend i e old =
          get_elem?-append_left l.entries (entry ∷ []) i (get_elem?-lt l.entries i e old) ∙ old

  module _ (new_key : known_key l event.idempotency_key ≡ none) where
    key_complete_added :
        (i : ℕ) (e : PravahLedgerEntry V E) (k : Key)
        → get_elem? added.entries i ≡ some e
        → e.event.idempotency_key ≡ some k
        → truthy k ≡ true
        → get k added.idempotency_index ≡ some (suc i)
    key_complete_added i e k found has real =
        let put_lem =
          get-index_key event.idempotency_key (l.sequence_counter + 1) l.idempotency_index k in
        elim (get_elem?-append_one_cases l.entries entry i e found) [
          | inl old ↦ ground (arith, h.key_complete i e k old has real, put_lem, clash k)
          | inr (at_end, new) ↦ ground (arith, h.counted, put_self k)
        ]
      where
        clash :
            (k : Key)
            → event.idempotency_key ≡ some k
            → truthy k ≡ true
            → get k l.idempotency_index ≡ none
        clash k has real = ground arith

        put_self :
            (k : Key)
            → event.idempotency_key ≡ some k
            → truthy k ≡ true
            → get k added.idempotency_index ≡ some (l.sequence_counter + 1)
        put_self k has real =
            ground (arith, get-put k k (l.sequence_counter + 1) l.idempotency_index)

    key_sound_added :
        (k : Key) (seq : ℕ)
        → get k added.idempotency_index ≡ some seq
        → (i : ℕ) × (e : PravahLedgerEntry V E) × (seq ≡ suc i)
          × (get_elem? added.entries i ≡ some e)
          × (e.event.idempotency_key ≡ some k)
          × (truthy k ≡ true)
    key_sound_added k seq found =
        elim (get-index_key event.idempotency_key (l.sequence_counter + 1) l.idempotency_index k) [
          | inr (has, real, here) ↦ (
            length l.entries,
            entry,
            ground (arith, h.counted),
            get_elem?-append_one l.entries entry,
            has,
            real,
          )
          | inl other ↦
              let (i, e, num, old, has, real) = h.key_sound k seq (ground arith) in
              (i, e, num, extend i e old, has, real)
        ]
      where
        extend :
            (i : ℕ) (e : PravahLedgerEntry V E)
            → get_elem? l.entries i ≡ some e
            → get_elem? added.entries i ≡ some e
        extend i e old =
            get_elem?-append_left l.entries (entry ∷ []) i (get_elem?-lt l.entries i e old) ∙ old

    pub appended-IsIndexed : IsIndexed added
    appended-IsIndexed = record {
      counted = ground (arith, h.counted, length-append l.entries (entry ∷ []));
      numbered = numbered_added;
      dedup_complete = dedup_complete_added;
      dedup_sound = dedup_sound_added;
      key_complete = key_complete_added;
      key_sound = key_sound_added;
    }

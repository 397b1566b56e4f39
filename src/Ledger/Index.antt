-- ===== src/Ledger/Index.antt =====
-- services/pravah_ledger.py: the invariant that ties the counter and the two indices to the list of
-- entries.
use bhiv_masterdb_ingestion.Prelude.{
  ℕ, zero, suc, ◌+◌, ◌≡◌, refl, ◌⊎◌, inl, inr, Bool, true, some, List, [], ◌∷◌, ◌++◌, arith, Key,
  length, get_elem?, truthy, Bool-cases,
}
use bhiv_masterdb_ingestion.Prelude.Dict.{get}
use bhiv_masterdb_ingestion.Ledger.{Ledger, PravahLedgerEntry, new_ledger, snapshot, save_atomic}

-- What stands in a list that one element was added to.
pub get_elem?-append_one_cases {ℓ} :
    {A : Type ℓ} (xs : List A) (y : A) (i : ℕ) (a : A)
    → get_elem? (xs ++ y ∷ []) i ≡ some a
    → (get_elem? xs i ≡ some a) ⊎ ((i ≡ length xs) × (a ≡ y))
get_elem?-append_one_cases [] y zero a h = inr (refl, ground arith)
get_elem?-append_one_cases [] y (suc i) a h = ground arith
get_elem?-append_one_cases (x ∷ xs) y zero a h = inl h
get_elem?-append_one_cases (x ∷ xs) y (suc i) a h = elim (get_elem?-append_one_cases xs y i a h) [
  | inl old ↦ inl old
  | inr (at_end, new) ↦ inr (omega arith, new)
]

module _ {V E : Type 0} where
  -- The sequence numbers are 1, 2, 3 and so on; the indices send the event ids, and the keys that
  -- are not empty, of the entries to their sequence numbers, and nothing else.
  pub record IsIndexed (l : Ledger V E) : Type 0 where
    pub counted : l.sequence_counter ≡ length l.entries
    pub numbered :
        (i : ℕ) (e : PravahLedgerEntry V E)
        → get_elem? l.entries i ≡ some e
        → e.sequence_number ≡ i + 1
    pub dedup_complete :
        (i : ℕ) (e : PravahLedgerEntry V E)
        → get_elem? l.entries i ≡ some e
        → get e.event.event_id l.dedup_index ≡ some (suc i)
    pub dedup_sound :
        (k : Key) (seq : ℕ)
        → get k l.dedup_index ≡ some seq
        → (i : ℕ) × (e : PravahLedgerEntry V E) × (seq ≡ suc i)
          × (get_elem? l.entries i ≡ some e)
          × (e.event.event_id ≡ k)
    pub key_complete :
        (i : ℕ) (e : PravahLedgerEntry V E) (k : Key)
        → get_elem? l.entries i ≡ some e
        → e.event.idempotency_key ≡ some k
        → truthy k ≡ true
        → get k l.idempotency_index ≡ some (suc i)
    pub key_sound :
        (k : Key) (seq : ℕ)
        → get k l.idempotency_index ≡ some seq
        → (i : ℕ) × (e : PravahLedgerEntry V E) × (seq ≡ suc i)
          × (get_elem? l.entries i ≡ some e)
          × (e.event.idempotency_key ≡ some k)
          × (truthy k ≡ true)

  save_atomic_saved :
      (l : Ledger V E)
      → (save_atomic l ≡ l) ⊎ (save_atomic l ≡ record l { saved = some (snapshot l) })
  save_atomic_saved l = elim (Bool-cases l.persistent) [
    | inl persistent ↦ inr (ground arith)
    | inr volatile ↦ inl (ground arith)
  ]

  -- Writing the file changes no index.
  pub save_atomic-IsIndexed : (l : Ledger V E) → IsIndexed l → IsIndexed (save_atomic l)
  save_atomic-IsIndexed l h = elim (save_atomic_saved l) [
    | inl same ↦ rw same h
    | inr written ↦ rw written (record {
      counted = h.counted;
      numbered = h.numbered;
      dedup_complete = h.dedup_complete;
      dedup_sound = h.dedup_sound;
      key_complete = h.key_complete;
      key_sound = h.key_sound;
    })
  ]

  -- A new ledger is indexed.
  pub new_ledger-IsIndexed : (persistent : Bool) → IsIndexed (new_ledger persistent)
  new_ledger-IsIndexed persistent = record {
    counted = refl;
    numbered = λ i e h. cc;
    dedup_complete = λ i e h. cc;
    dedup_sound = λ k seq h. cc;
    key_complete = λ i e k h. cc;
    key_sound = λ k seq h. cc;
  }

-- ===== src/Ledger/Query.antt =====
-- services/pravah_ledger.py: `query_entries` and `get_replay_stream`, and what they select.
use bhiv_masterdb_ingestion.Prelude.{
  ℕ, suc, ◌+◌, ◌-◌, ◌≡◌, refl, ap, Bool, true, false, ◌&&◌, Option, none, some, List, [], ◌∷◌,
  arith, Key, leb, truthy, if◌then◌else◌, ◌==◌, length, take, drop, Bool-cases, inl, inr,
}
use Prim.Native.Nat.{min, max}
use bhiv_masterdb_ingestion.Ledger.{
  Ledger, PravahLedgerEntry, PravahEventStatus, pending, processing, committed_status,
  failed_status, replayed, duplicate,
}

abbrev pub status_code : PravahEventStatus → ℕ
status_code pending = 0
status_code processing = 1
status_code committed_status = 2
status_code failed_status = 3
status_code replayed = 4
status_code duplicate = 5

-- `not (want and found != want)`, for an optional string
abbrev pub passes : Option Key → Key → Bool
passes none found = true
passes (some want) found = if truthy want then found == want else true

abbrev pub passes_status : Option PravahEventStatus → PravahEventStatus → Bool
passes_status none found = true
passes_status (some want) found = status_code found == status_code want

module _ {V E : Type 0} where
  abbrev pub matches :
      Option Key → Option Key → Option PravahEventStatus → PravahLedgerEntry V E → Bool
  matches topic entity_id status e =
      passes topic e.event.topic
      && passes entity_id e.event.entity_id
      && passes_status status e.status

  -- The loop over the slice; `count` is the length of `results`.
  collect :
      (PravahLedgerEntry V E → Bool)
      → ℕ
      → ℕ
      → List (PravahLedgerEntry V E)
      → List (PravahLedgerEntry V E)
  collect p limit count [] = []
  collect p limit count (e ∷ es) = elim (p e) [
    | false ↦ collect p limit count es
    | true ↦ elim (leb limit (count + 1)) [
      | true ↦ e ∷ []
      | false ↦ e ∷ collect p limit (count + 1) es
    ]
  ]

  -- `self._entries[start_idx:end_idx]`
  abbrev pub slice : Ledger V E → ℕ → Option ℕ → List (PravahLedgerEntry V E)
  slice l from_sequence to_sequence =
      let max_seq : ℕ = elim to_sequence [ none ↦ length l.entries | some n ↦ n ] in
      let start_idx : ℕ = from_sequence - 1 in
      let end_idx : ℕ = min (length l.entries) max_seq in
      take (end_idx - start_idx) (drop start_idx l.entries)

  unfoldable pub query_entries :
      Ledger V E
      → ℕ
      → Option ℕ
      → Option Key
      → Option Key
      → Option PravahEventStatus
      → ℕ
      → List (PravahLedgerEntry V E)
  unfolding collect
  query_entries l from_sequence to_sequence topic entity_id status limit =
      collect (matches topic entity_id status) limit 0 (slice l from_sequence to_sequence)

  unfoldable pub get_replay_stream :
      Ledger V E → ℕ → Option ℕ → Option Key → Option Key → List (PravahLedgerEntry V E)
  unfolding query_entries
  get_replay_stream l from_sequence to_sequence topic entity_id =
      query_entries l from_sequence to_sequence topic entity_id none 10000

  -- The entries that pass a test, in their order.
  abbrev pub keep :
      (PravahLedgerEntry V E → Bool) → List (PravahLedgerEntry V E) → List (PravahLedgerEntry V E)
  keep p [] = []
  keep p (e ∷ es) = if p e then e ∷ keep p es else keep p es

  collect-eq-take :
      (p : PravahLedgerEntry V E → Bool) (limit count : ℕ) (es : List (PravahLedgerEntry V E))
      → collect p limit count es ≡ take (suc (limit - count - 1)) (keep p es)
  unfolding collect
  collect-eq-take p limit count [] = refl
  collect-eq-take p limit count (e ∷ es) = elim (Bool-cases (p e)) [
    | inr skipped ↦ rw (skipped, collect, keep) (collect-eq-take p limit count es)
    | inl kept ↦ elim (Bool-cases (leb limit (count + 1))) [
      | inl last ↦
          let full : limit - count - 1 ≡ 0 = ground arith in
          rw (kept, collect, keep, full) (rw (last, collect))
      | inr more ↦
          let left : limit - count - 1 ≡ suc (limit - (count + 1) - 1) = ground arith in
          rw (kept, collect, keep, left)
            (rw (more, collect) (ap (λ xs. e ∷ xs) (collect-eq-take p limit (count + 1) es)))
    ]
  ]

  -- A query returns, in the order of the ledger, the entries of the numbered range that match every
  -- filter which is given, up to the limit; a limit of 0 counts as 1.
  pub query_entries-eq-take :
      (l : Ledger V E) (from_sequence : ℕ) (to_sequence : Option ℕ) (topic entity_id : Option Key)
      (status : Option PravahEventStatus) (limit : ℕ)
      → query_entries l from_sequence to_sequence topic entity_id status limit
        ≡ take
            (max 1 limit)
            (keep (matches topic entity_id status) (slice l from_sequence to_sequence))
  unfolding query_entries
  query_entries-eq-take l from_sequence to_sequence topic entity_id status limit =
      let bound : max 1 limit ≡ suc (limit - 0 - 1) = omega arith in
      rw bound (
        collect-eq-take (matches topic entity_id status) limit 0
          (slice l from_sequence to_sequence))

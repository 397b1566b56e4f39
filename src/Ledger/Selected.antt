-- ===== src/Ledger/Selected.antt =====
-- services/pravah_ledger.py: `query_entries`, against the sequence numbers and the fields of the entries.
use bhiv_masterdb_ingestion.Prelude.{
  ℕ, zero, suc, ◌+◌, ◌-◌, ◌≤◌, ◌<◌, ◌≡◌, refl, ◌⊎◌, inl, inr, Bool, true, Option, none, some, List,
  [], ◌∷◌, arith, Key, leb, ◌==◌, length, take, drop, get_elem?, Bool-cases, ==→eq, if_rule, subst,
  sym,
}
use Prim.Native.Nat.{min, max}
use bhiv_masterdb_ingestion.Ledger.{Ledger, PravahLedgerEntry, PravahEventStatus}
use bhiv_masterdb_ingestion.Ledger.Query.{
  status_code, passes, passes_status, matches, slice, query_entries, keep, query_entries-eq-take,
}
use bhiv_masterdb_ingestion.Ledger.Index.{IsIndexed}

-- The second list has the wanted elements of the first, in its order: all of them, or the first `n`.
pub data Selects {A : Type 0} (P : A → Type 0) : ℕ → List A → List A → Type 0 where
  full : {xs : List A} → Selects P 0 xs []
  over : {n : ℕ} → Selects P n [] []
  skip : {n : ℕ} {x : A} {xs ys : List A} → ¬ P x → Selects P n xs ys → Selects P n (x ∷ xs) ys
  pick :
      {n : ℕ} {x : A} {xs ys : List A}
      → P x
      → Selects P n xs ys
      → Selects P (suc n) (x ∷ xs) (x ∷ ys)

-- The number is within the bound that is given, if any.
abbrev pub UpTo : Option ℕ → ℕ → Type 0
UpTo none n = Unit
UpTo (some bound) n = n ≤ bound

-- An absent or empty string asks for nothing.
abbrev pub Asked : Option Key → Key → Type 0
Asked none found = Unit
Asked (some want) found = (want ≡ 0) ⊎ (found ≡ want)

abbrev pub AskedStatus : Option PravahEventStatus → PravahEventStatus → Type 0
AskedStatus none found = Unit
AskedStatus (some want) found = found ≡ want

passes-Asked : (o : Option Key) (found : Key) → passes o found ≡ true → Asked o found
passes-Asked none found h = tt
passes-Asked (some want) found h = ground (arith, ==→eq want 0, ==→eq found want)

Asked-passes : (o : Option Key) (found : Key) → Asked o found → passes o found ≡ true
Asked-passes none found h = refl
Asked-passes (some want) found (inl e) = ground arith
Asked-passes (some want) found (inr e) = ground arith

code_injective : (a b : PravahEventStatus) → (status_code a == status_code b) ≡ true → a ≡ b
code_injective a b h = ground arith

passes_status-AskedStatus :
    (o : Option PravahEventStatus) (found : PravahEventStatus)
    → passes_status o found ≡ true
    → AskedStatus o found
passes_status-AskedStatus none found h = tt
passes_status-AskedStatus (some want) found h = code_injective found want h

AskedStatus-passes_status :
    (o : Option PravahEventStatus) (found : PravahEventStatus)
    → AskedStatus o found
    → passes_status o found ≡ true
AskedStatus-passes_status none found h = refl
AskedStatus-passes_status (some want) found h = ground arith

-- No number after `i` is within the bound.
abbrev Bounded : Option ℕ → ℕ → Type 0
Bounded to_sequence i = (k : ℕ) → i < k → ¬ UpTo to_sequence k

module _ {V E : Type 0} where
  -- What a query asks of an entry, by its sequence number and its fields.
  pub record IsWanted (from_sequence : ℕ) (to_sequence : Option ℕ) (topic entity_id : Option Key)
      (status : Option PravahEventStatus) (e : PravahLedgerEntry V E) : Type 0 where
    pub after : from_sequence ≤ e.sequence_number
    pub up_to : UpTo to_sequence e.sequence_number
    pub topic_fits : Asked topic e.event.topic
    pub entity_fits : Asked entity_id e.event.entity_id
    pub status_fits : AskedStatus status e.status

  abbrev Numbered : ℕ → List (PravahLedgerEntry V E) → Type 0
  Numbered i [] = Unit
  Numbered i (e ∷ es) = (e.sequence_number ≡ suc i) × Numbered (suc i) es

  all-Numbered :
      (i : ℕ) (es : List (PravahLedgerEntry V E))
      → ((j : ℕ) (e : PravahLedgerEntry V E)
          → get_elem? es j ≡ some e
          → e.sequence_number ≡ i + (j + 1))
      → Numbered i es
  all-Numbered i [] h = tt
  all-Numbered i (e ∷ es) h =
      let first = h 0 e refl in
      (omega arith, all-Numbered (suc i) es (λ j x at. let n = h (suc j) x at in omega arith))

  module _ (from_sequence : ℕ) (to_sequence : Option ℕ) (topic entity_id : Option Key)
      (status : Option PravahEventStatus) where
    abbrev Wanted : PravahLedgerEntry V E → Type 0
    Wanted = IsWanted from_sequence to_sequence topic entity_id status

    abbrev test : PravahLedgerEntry V E → Bool
    test = matches topic entity_id status

    none_beyond :
        (n i : ℕ) (es : List (PravahLedgerEntry V E))
        → Numbered i es
        → Bounded to_sequence i
        → Selects Wanted n es []
    none_beyond n i [] numbered bounded = over
    none_beyond n i (e ∷ es) numbered bounded =
        skip (λ w. bounded e.sequence_number (let s = numbered.0 in omega arith) w.up_to)
          (none_beyond n (suc i) es numbered.1 (λ k later. bounded k (omega arith)))

    matches-Wanted :
        (e : PravahLedgerEntry V E)
        → from_sequence ≤ e.sequence_number
        → UpTo to_sequence e.sequence_number
        → test e ≡ true
        → Wanted e
    matches-Wanted e after up_to h = record {
      after = after;
      up_to = up_to;
      topic_fits = passes-Asked topic e.event.topic (ground arith);
      entity_fits = passes-Asked entity_id e.event.entity_id (ground arith);
      status_fits = passes_status-AskedStatus status e.status (ground arith);
    }

    Wanted-matches : (e : PravahLedgerEntry V E) → Wanted e → test e ≡ true
    Wanted-matches e w =
        let t = Asked-passes topic e.event.topic w.topic_fits in
        let i = Asked-passes entity_id e.event.entity_id w.entity_fits in
        let s = AskedStatus-passes_status status e.status w.status_fits in ground arith

    take_none :
        (n : ℕ) (es : List (PravahLedgerEntry V E))
        → Selects Wanted n es []
        → Selects Wanted n es (take n [])
    take_none zero es h = h
    take_none (suc n) es h = h

    take_first :
        (n : ℕ) (e : PravahLedgerEntry V E) (es kept : List (PravahLedgerEntry V E))
        → Wanted e
        → ((m : ℕ) → Selects Wanted m es (take m kept))
        → Selects Wanted n (e ∷ es) (take n (e ∷ kept))
    take_first zero e es kept w rest = full
    take_first (suc n) e es kept w rest = pick w (rest n)

    -- From the start of the range on.
    within :
        (n w i : ℕ) (es : List (PravahLedgerEntry V E))
        → Numbered i es
        → from_sequence ≤ suc i
        → ((k : ℕ) → i < k → k ≤ i + w → UpTo to_sequence k)
        → Bounded to_sequence (i + w) ⊎ (length es ≤ w)
        → Selects Wanted n es (take n (keep test (take w es)))
    within n zero i [] numbered after inside outside = take_none n [] over
    within n zero i (e ∷ es) numbered after inside (inl bounded) =
        take_none n (e ∷ es) (none_beyond n i (e ∷ es) numbered (λ k h. bounded k (omega arith)))
    within n zero i (e ∷ es) numbered after inside (inr short) = absurd (omega arith)
    within n (suc w) i [] numbered after inside outside = take_none n [] over
    within n (suc w) i (e ∷ es) numbered after inside outside =
        let seq = numbered.0 in
        let rest = λ (m : ℕ).
          within m w (suc i) es numbered.1 (omega arith)
            (λ k a b. inside k (omega arith) (omega arith))
            (elim outside [
              | inl bounded ↦ inl (λ k h. bounded k (omega arith))
              | inr short ↦ inr (omega arith)
            ]) in
        let kept = keep test (take w es) in
        if_rule (λ xs. Selects Wanted n (e ∷ es) (take n xs)) (test e) (e ∷ kept) kept
          (λ h.
            let up_to = inside e.sequence_number (omega arith) (omega arith) in
            take_first n e es kept (matches-Wanted e (omega arith) up_to h) rest)
          (λ h. skip (λ x. let same = Wanted-matches e x in ground arith) (rest n))

    -- From the start of the ledger on.
    from_start :
        (n a i w : ℕ) (es : List (PravahLedgerEntry V E))
        → Numbered i es
        → i + a ≡ from_sequence - 1
        → ((k : ℕ) → i + a < k → k ≤ i + a + w → UpTo to_sequence k)
        → Bounded to_sequence (i + a + w) ⊎ (length es ≤ a + w)
        → Selects Wanted n es (take n (keep test (take w (drop a es))))
    from_start n zero i w es numbered start inside outside =
        within n w i es numbered (omega arith) (λ k h h'. inside k (omega arith) (omega arith))
          (elim outside [
            | inl bounded ↦ inl (λ k h. bounded k (omega arith))
            | inr short ↦ inr (omega arith)
          ])
    from_start n (suc a) i zero [] numbered start inside outside = take_none n [] over
    from_start n (suc a) i (suc w) [] numbered start inside outside = take_none n [] over
    from_start n (suc a) i w (e ∷ es) numbered start inside outside =
        let seq = numbered.0 in
        skip (λ x. let after = x.after in omega arith)
          (from_start n a (suc i) w es numbered.1 (omega arith)
            (λ k h h'. inside k (omega arith) (omega arith))
            (elim outside [
              | inl bounded ↦ inl (λ k h. bounded k (omega arith))
              | inr short ↦ inr (omega arith)
            ]))

  -- On a ledger whose index agrees with its entries, a query returns, in the order of the ledger, the
  -- entries whose sequence number lies in the range and whose topic, entity and status are those that
  -- are asked for, where any are: all of them, or the first as many as the limit; a limit of 0 counts
  -- as 1.
  pub query_entries-Selects :
      (l : Ledger V E) (from_sequence : ℕ) (to_sequence : Option ℕ) (topic entity_id : Option Key)
      (status : Option PravahEventStatus) (limit : ℕ)
      → IsIndexed l
      → Selects
          (IsWanted from_sequence to_sequence topic entity_id status)
          (max 1 limit)
          l.entries
          (query_entries l from_sequence to_sequence topic entity_id status limit)
  query_entries-Selects l from_sequence to_sequence topic entity_id status limit h =
      subst (Selects _ (max 1 limit) l.entries)
        (sym (query_entries-eq-take l from_sequence to_sequence topic entity_id status limit))
        (select to_sequence)
    where
      numbered : Numbered 0 l.entries
      numbered = all-Numbered 0 l.entries (λ j e at. let n = h.numbered j e at in omega arith)

      select :
          (to : Option ℕ)
          → Selects (IsWanted from_sequence to topic entity_id status) (max 1 limit) l.entries (
              take (max 1 limit) (keep (matches topic entity_id status) (slice l from_sequence to)))
      select none =
          from_start from_sequence none topic entity_id status (max 1 limit) (from_sequence - 1) 0 _
            l.entries numbered (omega arith) (λ k a b. tt) (inr (omega arith))
      select (some bound) =
          from_start from_sequence (some bound) topic entity_id status (max 1 limit)
            (from_sequence - 1) 0 (min (length l.entries) bound - (from_sequence - 1)) l.entries
            numbered (omega arith) (λ k a b. omega arith)
            (elim (Bool-cases (leb (length l.entries) bound)) [
              | inl all ↦ inr (ground arith)
              | inr part ↦ inl (λ k h. ground arith)
            ])

-- ===== src/Ledger/Updates.antt =====
-- services/pravah_ledger.py: `commit_entry` and `fail_entry`, and the entries.
use bhiv_masterdb_ingestion.Prelude.{
  ℕ, zero, suc, ◌-◌, ◌<◌, ◌≡◌, ◌∙◌, sym, refl, ◌⊎◌, inl, inr, true, ◌||◌, Option, none, some, List,
  arith, Key, Result, ok, err, length, length-set, set, get_elem?, get_elem?-lt, get_elem?-some,
  get_elem?-set_self, get_elem?-set_ne, ltb, Option-cases, Bool-cases, ◌==◌, if◌then◌else◌,
}
use bhiv_masterdb_ingestion.Ledger.{
  Ledger, LedgerError, PravahLedgerEntry, invalid_sequence_number, rewrite_entry, commit_entry,
  fail_entry, committed, failed, get_entry, save_atomic,
}
use bhiv_masterdb_ingestion.Ledger.Index.{IsIndexed, save_atomic-IsIndexed}

module _ {V E : Type 0} (f : PravahLedgerEntry V E → PravahLedgerEntry V E)
    (same_event : (e : PravahLedgerEntry V E)
      → ((f e).event ≡ e.event) × ((f e).sequence_number ≡ e.sequence_number)) where
  set_back :
      (es : List (PravahLedgerEntry V E)) (i j : ℕ) (a e : PravahLedgerEntry V E)
      → get_elem? es i ≡ some a
      → get_elem? (set es i (f a)) j ≡ some e
      → (b : PravahLedgerEntry V E) × (get_elem? es j ≡ some b)
        × (e.event ≡ b.event)
        × (e.sequence_number ≡ b.sequence_number)
  set_back es i j a e at_i h = elim (Bool-cases (i == j)) [
    | inl self ↦ (
      a,
      ground arith,
      ground (arith, same_event a, get_elem?-set_self es i (f a), get_elem?-lt es i a),
      ground (arith, same_event a, get_elem?-set_self es i (f a), get_elem?-lt es i a),
    )
    | inr other ↦ (e, ground (arith, get_elem?-set_ne es i j (f a)), refl, refl)
  ]

  set_on :
      (es : List (PravahLedgerEntry V E)) (i j : ℕ) (a b : PravahLedgerEntry V E)
      → get_elem? es i ≡ some a
      → get_elem? es j ≡ some b
      → (e : PravahLedgerEntry V E) × (get_elem? (set es i (f a)) j ≡ some e) × (e.event ≡ b.event)
  set_on es i j a b at_i h = elim (Bool-cases (i == j)) [
    | inl self ↦ (
      f a,
      ground (arith, get_elem?-set_self es i (f a), get_elem?-lt es i a),
      ground (arith, same_event a),
    )
    | inr other ↦ (b, ground (arith, get_elem?-set_ne es i j (f a)), refl)
  ]

  set-IsIndexed :
      (l : Ledger V E) (i : ℕ) (a : PravahLedgerEntry V E)
      → IsIndexed l
      → get_elem? l.entries i ≡ some a
      → IsIndexed (record l { entries = set l.entries i (f a) })
  set-IsIndexed l i a h at_i = record {
    counted = h.counted ∙ sym (length-set l.entries i (f a));
    numbered = λ j e found.
        let (b, old, ev, num) = set_back l.entries i j a e at_i found in
        ground (arith, h.numbered j b old);
    dedup_complete = λ j e found.
        let (b, old, ev, num) = set_back l.entries i j a e at_i found in
        ground (arith, h.dedup_complete j b old);
    dedup_sound = λ k seq found.
        let (j, b, num, old, id) = h.dedup_sound k seq found in
        let (e, new, ev) = set_on l.entries i j a b at_i old in (j, e, num, new, ground arith);
    key_complete = λ j e k found has real.
        let (b, old, ev, num) = set_back l.entries i j a e at_i found in
        h.key_complete j b k old (ground arith) real;
    key_sound = λ k seq found.
        let (j, b, num, old, has, real) = h.key_sound k seq found in
        let (e, new, ev) = set_on l.entries i j a b at_i old in
        (j, e, num, new, ground arith, real);
  }

  rewrite_entry-IsIndexed :
      (l : Ledger V E) (seq : ℕ) → IsIndexed l → IsIndexed (rewrite_entry l seq f).1
  rewrite_entry-IsIndexed l seq h = elim (Bool-cases (ltb seq 1 || ltb (length l.entries) seq)) [
    | inl outside ↦ rw (outside, rewrite_entry) h
    | inr inside ↦ elim (Option-cases (get_elem? l.entries (seq - 1))) [
      | inl missing ↦ rw (inside, rewrite_entry) (rw (missing, rewrite_entry) h)
      | inr (a, found) ↦
          rw (inside, rewrite_entry)
            (rw (found, rewrite_entry)
              (save_atomic-IsIndexed (record l { entries = set l.entries (seq - 1) (f a) })
                (set-IsIndexed l (seq - 1) a h found)))
    ]
  ]

module _ {V E : Type 0} (f : PravahLedgerEntry V E → PravahLedgerEntry V E) (l : Ledger V E)
    (seq : ℕ) where
  -- Out of range the ledger raises and stays as it is; in range exactly the named entry is rewritten by `f`.
  abbrev pub Rewrites : Result LedgerError (PravahLedgerEntry V E) × Ledger V E → Type 0
  Rewrites (r, l') =
      ((get_entry l seq ≡ none) × (r ≡ err invalid_sequence_number) × (l' ≡ l))
      ⊎ ((e : PravahLedgerEntry V E) × (get_entry l seq ≡ some e)
          × (r ≡ ok (f e))
          × (length l'.entries ≡ length l.entries)
          × ((j : ℕ) → get_entry l' j ≡ (if j == seq then some (f e) else get_entry l j)))

module _ {V E : Type 0} where
  past_end :
      (l : Ledger V E) (i : ℕ)
      → get_elem? l.entries i ≡ none
      → ltb (length l.entries) (suc i) ≡ true
  past_end l i missing = elim (Bool-cases (ltb (length l.entries) (suc i))) [
    | inl past ↦ past
    | inr inside ↦ let (a, found) = get_elem?-some l.entries i (ground arith) in cc
  ]

  get_entry-set :
      (l : Ledger V E) (i : ℕ) (a : PravahLedgerEntry V E) (j : ℕ)
      → i < length l.entries
      → get_entry (save_atomic (record l { entries = set l.entries i a })) j
        ≡ (if j == suc i then some a else get_entry l j)
  unfolding get_entry
  get_entry-set l i a zero h = ground arith
  get_entry-set l i a (suc j) h =
      ground (arith, get_elem?-set_self l.entries i a, get_elem?-set_ne l.entries i j a)

rewrite_entry-Rewrites :
    {V E : Type 0} (f : PravahLedgerEntry V E → PravahLedgerEntry V E) (l : Ledger V E) (seq : ℕ)
    → Rewrites f l seq (rewrite_entry l seq f)
unfolding get_entry
rewrite_entry-Rewrites f l zero = inl (refl, refl, refl)
rewrite_entry-Rewrites f l (suc i) = elim (Option-cases (get_elem? l.entries i)) [
  | inl missing ↦
      let outside : ltb (length l.entries) (suc i) ≡ true = past_end l i missing in
      inl (missing, ground arith, ground arith)
  | inr (e, found) ↦
      let inside = get_elem?-lt l.entries i e found in
      let same : suc i - 1 ≡ i = omega arith in
      inr (
        e,
        found,
        ground arith,
        ground (arith, length-set l.entries i (f e)),
        λ j. unfold get_entry in ground (arith, get_entry-set l i (f e) j inside),
      )
]

-- On an indexed ledger, committing out of range raises and changes nothing; in range it marks
-- exactly the named entry as committed, with the given hash and no error, and keeps the
-- invariant.
pub commit_entry-Rewrites :
    {V E : Type 0} (l : Ledger V E) (seq : ℕ) (hash : Option Key) (now : Key)
    → IsIndexed l
    → Rewrites (committed hash now) l seq (commit_entry l seq hash now)
      × IsIndexed (commit_entry l seq hash now).1
unfolding commit_entry
commit_entry-Rewrites l seq hash now h = (
  rewrite_entry-Rewrites (committed hash now) l seq,
  rewrite_entry-IsIndexed (committed hash now) (λ e. (refl, refl)) l seq h,
)

-- On an indexed ledger, failing an entry out of range raises and changes nothing; in range it
-- marks exactly the named entry as failed, with the error and one more try, and keeps the
-- invariant.
pub fail_entry-Rewrites :
    {V E : Type 0} (l : Ledger V E) (seq : ℕ) (error_message : E) (now : Key)
    → IsIndexed l
    → Rewrites (failed error_message now) l seq (fail_entry l seq error_message now)
      × IsIndexed (fail_entry l seq error_message now).1
unfolding fail_entry
fail_entry-Rewrites l seq error_message now h = (
  rewrite_entry-Rewrites (failed error_message now) l seq,
  rewrite_entry-IsIndexed (failed error_message now) (λ e. (refl, refl)) l seq h,
)

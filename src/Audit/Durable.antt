-- ===== src/Audit/Durable.antt =====
-- services/crypto_audit_emitter.py: `reload_from_store`, after `emit`.
use bhiv_masterdb_ingestion.Prelude.{
  ◌+◌, ◌≡◌, sym, refl, inl, inr, Bool, false, Option, none, some, List, [], ◌∷◌, ◌++◌, arith, Key,
  ◌∙◌, subst, ap, ok, length, length-append, last?, Bool-cases,
}
use mathlib.Core.List.{append-nil, append_assoc}
use bhiv_masterdb_ingestion.Audit.{
  AuditEntry, Sha256, Stored, entry, Store, Emitter, Faults, make_entry, head_hash, put_record,
  load_records, manifest_of, emit, reload_from_store, expected_count, count_differs,
  last_hash_differs,
}
use bhiv_masterdb_ingestion.Audit.Chain.{head_hash-append_one}

module _ {P : Type 0} where
  -- The records begin with the entries of the chain.
  abbrev pub Begins : List (AuditEntry P) → List (Option (Stored P)) → Type 0
  Begins [] rs = Unit
  Begins (e ∷ c) [] = ⊥
  Begins (e ∷ c) (r ∷ rs) = (r ≡ some (entry e)) × Begins c rs

  -- The manifest names the count and the last hash of the chain; before the first entry there is no
  -- manifest and no first record.
  abbrev pub IsNamed : List (AuditEntry P) → Store P → Type 0
  IsNamed [] s = (s.manifest ≡ none) × (load_records none s.records ≡ ([], false))
  IsNamed (e ∷ c) s = s.manifest ≡ manifest_of (length (e ∷ c)) (head_hash e.entry_hash c)

  abbrev pub IsStored : Emitter P → Type 0
  IsStored m = (s : Store P) × (m.store ≡ some s) × Begins m.chain s.records × IsNamed m.chain s

  load_records-Begins :
      (c : List (AuditEntry P)) (rs : List (Option (Stored P)))
      → Begins c rs
      → load_records (some (length c)) rs ≡ (c, false)
  load_records-Begins [] rs h = refl
  load_records-Begins (e ∷ c) [] h = elim h [ ]
  load_records-Begins (e ∷ c) (r ∷ rs) h = rw h.0 (ground (arith, load_records-Begins c rs h.1))

  Begins-append_one :
      (c : List (AuditEntry P)) (rs : List (Option (Stored P))) (e : AuditEntry P)
      → Begins c rs
      → Begins (c ++ e ∷ []) (put_record (length c) (some (entry e)) rs)
  Begins-append_one [] [] e h = (refl, tt)
  Begins-append_one [] (x ∷ rs) e h = (refl, tt)
  Begins-append_one (x ∷ c) [] e h = elim h [ ]
  Begins-append_one (x ∷ c) (y ∷ rs) e h = (h.0, Begins-append_one c rs e h.1)

  IsNamed-append_one :
      (c : List (AuditEntry P)) (e : AuditEntry P) (s : Store P)
      → s.manifest ≡ manifest_of (length c + 1) e.entry_hash
      → IsNamed (c ++ e ∷ []) s
  IsNamed-append_one [] e s h = h
  IsNamed-append_one (x ∷ c) e s h =
      ground (arith, length-append c (e ∷ []), head_hash-append_one x.entry_hash c e)

  last?-head_hash :
      (e : AuditEntry P) (c : List (AuditEntry P))
      → (y : AuditEntry P) × (last? (e ∷ c) ≡ some y) × (y.entry_hash ≡ head_hash e.entry_hash c)
  last?-head_hash e [] = (e, refl, refl)
  last?-head_hash e (x ∷ c) = last?-head_hash x c

  -- What `_load_from_store` computes on the way.
  abbrev Loads : List (AuditEntry P) → Store P → Type 0
  Loads c s =
      let (expected, bad_count) = expected_count s.manifest in
      (load_records expected s.records ≡ (c, false))
      × (bad_count ≡ false)
      × (count_differs expected (length c) ≡ false)
      × (last_hash_differs s.manifest c ≡ false)

  stored-Loads :
      (c : List (AuditEntry P)) (s : Store P) → Begins c s.records → IsNamed c s → Loads c s
  stored-Loads [] s begins (no_manifest, nothing) = rw no_manifest (nothing, refl, refl, refl)
  stored-Loads (e ∷ c) s begins named =
      let (y, last, hash) = last?-head_hash e c in
      rw named (
        load_records-Begins (e ∷ c) s.records begins,
        refl,
        ground arith,
        ground (arith, last, hash),
      )

  -- Where the store and the chain are in step, reloading from the store, strictly or not, gives
  -- the chain back and finds no corruption.
  pub reload_from_store-IsStored :
      (m : Emitter P) (strict : Bool)
      → IsStored m
      → reload_from_store m strict ≡ (ok (length m.chain), record m { is_corrupt = false })
  unfolding reload_from_store
  reload_from_store-IsStored m strict (s, stored, begins, named) =
      ground (arith, stored-Loads m.chain s begins named)

  module _ (sha : Sha256 P) where
    -- Calls of `emit` one after the other, each of which returns its entry.
    pub data Emits : Emitter P → List (AuditEntry P) → Emitter P → Type 0 where
      rest : {m : Emitter P} → Emits m [] m
      call :
          {m next last : Emitter P} {e : AuditEntry P} {es : List (AuditEntry P)}
          (event_type actor : Key) (payload : P) (timestamp : Key) (faults : Faults)
          → emit sha m event_type actor payload timestamp faults ≡ (ok e, next)
          → Emits next es last
          → Emits m (e ∷ es) last

    emitted-IsStored :
        (m next : Emitter P) (e : AuditEntry P) (event_type actor : Key) (payload : P)
        (timestamp : Key) (faults : Faults)
        → emit sha m event_type actor payload timestamp faults ≡ (ok e, next)
        → IsStored m
        → (next.chain ≡ m.chain ++ e ∷ []) × IsStored next
    unfolding emit
    emitted-IsStored m next e event_type actor payload timestamp faults returned
          (s, stored, begins, named) =
        let new = make_entry sha timestamp event_type actor payload (head_hash sha.zeros m.chain) in
        let s' : Store P = record s {
          records = put_record (length m.chain) (some (entry new)) s.records;
          manifest = manifest_of (length m.chain + 1) new.entry_hash;
        } in
        let after : Emitter P = record m { chain = m.chain ++ new ∷ []; store = some s' } in
        elim (Bool-cases faults.entry_write) [
          | inl fails ↦ absurd (ground arith)
          | inr first_written ↦ elim (Bool-cases faults.manifest_write) [
            | inl fails ↦ absurd (ground arith)
            | inr second_written ↦
                let shape : emit sha m event_type actor payload timestamp faults ≡ (ok new, after) =
                  ground arith in
                let same : after ≡ next = ap (λ c. c.1) (sym shape ∙ returned) in
                let own : new ≡ e = ground arith in
                (
                  rw (← same, ← own) refl,
                  subst IsStored same (
                    s',
                    refl,
                    Begins-append_one m.chain s.records new begins,
                    IsNamed-append_one m.chain new s' refl,
                  ),
                )
          ]
        ]

    Emits-IsStored :
        {m last : Emitter P} {es : List (AuditEntry P)}
        → IsStored m
        → Emits m es last
        → (last.chain ≡ m.chain ++ es) × IsStored last
    Emits-IsStored {m} stored rest = (sym (append-nil m.chain), stored)
    Emits-IsStored {m} {last} {es = e ∷ es} stored (call {next = next} t a p now f returned later) =
        let (grown, agrees) = emitted-IsStored m next e t a p now f returned stored in
        let (longer, at_end) = Emits-IsStored agrees later in
        let joined : next.chain ++ es ≡ m.chain ++ e ∷ es =
          ap (λ c. c ++ es) grown ∙ append_assoc m.chain (e ∷ []) es in
        (longer ∙ joined, at_end)

    -- Any number of calls of `emit` that all return, on an emitter whose store agrees with its chain,
    -- adds the returned entries to the chain in their order; and then reloading from the store,
    -- strictly or not, gives this chain back and finds no corruption.
    pub emits-reload :
        (m last : Emitter P) (es : List (AuditEntry P)) (strict : Bool)
        → IsStored m
        → Emits m es last
        → (last.chain ≡ m.chain ++ es)
          × IsStored last
          × (reload_from_store last strict
              ≡ (ok (length last.chain), record last { is_corrupt = false }))
    emits-reload m last es strict stored calls =
        let (grown, at_end) = Emits-IsStored stored calls in
        (grown, at_end, reload_from_store-IsStored last strict at_end)

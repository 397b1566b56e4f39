-- ===== src/Audit/Chain.antt =====
-- services/crypto_audit_emitter.py: `emit`, `verify_chain` and the chains that verify.
use bhiv_masterdb_ingestion.Prelude.{
  ◌≡◌, refl, inl, inr, true, ◌&&◌, some, List, [], ◌∷◌, ◌++◌, arith, Key, Result, ok, err,
  length-append, ◌==◌, Option-cases, Bool-cases,
}
use bhiv_masterdb_ingestion.Audit.{
  AuditEntry, Sha256, Emitter, Faults, AuditError, body, make_entry, head_hash, linked, hash_agrees,
  emit, verify_chain,
}

module _ {P : Type 0} where
  pub head_hash-append_one :
      (start : Key) (c : List (AuditEntry P)) (e : AuditEntry P)
      → head_hash start (c ++ e ∷ []) ≡ e.entry_hash
  head_hash-append_one start [] e = refl
  head_hash-append_one start (x ∷ c) e = head_hash-append_one x.entry_hash c e

  hash_agrees-append_one :
      (c : List (AuditEntry P)) (e : AuditEntry P)
      → hash_agrees (some e.entry_hash) (c ++ e ∷ []) ≡ true
  hash_agrees-append_one [] e = ground arith
  hash_agrees-append_one (x ∷ c) e = ground (arith, head_hash-append_one x.entry_hash c e)

  module _ (sha : Sha256 P) where
    pub linked-append_one :
        (start : Key) (c : List (AuditEntry P)) (e : AuditEntry P)
        → linked sha start (c ++ e ∷ []) ≡ (
            linked sha start c
            && (e.previous_hash == head_hash start c && e.entry_hash == sha.digest (body e)))
    linked-append_one start [] e = ground arith
    linked-append_one start (x ∷ c) e = ground (arith, linked-append_one x.entry_hash c e)

    module _ (m : Emitter P) (event_type actor : Key) (payload : P) (timestamp : Key)
        (faults : Faults) where
      abbrev call : Result AuditError (AuditEntry P) × Emitter P
      call = emit sha m event_type actor payload timestamp faults

      abbrev new : AuditEntry P
      new = make_entry sha timestamp event_type actor payload (head_hash sha.zeros m.chain)

      -- How the chain changes: by the entry that is returned, or not at all where the call raises.
      abbrev pub Extends : Result AuditError (AuditEntry P) × Emitter P → Type 0
      Extends (ok e, m') = (e ≡ new) × (m'.chain ≡ m.chain ++ e ∷ [])
      Extends (err x, m') = m'.chain ≡ m.chain

      linked-new :
          linked sha sha.zeros m.chain ≡ true → linked sha sha.zeros (m.chain ++ new ∷ []) ≡ true
      linked-new h = ground (arith, linked-append_one sha.zeros m.chain new)

      -- Whichever writes raise, a chain that verifies still verifies; it has grown by the entry that is
      -- returned, or by none where the call raises.
      pub emit-verifies :
          verify_chain sha m ≡ true → (verify_chain sha call.1 ≡ true) × Extends call
      unfolding emit verify_chain
      emit-verifies h = elim (Option-cases m.store) [
        | inl volatile ↦ (ground (arith, linked-new), ground arith)
        | inr (s, stored) ↦ elim (Bool-cases faults.entry_write) [
          | inl first_fails ↦ (ground arith, ground arith)
          | inr first_written ↦ elim (Bool-cases faults.manifest_write) [
            | inl second_fails ↦ (ground arith, ground arith)
            | inr second_written ↦ (
              ground (
                arith,
                linked-new,
                length-append m.chain (new ∷ []),
                hash_agrees-append_one m.chain new,
              ),
              ground arith,
            )
          ]
        ]
      ]

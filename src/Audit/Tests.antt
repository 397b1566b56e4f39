-- ===== src/Audit/Tests.antt =====
-- services/crypto_audit_emitter.py: the theorems at a concrete hash and a concrete store.
use bhiv_masterdb_ingestion.Prelude.{
  ℕ, zero, suc, ◌+◌, ◌≡◌, refl, true, false, none, some, [], ◌∷◌, ◌++◌, arith, ok, get_elem?,
  length,
}
use bhiv_masterdb_ingestion.Audit.{
  AuditEntry, Sha256, Emitter, Faults, body, emit, verify_chain, reload_from_store, make_entry,
}
use bhiv_masterdb_ingestion.Audit.Chain.{Extends, emit-verifies}
use bhiv_masterdb_ingestion.Audit.Tamper.{NoCollision, verify_chain_determined}
use bhiv_masterdb_ingestion.Audit.Durable.{IsStored, Emits, call, rest, emits-reload}

-- A hash that tells apart bodies with different timestamps.
abbrev sha : Sha256 ℕ
sha = record { digest = λ b. b.timestamp + 1; zeros = 0 }

abbrev fine : Faults
fine = record { entry_write = false; manifest_write = false; cleanup = false }

abbrev stored_empty : Emitter ℕ
stored_empty = record {
  chain = [];
  is_corrupt = false;
  store = some (record { records = []; manifest = none });
}

abbrev one : Emitter ℕ
one = (emit sha stored_empty 61 62 7 100 fine).1

abbrev two : Emitter ℕ
two = (emit sha one 61 62 8 101 fine).1

abbrev one_entry : AuditEntry ℕ
one_entry = make_entry sha 100 61 62 7 0

abbrev two_entry : AuditEntry ℕ
two_entry = make_entry sha 101 61 62 8 101

two_emits : Emits sha stored_empty (one_entry ∷ two_entry ∷ []) two
unfolding emit
two_emits = call 61 62 7 100 fine refl (call 61 62 8 101 fine refl rest)

stored_empty-verifies : verify_chain sha stored_empty ≡ true
unfolding verify_chain
stored_empty-verifies = refl

one-verifies : verify_chain sha one ≡ true
unfolding verify_chain emit
one-verifies = refl

emit-verifies_example :
    (verify_chain sha two ≡ true) × Extends sha one 61 62 8 101 fine (emit sha one 61 62 8 101 fine)
emit-verifies_example = emit-verifies sha one 61 62 8 101 fine one-verifies

-- The same entry, once with a store and once without.
abbrev volatile : Emitter ℕ
volatile = record { chain = make_entry sha 100 61 62 7 0 ∷ []; is_corrupt = false; store = none }

volatile-verifies : verify_chain sha volatile ≡ true
unfolding verify_chain
volatile-verifies = refl

no_collision : NoCollision sha one.chain volatile.chain
unfolding emit
no_collision =
    (λ e f p q h. same e f p q, λ e p h. absurd (omega arith), λ f q h. absurd (omega arith))
  where
    same :
        (e f : AuditEntry ℕ)
        → (i : ℕ) × (get_elem? one.chain i ≡ some e)
        → (i : ℕ) × (get_elem? volatile.chain i ≡ some f)
        → body e ≡ body f
    same e f (zero, p) (zero, q) = ground arith
    same e f (suc i, p) q = cc
    same e f (zero, p) (suc j, q) = cc

verify_chain_determined_example : one.chain ≡ volatile.chain
unfolding emit
verify_chain_determined_example =
    verify_chain_determined sha one volatile one-verifies volatile-verifies no_collision refl

stored_empty-IsStored : IsStored stored_empty
stored_empty-IsStored = (record { records = []; manifest = none }, refl, tt, (refl, refl))

-- A store that was empty, after two entries.
emits-reload_example :
    (two.chain ≡ [] ++ one_entry ∷ two_entry ∷ [])
    × IsStored two
    × (reload_from_store two true ≡ (ok (length two.chain), record two { is_corrupt = false }))
emits-reload_example =
    emits-reload sha stored_empty two (one_entry ∷ two_entry ∷ []) true stored_empty-IsStored
      two_emits

-- With the cleanup failing too, the first entry comes back although its `emit` raised.
abbrev orphaned : Emitter ℕ
orphaned =
    (emit sha stored_empty 61 62 7 100
      (record { entry_write = false; manifest_write = true; cleanup = true })).1

orphan_returns : ((reload_from_store orphaned true).0 ≡ ok 1) × (orphaned.chain ≡ [])
unfolding emit reload_from_store
orphan_returns = (refl, refl)

-- ===== src/Audit/Tamper.antt =====
-- services/crypto_audit_emitter.py: chains that verify and end in one hash.
use bhiv_masterdb_ingestion.Prelude.{
  ℕ, zero, suc, ◌<◌, ◌≡◌, ◌≢◌, ◌∙◌, ap, sym, subst₂, refl, ◌⊎◌, inl, inr, true, some, List, [], ◌∷◌,
  ◌++◌, arith, length, length-append, get_elem?, get_elem?-append_left, get_elem?-append_one,
  get_elem?-lt,
}
use bhiv_masterdb_ingestion.Audit.{
  AuditEntry, Sha256, Emitter, body, head_hash, linked, verify_chain,
}
use bhiv_masterdb_ingestion.Audit.Chain.{head_hash-append_one, linked-append_one}

-- The last element of a list.
Ends {ℓ} : {A : Type ℓ} → List A → Type ℓ
Ends {A = A} xs = (xs ≡ []) ⊎ ((ys : List A) × (y : A) × (xs ≡ ys ++ y ∷ []))

ends {ℓ} : {A : Type ℓ} (xs : List A) → Ends xs
unfolding Ends
ends [] = inl refl
ends (x ∷ xs) = elim (ends xs) [
  | inl nothing ↦ inr ([], x, ap (λ zs. x ∷ zs) nothing)
  | inr (ys, y, e) ↦ inr (x ∷ ys, y, ap (λ zs. x ∷ zs) e)
]

module _ {P : Type 0} (sha : Sha256 P) where
  -- `e` is an entry of the chain.
  abbrev pub Holds : List (AuditEntry P) → AuditEntry P → Type 0
  Holds c e = (i : ℕ) × (get_elem? c i ≡ some e)

  -- No two bodies of the two chains collide, and none is hashed to "0" * 64.
  abbrev pub NoCollision : List (AuditEntry P) → List (AuditEntry P) → Type 0
  NoCollision a b =
      ((e f : AuditEntry P)
        → Holds a e
        → Holds b f
        → sha.digest (body e) ≡ sha.digest (body f)
        → body e ≡ body f)
      × ((e : AuditEntry P) → Holds a e → sha.digest (body e) ≢ sha.zeros)
      × ((f : AuditEntry P) → Holds b f → sha.digest (body f) ≢ sha.zeros)

  Holds-append : (c : List (AuditEntry P)) (x e : AuditEntry P) → Holds c e → Holds (c ++ x ∷ []) e
  Holds-append c x e (i, h) = (i, get_elem?-append_left c (x ∷ []) i (get_elem?-lt c i e h) ∙ h)

  Holds-end : (c : List (AuditEntry P)) (x : AuditEntry P) → Holds (c ++ x ∷ []) x
  Holds-end c x = (length c, get_elem?-append_one c x)

  NoCollision-init :
      (a b : List (AuditEntry P)) (x y : AuditEntry P)
      → NoCollision (a ++ x ∷ []) (b ++ y ∷ [])
      → NoCollision a b
  NoCollision-init a b x y (free, left, right) = (
    λ e f p q. free e f (Holds-append a x e p) (Holds-append b y f q),
    λ e p. left e (Holds-append a x e p),
    λ f q. right f (Holds-append b y f q),
  )

  -- What verifying says of the last entry.
  last_entry :
      (c : List (AuditEntry P)) (e : AuditEntry P)
      → linked sha sha.zeros (c ++ e ∷ []) ≡ true
      → (linked sha sha.zeros c ≡ true)
        × (e.previous_hash ≡ head_hash sha.zeros c)
        × (e.entry_hash ≡ sha.digest (body e))
  last_entry c e h = ground (arith, linked-append_one sha sha.zeros c e)

  head_of :
      (c ys : List (AuditEntry P)) (y : AuditEntry P)
      → c ≡ ys ++ y ∷ []
      → head_hash sha.zeros c ≡ y.entry_hash
  head_of c ys y e = rw e (head_hash-append_one sha.zeros ys y)

  entries_equal : (x y : AuditEntry P) → body x ≡ body y → x.entry_hash ≡ y.entry_hash → x ≡ y
  entries_equal x y b h = ground arith

  -- No entry of a chain that verifies is hashed to the hash of the empty chain.
  never_zeros :
      (c : List (AuditEntry P)) (e : AuditEntry P)
      → linked sha sha.zeros (c ++ e ∷ []) ≡ true
      → sha.digest (body e) ≢ sha.zeros
      → head_hash sha.zeros (c ++ e ∷ []) ≢ sha.zeros
  never_zeros c e h free same =
      free (ground (arith, last_entry c e h, head_hash-append_one sha.zeros c e))

  same_last :
      (xs ys : List (AuditEntry P)) (x y : AuditEntry P)
      → linked sha sha.zeros (xs ++ x ∷ []) ≡ true
      → linked sha sha.zeros (ys ++ y ∷ []) ≡ true
      → NoCollision (xs ++ x ∷ []) (ys ++ y ∷ [])
      → head_hash sha.zeros (xs ++ x ∷ []) ≡ head_hash sha.zeros (ys ++ y ∷ [])
      → (x ≡ y) × (head_hash sha.zeros xs ≡ head_hash sha.zeros ys)
  same_last xs ys x y lx ly nc same =
      let (_, px, dx) = last_entry xs x lx in
      let (_, py, dy) = last_entry ys y ly in
      let hx = head_hash-append_one sha.zeros xs x in
      let hy = head_hash-append_one sha.zeros ys y in
      let hashes : x.entry_hash ≡ y.entry_hash = sym hx ∙ same ∙ hy in
      let bodies = nc.0 x y (Holds-end xs x) (Holds-end ys y) (sym dx ∙ hashes ∙ dy) in
      let entries = entries_equal x y bodies hashes in
      (entries, sym px ∙ ap (λ (e : AuditEntry P). e.previous_hash) entries ∙ py)

  linked_determined :
      (n : ℕ) (a b : List (AuditEntry P))
      → length a < n
      → linked sha sha.zeros a ≡ true
      → linked sha sha.zeros b ≡ true
      → NoCollision a b
      → head_hash sha.zeros a ≡ head_hash sha.zeros b
      → a ≡ b
  unfolding Ends
  linked_determined zero a b short la lb nc same = elim short [ ]
  linked_determined (suc n) a b short la lb nc same = elim (ends a) [
    | inl no_a ↦ elim (ends b) [
      | inl no_b ↦ no_a ∙ sym no_b
      | inr (ys, y, eb) ↦ absurd (
          never_zeros ys y (rw eb at lb) (nc.2 y (rw eb (Holds-end ys y)))
            (rw eb at (sym same ∙ ap (head_hash sha.zeros) no_a)))
    ]
    | inr (xs, x, ea) ↦ elim (ends b) [
      | inl no_b ↦ absurd (
          never_zeros xs x (rw ea at la) (nc.1 x (rw ea (Holds-end xs x)))
            (rw ea at (same ∙ ap (head_hash sha.zeros) no_b)))
      | inr (ys, y, eb) ↦
          let la' : linked sha sha.zeros (xs ++ x ∷ []) ≡ true = rw ea at la in
          let lb' : linked sha sha.zeros (ys ++ y ∷ []) ≡ true = rw eb at lb in
          let nc' = subst₂ (λ c d. NoCollision c d) ea eb nc in
          let same' = subst₂ (λ c d. head_hash sha.zeros c ≡ head_hash sha.zeros d) ea eb same in
          let (last, before) = same_last xs ys x y la' lb' nc' same' in
          let shorter : length xs < n = omega (arith, ap length ea, length-append xs (x ∷ [])) in
          let rest =
            linked_determined n xs ys shorter (last_entry xs x la').0 (last_entry ys y lb').0
              (NoCollision-init xs ys x y nc') before in
          ea ∙ cc (rest, last) ∙ sym eb
    ]
  ]

  linked_verified :
      (m : Emitter P) → verify_chain sha m ≡ true → linked sha sha.zeros m.chain ≡ true
  unfolding verify_chain
  linked_verified m h = ground arith

  -- Two chains that verify and end in the same hash are the same chain, if no two of their bodies
  -- collide under the hash and none is hashed to "0" * 64.
  pub verify_chain_determined :
      (m m' : Emitter P)
      → verify_chain sha m ≡ true
      → verify_chain sha m' ≡ true
      → NoCollision m.chain m'.chain
      → head_hash sha.zeros m.chain ≡ head_hash sha.zeros m'.chain
      → m.chain ≡ m'.chain
  verify_chain_determined m m' v v' nc same =
      linked_determined (suc (length m.chain)) m.chain m'.chain (omega arith) (linked_verified m v)
        (linked_verified m' v') nc same

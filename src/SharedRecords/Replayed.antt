-- ===== src/SharedRecords/Replayed.antt =====
-- services/shared_record_store.py: the replay of what the three mutations write.
use bhiv_masterdb_ingestion.Prelude.{
  ℕ, ◌+◌, ◌≡◌, ◌∙◌, ap, refl, subst, inl, inr, Bool, true, false, ◌||◌, some, List, [], ◌∷◌, ◌++◌,
  arith, Key, Result, ok, err, length, length-append, is_some, if◌then◌else◌, ◌==◌, ==→eq,
  Bool-cases, Option-cases,
}
use bhiv_masterdb_ingestion.Prelude.Dict.{Dict, get, get-put}
use bhiv_masterdb_ingestion.SharedRecords.{
  SharedRecordTransition, SharedRecord, SharedStore, SharedRecordError, Fresh, compared, walk,
  is_deprecation, validated, save, missing, register, update, deprecate, replay, new_record,
  updated, withdrawn, new_transition, updated_action, deprecated_action, is_deprecated, not_found,
  already_exists, missing_fields,
}

-- One mutation of the store.
pub data Call (V : Type 0) : Type 0 where
  registers updates : Key → Dict V → Key → Key → Fresh → Call V
  deprecates : Key → Key → Key → Fresh → Call V

walk-append_one :
    (i v : ℕ) (d : Bool) (ts : List SharedRecordTransition) (v' : ℕ) (d' : Bool)
    (t : SharedRecordTransition)
    → walk i v d ts ≡ ok (v', d')
    → t.version ≡ i + length ts + 1
    → walk i v d (ts ++ t ∷ []) ≡ ok (t.version, (d' || is_deprecation t.action))
walk-append_one i v d [] v' d' t h next = ground arith
walk-append_one i v d (u ∷ ts) v' d' t h next =
    let rest = walk-append_one (i + 1) u.version (d || is_deprecation u.action) ts v' d' t in
    ground arith

module _ {V : Type 0} where
  -- The history, walked from scratch, gives the stored version and flag, and counts the versions.
  pub record IsReplayable (id : Key) (r : SharedRecord V) : Type 0 where
    pub named : r.record_id ≡ id
    pub counted : r.version ≡ length r.history
    pub walked : walk 0 0 false r.history ≡ ok (r.version, r.deprecated)

  abbrev pub AllReplayable : SharedStore V → Type 0
  AllReplayable s = (id : Key) (r : SharedRecord V) → get id s.records ≡ some r → IsReplayable id r

  save-AllReplayable :
      (s : SharedStore V) (r : SharedRecord V)
      → AllReplayable s
      → IsReplayable r.record_id r
      → AllReplayable (save s r).1
  save-AllReplayable s r h new id q found = elim (Bool-cases (r.record_id == id)) [
    | inl self ↦
        let is_new : r ≡ q = ground (arith, get-put r.record_id id r s.records) in
        subst (λ x. IsReplayable id x) is_new
          (subst (λ k. IsReplayable k r) (==→eq r.record_id id self) new)
    | inr other ↦ h id q (ground (arith, get-put r.record_id id r s.records))
  ]

  validated-AllReplayable :
      (s : SharedStore V) (payload : Dict V) (r : SharedRecord V)
      → AllReplayable s
      → IsReplayable r.record_id r
      → AllReplayable (validated s payload r).1
  validated-AllReplayable s payload r h new = by_missing (missing s.required_fields payload) refl
    where
      by_missing :
          (fs : List Key)
          → missing s.required_fields payload ≡ fs
          → AllReplayable (validated s payload r).1
      by_missing [] e =
          let shape : validated s payload r ≡ save s r = ground arith in
          rw shape (save-AllReplayable s r h new)
      by_missing (f ∷ fs) e =
          let shape : validated s payload r ≡ (err (missing_fields (f ∷ fs)), s) = ground arith in
          rw shape h

  abbrev pub apply :
      SharedStore V → Call V → Result SharedRecordError (SharedRecord V) × SharedStore V
  apply s (registers id payload actor reason fresh) = register s id payload actor reason fresh
  apply s (updates id payload actor reason fresh) = update s id payload actor reason fresh
  apply s (deprecates id actor reason fresh) = deprecate s id actor reason fresh

  updated-IsReplayable :
      (id : Key) (r : SharedRecord V) (payload : Dict V) (actor reason : Key) (fresh : Fresh)
      → IsReplayable id r
      → r.deprecated ≡ false
      → IsReplayable r.record_id (updated r payload actor reason fresh)
  updated-IsReplayable id r payload actor reason fresh h live =
      let t = new_transition (r.version + 1) updated_action actor reason fresh in
      let more = length-append r.history (t ∷ []) in
      let walked =
        walk-append_one 0 0 false r.history r.version r.deprecated t h.walked
          (omega (arith, h.counted)) in
      record {
        named = refl;
        counted = omega (arith, more, h.counted);
        walked = walked ∙ ap (λ b. ok (r.version + 1, b)) (ground arith);
      }

  withdrawn-IsReplayable :
      (id : Key) (r : SharedRecord V) (actor reason : Key) (fresh : Fresh)
      → IsReplayable id r
      → r.deprecated ≡ false
      → IsReplayable r.record_id (withdrawn r actor reason fresh)
  withdrawn-IsReplayable id r actor reason fresh h live =
      let t = new_transition (r.version + 1) deprecated_action actor reason fresh in
      let more = length-append r.history (t ∷ []) in
      let walked =
        walk-append_one 0 0 false r.history r.version r.deprecated t h.walked
          (omega (arith, h.counted)) in
      record {
        named = refl;
        counted = omega (arith, more, h.counted);
        walked = walked ∙ ap (λ b. ok (r.version + 1, b)) (ground arith);
      }

  new_record-IsReplayable :
      (dataset id : Key) (payload : Dict V) (actor reason : Key) (fresh : Fresh)
      → IsReplayable id (new_record dataset id payload actor reason fresh)
  new_record-IsReplayable dataset id payload actor reason fresh = record {
    named = refl;
    counted = refl;
    walked = refl;
  }

  -- Whatever mutation is called, and whether it is carried out or raises, the history of every record
  -- goes on to account for its version and its flag.
  pub apply-AllReplayable :
      (s : SharedStore V) (call : Call V) → AllReplayable s → AllReplayable (apply s call).1
  unfolding register update deprecate
  apply-AllReplayable s (registers id payload actor reason fresh) h =
      elim (Bool-cases (is_some (get id s.records))) [
        | inl taken ↦ rw (taken, if◌then◌else◌) h
        | inr free ↦
            rw (free, if◌then◌else◌)
              (validated-AllReplayable s payload
                (new_record s.dataset id payload actor reason fresh) h
                (new_record-IsReplayable s.dataset id payload actor reason fresh))
      ]
  apply-AllReplayable s (updates id payload actor reason fresh) h =
      elim (Option-cases (get id s.records)) [
        | inl absent ↦
            let shape : update s id payload actor reason fresh ≡ (err (not_found id), s) =
              ground arith in
            rw shape h
        | inr (r, found) ↦ elim (Bool-cases r.deprecated) [
          | inl over ↦
              let shape : update s id payload actor reason fresh ≡ (err (is_deprecated id), s) =
                ground arith in
              rw shape h
          | inr live ↦
              let shape : update s id payload actor reason fresh
                  ≡ validated s payload (updated r payload actor reason fresh) =
                ground arith in
              rw shape (
                validated-AllReplayable s payload (updated r payload actor reason fresh) h
                  (updated-IsReplayable id r payload actor reason fresh (h id r found) live))
        ]
      ]
  apply-AllReplayable s (deprecates id actor reason fresh) h =
      elim (Option-cases (get id s.records)) [
        | inl absent ↦
            let shape : deprecate s id actor reason fresh ≡ (err (not_found id), s) =
              ground arith in
            rw shape h
        | inr (r, found) ↦ elim (Bool-cases r.deprecated) [
          | inl over ↦
              let shape : deprecate s id actor reason fresh ≡ (err (is_deprecated id), s) =
                ground arith in
              rw shape h
          | inr live ↦
              let shape : deprecate s id actor reason fresh
                  ≡ save s (withdrawn r actor reason fresh) =
                ground arith in
              rw shape (
                save-AllReplayable s (withdrawn r actor reason fresh) h
                  (withdrawn-IsReplayable id r actor reason fresh (h id r found) live))
        ]
      ]

  -- In a store whose records account for themselves, `replay` reports every record as consistent.
  pub replay-AllReplayable :
      (s : SharedStore V) (id : Key) (r : SharedRecord V)
      → AllReplayable s
      → get id s.records ≡ some r
      → replay s id ≡ ok (compared true r.version r.deprecated r.version r.deprecated)
  unfolding replay
  replay-AllReplayable s id r h found = let walked = (h id r found).walked in ground arith

  abbrev pub target : Call V → Key
  target (registers id _ _ _ _) = id
  target (updates id _ _ _ _) = id
  target (deprecates id _ _ _) = id

  -- A deprecated record is final: every later mutation of it raises and changes nothing.
  pub deprecated_is_final :
      (s : SharedStore V) (call : Call V) (r : SharedRecord V)
      → get (target call) s.records ≡ some r
      → r.deprecated ≡ true
      → (e : SharedRecordError) × (apply s call ≡ (err e, s))
  unfolding register update deprecate
  deprecated_is_final s (registers id payload actor reason fresh) r found over =
      (already_exists id, ground arith)
  deprecated_is_final s (updates id payload actor reason fresh) r found over =
      (is_deprecated id, ground arith)
  deprecated_is_final s (deprecates id actor reason fresh) r found over =
      (is_deprecated id, ground arith)

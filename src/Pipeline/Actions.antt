-- ===== src/Pipeline/Actions.antt =====
-- services/event_pipeline.py: the actions of the pipeline and their composition, against the invariants of its components.
use bhiv_masterdb_ingestion.Prelude.{
  ◌⊎◌, inl, inr, ◌≡◌, ◌≢◌, refl, Bool, true, false, arith, Key, Result, ok, err, if◌then◌else◌,
  Option-cases, Bool-cases, ◌==◌, subst,
}
use bhiv_masterdb_ingestion.Prelude.Dict.{get, get-put}
use bhiv_masterdb_ingestion.Lifecycle.{PackageStatus}
use bhiv_masterdb_ingestion.Machine.{
  not_allowed, rule_check_failed, Machine, TransitionError, bad_metadata, get_or_create_state,
  new_state, PravahEntityType,
}
use bhiv_masterdb_ingestion.Machine.Entities.{AllConsistent, new_state-IsConsistent}
use bhiv_masterdb_ingestion.Machine.Consistent.{IsConsistent}
use bhiv_masterdb_ingestion.Ledger.{Ledger, LedgerError}
use bhiv_masterdb_ingestion.Ledger.Index.{IsIndexed}
use bhiv_masterdb_ingestion.Audit.{Sha256, verify_chain}
use bhiv_masterdb_ingestion.Pipeline.{
  ledger_error, audit_error, no_lifecycle_path, Pipeline, PipelineError, transition_error,
  AuditPayload, M, pure, raise, on_ledger, on_machine, ◌>>=◌,
}

bad_metadata-cases :
    {A : Type 0} (r : Result PipelineError A)
    → (r ≡ err (transition_error bad_metadata)) ⊎ (r ≢ err (transition_error bad_metadata))
bad_metadata-cases (ok a) = inr (λ e. cc)
bad_metadata-cases (err (transition_error bad_metadata)) = inl refl
bad_metadata-cases (err (transition_error (not_allowed a b c d))) = inr (λ e. cc)
bad_metadata-cases (err (transition_error (rule_check_failed a b c d))) = inr (λ e. cc)
bad_metadata-cases (err (ledger_error e)) = inr (λ e. cc)
bad_metadata-cases (err (audit_error e)) = inr (λ e. cc)
bad_metadata-cases (err (no_lifecycle_path s t)) = inr (λ e. cc)

module _ (sha : Sha256 AuditPayload) {V : Type 0} where
  -- The ledger is indexed, every entity's account holds, and the audit chain verifies.
  pub record IsSound (p : Pipeline V) : Type 0 where
    pub indexed : IsIndexed p.ledger
    pub consistent : AllConsistent p.machine
    pub verifies : verify_chain sha p.audit ≡ true

  -- What holds when a call ends: the same, but for the entities if `dict.update` raised.
  pub record Ends {A : Type 0} (r : Result PipelineError A) (p : Pipeline V) : Type 0 where
    pub indexed : IsIndexed p.ledger
    pub consistent : r ≢ err (transition_error bad_metadata) → AllConsistent p.machine
    pub verifies : verify_chain sha p.audit ≡ true

  pub record Keeps {A : Type 0} (m : M V A) : Type 0 where
    pub at : (p : Pipeline V) → IsSound p → Ends (m p).0 (m p).1

  pub Keeps-pure : {A : Type 0} (a : A) → Keeps (pure a)
  Keeps-pure a = record {
    at = λ p h. record {
      indexed = h.indexed;
      consistent = λ _. h.consistent;
      verifies = h.verifies;
    };
  }

  pub Keeps-raise : {A : Type 0} (e : PipelineError) → Keeps (raise {A = A} e)
  Keeps-raise e = record {
    at = λ p h. record {
      indexed = h.indexed;
      consistent = λ _. h.consistent;
      verifies = h.verifies;
    };
  }

  Ends-continue :
      {A B : Type 0} (f : A → M V B) (r : Result PipelineError A) (p : Pipeline V)
      → ((a : A) → Keeps (f a))
      → Ends r p
      → let (r', p') = elim r as (λ _. Result PipelineError B × Pipeline V) [
        | ok a ↦ f a p
        | err e ↦ (err e, p)
      ] in
        Ends r' p'
  Ends-continue f (ok a) p keeps h =
      (keeps a).at p
        (record { indexed = h.indexed; consistent = h.consistent (λ e. cc); verifies = h.verifies })
  Ends-continue f (err e) p keeps h = record {
    indexed = h.indexed;
    consistent = λ ne. h.consistent (λ q. ne (cc));
    verifies = h.verifies;
  }

  pub Ends-cases :
      {A : Type 0} (r : Result PipelineError A) (p : Pipeline V)
      → Ends r p
      → IsIndexed p.ledger
        × (verify_chain sha p.audit ≡ true)
        × ((r ≡ err (transition_error bad_metadata)) ⊎ AllConsistent p.machine)
  Ends-cases r p h = elim (bad_metadata-cases r) [
    | inl bad ↦ (h.indexed, h.verifies, inl bad)
    | inr fits ↦ (h.indexed, h.verifies, inr (h.consistent fits))
  ]

  pub Keeps-bind :
      {A B : Type 0} (m : M V A) (f : A → M V B)
      → Keeps m
      → ((a : A) → Keeps (f a))
      → Keeps (m >>= f)
  Keeps-bind m f km kf = record { at = λ p h. Ends-continue f (m p).0 (m p).1 kf (km.at p h) }

  pub Keeps-on_ledger :
      {A : Type 0} (f : Ledger V TransitionError → Result LedgerError A × Ledger V TransitionError)
      → ((l : Ledger V TransitionError) → IsIndexed l → IsIndexed (f l).1)
      → Keeps (on_ledger f)
  Keeps-on_ledger f keeps = record {
    at = λ p h. record {
      indexed = keeps p.ledger h.indexed;
      consistent = λ _. h.consistent;
      verifies = h.verifies;
    };
  }

  pub Keeps-if :
      {A : Type 0} (b : Bool) (m n : M V A) → Keeps m → Keeps n → Keeps (if b then m else n)
  Keeps-if true m n km kn = km
  Keeps-if false m n km kn = kn

  pub Keeps-create :
      (id : Key) (type : PravahEntityType) (initial : PackageStatus)
      → Keeps (on_machine (λ m. get_or_create_state m id type initial))
  Keeps-create id type initial = record {
    at = λ p h. record {
      indexed = h.indexed;
      consistent = λ _. created p.machine h.consistent;
      verifies = h.verifies;
    };
  }
    where
      created :
          (m : Machine V)
          → AllConsistent m
          → AllConsistent (get_or_create_state m id type initial).1
      created m h j s found = elim (Option-cases (get id m)) [
        | inr (s', there) ↦ h j s (ground arith)
        | inl missing ↦ elim (Bool-cases (id == j)) [
          | inr other ↦ h j s (ground (arith, get-put id j (new_state id type initial) m))
          | inl self ↦
              let is_new : new_state id type initial ≡ s =
                ground (arith, get-put id j (new_state id type initial) m) in
              (
                initial,
                subst (IsConsistent initial) is_new (new_state-IsConsistent id type initial),
              )
        ]
      ]

-- ===== src/Targets/Recorded.antt =====
-- database_targets/service.py: what `ingest` puts on record, and repeated requests.
use bhiv_masterdb_ingestion.Prelude.{
  ◌≡◌, refl, ◌∙◌, sym, ap, subst, ◌⊎◌, inl, inr, true, false, not, Option, none, some, List, [],
  ◌∷◌, Key, ok, err, arith, ◌==◌, Bool-cases, Option-cases, ==_refl, ==→eq, ◌≢◌, if_rule,
}
use bhiv_masterdb_ingestion.Prelude.Dict.{get, put, get-put_self}
use bhiv_masterdb_ingestion.Targets.Models.{
  TargetDatabase, same_database, CertificationReport, IngestJob, IngestJobStep, IdempotencyRecord,
}
use bhiv_masterdb_ingestion.Targets.{
  remember, IngestAnswer, idempotency_record, finalize, route, write_records, pass_gate,
  execute_ingest, is_same_request, ingest, persist_target, rbac_step, format_step, gate_step,
  replay, with_known,
}
use bhiv_masterdb_ingestion.Targets.Linked.{advance_linked_upload}
use bhiv_masterdb_ingestion.Targets.Inputs.{
  Outside, Router, IngestRequest, IngestError, records_unresolved, idempotency_conflict,
  resolved_key, is_authorized, is_accepted, is_eligible, load_report, resolve_dataset_records,
}

module _ (out : Outside) (r : IngestRequest) where
  -- The key, if there is one, is bound to the job.
  abbrev pub IsKnown : Option Key → IngestJob → Router → Type 0
  IsKnown none job s = Unit
  IsKnown (some k) job s = get k s.idempotency ≡ some (idempotency_record out r job)

  -- The job answers the request, and is found again by its id and by the key of the request.
  pub record IsRecorded (job : IngestJob) (s : Router) : Type 0 where
    pub dataset : job.dataset_id ≡ r.dataset_id
    pub target : job.target_database ≡ r.target_database
    pub found : get job.job_id s.jobs ≡ some job
    pub known : IsKnown (resolved_key out r) job s

  -- The caller and the format pass, but nothing can be read for the dataset.
  pub record IsUnresolved (e : IngestError) (s : Router) : Type 0 where
    pub error : e ≡ records_unresolved
    pub authorized : is_authorized r ≡ true
    pub accepted : is_accepted r ≡ true
    pub unread : resolve_dataset_records out s r ≡ none

  -- The execution records the job that it answers, or finds no records to read.
  abbrev pub Answers : IngestAnswer → Type 0
  Answers (ok job, s) = IsRecorded job s
  Answers (err e, s) = IsUnresolved e s

  remember-IsKnown :
      (job : IngestJob) (s : Router) → IsKnown job.idempotency_key job (remember out r job s)
  remember-IsKnown job s = by_key job.idempotency_key refl
    where
      by_key :
          (key : Option Key) → job.idempotency_key ≡ key → IsKnown key job (remember out r job s)
      by_key none e = tt
      by_key (some k) e =
          let stored = get-put_self k (idempotency_record out r job) s.idempotency in ground arith

  finalize-Answers :
      (job : IngestJob) (s : Router)
      → job.dataset_id ≡ r.dataset_id
      → job.target_database ≡ r.target_database
      → job.idempotency_key ≡ resolved_key out r
      → Answers (finalize out r job s)
  unfolding finalize
  finalize-Answers job s d t key =
      let written = record s { jobs = put job.job_id job s.jobs } in
      let stored = get-put_self job.job_id job s.jobs in
      record {
        dataset = d;
        target = t;
        found = elim (Option-cases job.idempotency_key) [
          | inl absent ↦ ground arith
          | inr (j, present) ↦ ground arith
        ];
        known =
            subst (λ k. IsKnown k job (remember out r job written)) key
              (remember-IsKnown job written);
      }

  route-Answers :
      (s₀ : Router) (steps : List IngestJobStep) (report : Option CertificationReport)
      (records : List Key) (s : Router)
      → Answers (route out r s₀ steps report records s)
  unfolding route
  route-Answers s₀ steps report records s =
      if_rule Answers (advance_linked_upload out r (persist_target out r records s)).0 _ _
        (λ _. finalize-Answers _ _ refl refl refl) (λ _. finalize-Answers _ _ refl refl refl)

  write_records-Answers :
      (s₀ : Router) (steps : List IngestJobStep) (report : Option CertificationReport) (s : Router)
      (records : Option (List Key))
      → is_authorized r ≡ true
      → is_accepted r ≡ true
      → resolve_dataset_records out s r ≡ records
      → Answers (write_records out r s₀ steps report s records)
  unfolding write_records
  write_records-Answers s₀ steps report s none may fits unread = record {
    error = refl;
    authorized = may;
    accepted = fits;
    unread = unread;
  }
  write_records-Answers s₀ steps report s (some records) may fits read =
      if_rule Answers r.target_raises _ _ (λ _. finalize-Answers _ _ refl refl refl)
        (λ _. route-Answers s₀ steps report records s)

  pass_gate-Answers :
      (s₀ : Router) (loaded : Option CertificationReport × Router)
      → is_authorized r ≡ true
      → is_accepted r ≡ true
      → Answers (pass_gate out r s₀ loaded)
  unfolding pass_gate
  pass_gate-Answers s₀ (report, s) may fits =
      if_rule Answers (is_eligible report) _ _
        (λ _.
          write_records-Answers s₀ (rbac_step r ∷ format_step r ∷ gate_step r report ∷ []) report s
            (resolve_dataset_records out s r) may fits refl)
        (λ _. finalize-Answers _ _ refl refl refl)

  execute_ingest-Answers : (s : Router) → Answers (execute_ingest out r s)
  unfolding execute_ingest
  execute_ingest-Answers s =
      if_rule Answers (not (is_authorized r)) _ _ (λ _. finalize-Answers _ _ refl refl refl)
        (λ may.
          if_rule Answers (not (is_accepted r)) _ _ (λ _. finalize-Answers _ _ refl refl refl)
            (λ fits. pass_gate-Answers s (load_report out s r) (ground arith) (ground arith)))

same_database_refl : (t : TargetDatabase) → same_database t t ≡ true
same_database_refl t = ground arith

same_database→eq : (t u : TargetDatabase) → same_database t u ≡ true → t ≡ u
same_database→eq t u h = ground arith

module _ (out : Outside) (r : IngestRequest) (s : Router) where
  -- The request has a key, which is bound to the dataset and the target of `known`.
  pub record IsBound (known : IdempotencyRecord) : Type 0 where
    pub key : Key
    pub has_key : resolved_key out r ≡ some key
    pub bound : get key s.idempotency ≡ some known

  -- The key of the request is bound to another dataset or another target.
  pub record IsConflict : Type 0 where
    pub known : IdempotencyRecord
    pub bound : IsBound known
    pub differs : (known.dataset_id ≢ r.dataset_id) ⊎ (known.target_database ≢ r.target_database)

  -- The key is bound to the same dataset and target, by the given job, which is on file.
  pub record IsRepeat (job : IngestJob) : Type 0 where
    pub known : IdempotencyRecord
    pub bound : IsBound known
    pub dataset : known.dataset_id ≡ r.dataset_id
    pub target : known.target_database ≡ r.target_database
    pub on_file : get known.job_id s.jobs ≡ some job

  -- No job answers the request yet: it has no key, or its key is not bound, or the job that the key is
  -- bound to is not on file.
  abbrev pub IsNew : Type 0
  IsNew =
      (resolved_key out r ≡ none)
      ⊎ ((k : Key) × (resolved_key out r ≡ some k) × (get k s.idempotency ≡ none))
      ⊎ ((known : IdempotencyRecord) × IsBound known
          × (known.dataset_id ≡ r.dataset_id)
          × (known.target_database ≡ r.target_database)
          × (get known.job_id s.jobs ≡ none))

  abbrev pub Ends : Type 0
  Ends =
      (IsConflict × (ingest out r s ≡ (err idempotency_conflict, s)))
      ⊎ ((job : IngestJob) × IsRepeat job × (ingest out r s ≡ (ok job, s)))
      ⊎ (IsNew × Answers out r (ingest out r s))

  executes : IsNew → ingest out r s ≡ execute_ingest out r s → Ends
  executes new shape =
      inr (inr (new, subst (Answers out r) (sym shape) (execute_ingest-Answers out r s)))

  bound-ends : (known : IdempotencyRecord) → IsBound known → Ends
  unfolding ingest with_known replay
  bound-ends known at =
      let has_key = at.has_key in
      let bound = at.bound in
      elim (Bool-cases (known.dataset_id == r.dataset_id)) [
        | inr other ↦ inl (
          record {
            known = known;
            bound = at;
            differs = inl (λ e.
                let same = ap (λ d. d == r.dataset_id) e ∙ ==_refl r.dataset_id in ground arith);
          },
          ground arith,
        )
        | inl dataset ↦ elim (Bool-cases (same_database known.target_database r.target_database)) [
          | inr other ↦ inl (
            record {
              known = known;
              bound = at;
              differs = inr (λ e.
                  let same =
                    ap (λ t. same_database t r.target_database) e
                    ∙ same_database_refl r.target_database in
                  ground arith);
            },
            ground arith,
          )
          | inl target ↦
              let d = ==→eq known.dataset_id r.dataset_id dataset in
              let t = same_database→eq known.target_database r.target_database target in
              elim (Option-cases (get known.job_id s.jobs)) [
                | inl lost ↦ executes (inr (inr (known, at, d, t, lost))) (ground arith)
                | inr (job, found) ↦ inr (
                    inl (
                      job,
                      record {
                        known = known;
                        bound = at;
                        dataset = d;
                        target = t;
                        on_file = found;
                      },
                      ground arith,
                    ))
              ]
        ]
      ]

-- A call ends in one of three ways. The key of the request is bound to another dataset or target: that
-- is an error, and the state stays. The key is bound to this dataset and target, and its job is on file:
-- this job is answered, and the state stays. There is no such job: the ingestion is executed, and then
-- either the job that it answers carries the dataset and the target of the request and is on file under
-- its id and under the key, or the caller and the format pass and no records could be read.
pub ingest_ends : (out : Outside) (r : IngestRequest) (s : Router) → Ends out r s
unfolding ingest with_known
ingest_ends out r s = elim (Option-cases (resolved_key out r)) [
  | inl absent ↦ executes out r s (inl absent) (ground arith)
  | inr (k, present) ↦ elim (Option-cases (get k s.idempotency)) [
    | inl new ↦ executes out r s (inr (inl (k, present, new))) (ground arith)
    | inr (known, bound) ↦
        bound-ends out r s known (record { key = k; has_key = present; bound = bound })
  ]
]

-- A repeat of a request under its idempotency key, whatever else it carries, is answered with the job
-- of the first call, and changes nothing, if the key was new at the first call and that call answered a
-- job.
pub ingest_again :
    (out : Outside) (r again : IngestRequest) (s after : Router) (k : Key) (job : IngestJob)
    → resolved_key out r ≡ some k
    → resolved_key out again ≡ some k
    → again.dataset_id ≡ r.dataset_id
    → again.target_database ≡ r.target_database
    → get k s.idempotency ≡ none
    → ingest out r s ≡ (ok job, after)
    → ingest out again after ≡ (ok job, after)
unfolding ingest with_known replay
ingest_again out r again s after k job key key' same_dataset same_target new first =
    let shape : ingest out r s ≡ execute_ingest out r s = ground arith in
    let recorded : IsRecorded out r job after =
      subst (Answers out r) (sym shape ∙ first) (execute_ingest-Answers out r s) in
    let bound = subst (λ o. IsKnown out r o job after) key recorded.known in
    let at_dataset : (job.dataset_id == again.dataset_id) ≡ true =
      ap (λ d. job.dataset_id == d) (same_dataset ∙ sym recorded.dataset)
      ∙ ==_refl job.dataset_id in
    let at_target : same_database job.target_database again.target_database ≡ true =
      ap (same_database job.target_database) (same_target ∙ sym recorded.target)
      ∙ same_database_refl job.target_database in
    let same : is_same_request out again (idempotency_record out r job) ≡ true = ground arith in
    let found = recorded.found in
    let known_shape : ingest out again after
        ≡ with_known out again after (some (idempotency_record out r job)) =
      ground arith in
    known_shape ∙ ground arith

-- A key that a call bound is refused for another dataset, and the refusal changes nothing.
pub ingest_conflict :
    (out : Outside) (r other : IngestRequest) (s after : Router) (k : Key) (job : IngestJob)
    → resolved_key out r ≡ some k
    → resolved_key out other ≡ some k
    → other.dataset_id ≢ r.dataset_id
    → get k s.idempotency ≡ none
    → ingest out r s ≡ (ok job, after)
    → ingest out other after ≡ (err idempotency_conflict, after)
unfolding ingest with_known
ingest_conflict out r other s after k job key key' apart new first =
    let shape : ingest out r s ≡ execute_ingest out r s = ground arith in
    let recorded : IsRecorded out r job after =
      subst (Answers out r) (sym shape ∙ first) (execute_ingest-Answers out r s) in
    let bound = subst (λ o. IsKnown out r o job after) key recorded.known in
    let own = recorded.dataset in
    let differs : is_same_request out other (idempotency_record out r job) ≡ false =
      elim (Bool-cases (job.dataset_id == other.dataset_id)) [
        | inl equal ↦ absurd (apart (sym (==→eq job.dataset_id other.dataset_id equal) ∙ own))
        | inr unequal ↦ ground arith
      ] in
    let known_shape : ingest out other after
        ≡ with_known out other after (some (idempotency_record out r job)) =
      ground arith in
    known_shape ∙ ground arith

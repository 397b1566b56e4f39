-- ===== src/Targets/Gate.antt =====
-- database_targets/service.py: what stands behind a job that is marked as persisted.
use bhiv_masterdb_ingestion.Prelude.{
  ◌≡◌, refl, ◌∙◌, sym, ap, subst, ◌⊎◌, inl, inr, true, not, Option, none, some, List, [], ◌∷◌, Key,
  length, ok, err, arith, Bool-cases, Option-cases, if_rule,
}
use bhiv_masterdb_ingestion.Prelude.Dict.{get, put, get-put_self}
use bhiv_masterdb_ingestion.Prelude.Text.{Text, codes, elem_text}
use bhiv_masterdb_ingestion.Bcaes.Service.{admin_role}
use bhiv_masterdb_ingestion.Targets.Models.{
  database_registry, persisted, certified, CertificationReport, IngestJob, IngestJobStep,
}
use bhiv_masterdb_ingestion.Targets.{
  IngestAnswer, finalize, route, write_records, pass_gate, execute_ingest, persist_target,
  target_dataset, rbac_step, format_step, gate_step,
}
use bhiv_masterdb_ingestion.Targets.Linked.{advance_linked_upload}
use bhiv_masterdb_ingestion.Targets.Inputs.{
  Outside, Router, IngestRequest, is_authorized, is_accepted, is_eligible, load_report,
  attempt_auto_certify, resolve_dataset_records, elem_format,
}

module _ (out : Outside) (r : IngestRequest) where
  -- One of the caller's roles is the role of the target, or one of the three that open every target.
  abbrev pub MayIngest : Type 0
  MayIngest =
      (role : Text) × (elem_text role r.roles ≡ true)
      × ((role ≡ (database_registry r.target_database).required_role)
          ⊎ (role ≡ admin_role)
          ⊎ (role ≡ codes "admin")
          ⊎ (role ≡ codes "operator"))

  -- The target accepts the format, the report on file certifies the dataset as eligible, and the target
  -- holds the records that were read from the dataset's file in the state `before`, with their count.
  abbrev pub StandsBehind : Router → Router → Type 0
  StandsBehind before s =
      (elem_format r.source_format (database_registry r.target_database).accepted_formats ≡ true)
      × ((report : CertificationReport) × (get r.dataset_id s.reports ≡ some report)
          × (report.state ≡ certified)
          × (report.eligible_for_masterdb ≡ true))
      × ((records : List Key) × (resolve_dataset_records out before r ≡ some records)
          × (get (out.reference r.target_database r.dataset_id) s.targets
              ≡ some (record {
                target_database = r.target_database;
                dataset_id = r.dataset_id;
                record_count = length records;
                source_format = r.source_format;
                records = records;
              })))

  -- A job that the answer marks as persisted has all of that.
  abbrev Guarded : Router → IngestAnswer → Type 0
  Guarded before (ok job, s) = job.status ≡ persisted → MayIngest × StandsBehind before s
  Guarded before (err e, s) = Unit

  authorized-MayIngest : is_authorized r ≡ true → MayIngest
  authorized-MayIngest h =
      let own = (database_registry r.target_database).required_role in
      elim (Bool-cases (elem_text own r.roles)) [
        | inl a ↦ (own, a, inl refl)
        | inr b ↦ elim (Bool-cases (elem_text admin_role r.roles)) [
          | inl c ↦ (admin_role, c, inr (inl refl))
          | inr d ↦ elim (Bool-cases (elem_text (codes "admin") r.roles)) [
            | inl e ↦ (codes "admin", e, inr (inr (inl refl)))
            | inr f ↦ (codes "operator", ground arith, inr (inr (inr refl)))
          ]
        ]
      ]

  finalize-stores :
      (job : IngestJob) (s : Router)
      → ((finalize out r job s).1.reports ≡ s.reports)
        × ((finalize out r job s).1.targets ≡ s.targets)
  unfolding finalize
  finalize-stores job s = elim (Option-cases job.idempotency_key) [
    | inl absent ↦ (ground arith, ground arith)
    | inr (k, present) ↦ (ground arith, ground arith)
  ]

  -- A job with another status is guarded whatever the state.
  finalize-refused :
      (before : Router) (job : IngestJob) (s : Router)
      → ¬ (job.status ≡ persisted)
      → Guarded before (finalize out r job s)
  unfolding finalize
  finalize-refused before job s other h = absurd (other h)

  finalize-Guarded :
      (before : Router) (job : IngestJob) (s : Router)
      → MayIngest
      → StandsBehind before s
      → Guarded before (finalize out r job s)
  unfolding finalize
  finalize-Guarded before job s may
        (format, (report, on_file, state, eligible), (records, read, written)) h =
      let (same_reports, same_targets) = finalize-stores job s in
      (
        may,
        (
          format,
          (report, ap (get r.dataset_id) same_reports ∙ on_file, state, eligible),
          (
            records,
            read,
            ap (get (out.reference r.target_database r.dataset_id)) same_targets ∙ written,
          ),
        ),
      )

  advance-stores :
      (s : Router)
      → ((advance_linked_upload out r s).1.reports ≡ s.reports)
        × ((advance_linked_upload out r s).1.targets ≡ s.targets)
  unfolding advance_linked_upload
  advance-stores s = elim (Option-cases s.uploads) [
    | inl absent ↦ (ground arith, ground arith)
    | inr (up, present) ↦ (ground arith, ground arith)
  ]

  abbrev OnFile : Option CertificationReport → Router → Type 0
  OnFile none s = Unit
  OnFile (some report) s = get r.dataset_id s.reports ≡ some report

  route-Guarded :
      (s₀ : Router) (steps : List IngestJobStep) (report : CertificationReport) (records : List Key)
      (s : Router)
      → MayIngest
      → is_accepted r ≡ true
      → is_eligible (some report) ≡ true
      → get r.dataset_id s.reports ≡ some report
      → resolve_dataset_records out s r ≡ some records
      → Guarded s (route out r s₀ steps (some report) records s)
  unfolding route
  route-Guarded s₀ steps report records s may accepted eligible on_file read =
      let written = persist_target out r records s in
      let (same_reports, same_targets) = advance-stores written in
      let stored =
        get-put_self (out.reference r.target_database r.dataset_id) (target_dataset out r records)
          s.targets in
      if_rule (Guarded s) (advance_linked_upload out r written).0 _ _
        (λ _. finalize-Guarded s _ (advance_linked_upload out r written).1 may (
          accepted,
          (
            report,
            ap (get r.dataset_id) same_reports ∙ on_file,
            certified_of report eligible,
            ground arith,
          ),
          (
            records,
            read,
            ap (get (out.reference r.target_database r.dataset_id)) same_targets ∙ stored,
          ),
        ))
        (λ _. finalize-refused s _ (advance_linked_upload out r written).1 (λ h. cc))
    where
      certified_of :
          (report : CertificationReport)
          → is_eligible (some report) ≡ true
          → report.state ≡ certified
      certified_of report h = ground arith

  write_records-Guarded :
      (s₀ : Router) (steps : List IngestJobStep) (report : CertificationReport) (s : Router)
      (records : Option (List Key))
      → MayIngest
      → is_accepted r ≡ true
      → is_eligible (some report) ≡ true
      → get r.dataset_id s.reports ≡ some report
      → resolve_dataset_records out s r ≡ records
      → Guarded s (write_records out r s₀ steps (some report) s records)
  unfolding write_records
  write_records-Guarded s₀ steps report s none may accepted eligible on_file read = tt
  write_records-Guarded s₀ steps report s (some records) may accepted eligible on_file read =
      if_rule (Guarded s) r.target_raises _ _ (λ _. finalize-refused s _ s (λ h. cc))
        (λ _. route-Guarded s₀ steps report records s may accepted eligible on_file read)

  pass_gate-Guarded :
      (s₀ : Router) (report : Option CertificationReport) (s : Router)
      → MayIngest
      → is_accepted r ≡ true
      → OnFile report s
      → Guarded s (pass_gate out r s₀ (report, s))
  unfolding pass_gate
  pass_gate-Guarded s₀ none s may accepted on_file = finalize-refused s _ s (λ h. cc)
  pass_gate-Guarded s₀ (some report) s may accepted on_file =
      if_rule (Guarded s) (is_eligible (some report)) _ _
        (λ eligible.
          write_records-Guarded s₀ (rbac_step r ∷ format_step r ∷ gate_step r (some report) ∷ [])
            report s (resolve_dataset_records out s r) may accepted eligible on_file refl)
        (λ _. finalize-refused s _ s (λ h. cc))

  load_report-OnFile : (s : Router) → OnFile (load_report out s r).0 (load_report out s r).1
  unfolding load_report
  load_report-OnFile s = elim (Option-cases (get r.dataset_id s.reports)) [
    | inr (report, found) ↦
        let shape : load_report out s r ≡ (some report, s) = ground arith in
        subst (λ (p : Option CertificationReport × Router). OnFile p.0 p.1) (sym shape) found
    | inl absent ↦ elim (Bool-cases s.has_certification_service) [
      | inr alone ↦
          let shape : load_report out s r ≡ (none, s) = ground arith in
          subst (λ (p : Option CertificationReport × Router). OnFile p.0 p.1) (sym shape) tt
      | inl serviced ↦ elim (Option-cases (attempt_auto_certify out s r)) [
        | inl failed ↦
            let shape : load_report out s r ≡ (none, s) = ground arith in
            subst (λ (p : Option CertificationReport × Router). OnFile p.0 p.1) (sym shape) tt
        | inr (report, made) ↦
            let shape : load_report out s r
                ≡ (some report, record s { reports = put r.dataset_id report s.reports }) =
              ground arith in
            subst (λ (p : Option CertificationReport × Router). OnFile p.0 p.1) (sym shape)
              (get-put_self r.dataset_id report s.reports)
      ]
    ]
  ]

  execute_ingest-Guarded : (s : Router) → Guarded (load_report out s r).1 (execute_ingest out r s)
  unfolding execute_ingest
  execute_ingest-Guarded s =
      if_rule (Guarded (load_report out s r).1) (not (is_authorized r)) _ _
        (λ _. finalize-refused (load_report out s r).1 _ s (λ h. cc))
        (λ allowed.
          if_rule (Guarded (load_report out s r).1) (not (is_accepted r)) _ _
            (λ _. finalize-refused (load_report out s r).1 _ s (λ h. cc))
            (λ supported.
              pass_gate-Guarded s (load_report out s r).0 (load_report out s r).1
                (authorized-MayIngest (ground arith)) (ground arith) (load_report-OnFile s)))

-- An executed ingestion marks its job as persisted only if the caller holds the role of the target or
-- one of the three that open every target, the target accepts the format, the report on file
-- certifies the dataset as eligible, and the target then holds the records that were read from the
-- dataset's file after the report was loaded, with their count.
pub execute_ingest-StandsBehind :
    (out : Outside) (r : IngestRequest) (s after : Router) (job : IngestJob)
    → execute_ingest out r s ≡ (ok job, after)
    → job.status ≡ persisted
    → MayIngest out r × StandsBehind out r (load_report out s r).1 after
execute_ingest-StandsBehind out r s after job e h =
    subst (Guarded out r (load_report out s r).1) e (execute_ingest-Guarded out r s) h

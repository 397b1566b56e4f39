-- ===== src/Pipeline/Reports.antt =====
-- services/event_pipeline.py: what `execute_pipeline` reports of its path.
use bhiv_masterdb_ingestion.Prelude.{
  ℕ, ◌+◌, ◌≡◌, ap, sym, ◌∙◌, length, some, List, [], ◌∷◌, map, arith, Key, Result, ok, err,
  Option-cases, inl, inr, Result-cases,
}
use bhiv_masterdb_ingestion.Prelude.Dict.{Dict}
use bhiv_masterdb_ingestion.Json.{Json}
use bhiv_masterdb_ingestion.Lifecycle.{PackageStatus}
use bhiv_masterdb_ingestion.Lifecycle.Search.{find_lifecycle_path}
use bhiv_masterdb_ingestion.Rules.{RuleEngine}
use bhiv_masterdb_ingestion.Machine.{EntityState, Canonical}
use bhiv_masterdb_ingestion.Audit.{Sha256}
use bhiv_masterdb_ingestion.Ledger.{total_count}
use bhiv_masterdb_ingestion.Pipeline.{
  Pipeline, PipelineError, no_lifecycle_path, AuditPayload, M, pure, on_machine, ◌>>=◌,
  process_event,
}
use bhiv_masterdb_ingestion.Pipeline.Execute.{
  PipelineExecutionRequest, PipelineExecutionResponse, StepReport, Draws, step_event, prepare,
  run_steps, emit_completed, run_path, execute_pipeline, tail, report_of, complete, response_of,
}

bind-ok :
    {V A B : Type 0} (m : M V A) (f : A → M V B) (p : Pipeline V) (b : B)
    → ((m >>= f) p).0 ≡ ok b
    → (a : A) × ((m p).0 ≡ ok a) × ((f a (m p).1).0 ≡ ok b)
bind-ok m f p b h = elim (Result-cases (m p).0) [
  | inl (a, returned) ↦ (a, returned, ground arith)
  | inr (e, raised) ↦ ground arith
]

of_result : {A : Type 0} → A → Result PipelineError A → A
of_result d (ok a) = a
of_result d (err e) = d

abbrev the_ok : {A : Type 0} → A → Result PipelineError A
the_ok a = ok a

ok-injective : {A : Type 0} (a b : A) → (the_ok a ≡ ok b) → a ≡ b
unfolding of_result
ok-injective a b h = ap (of_result a) h

module _ (J : Json) (engine : RuleEngine (Dict J.Value))
    (graph : PackageStatus → List PackageStatus) (sha : Sha256 AuditPayload)
    (state_hash : Canonical J.Value → Key) where
  open J use {Value}

  module _ (request : PipelineExecutionRequest Value) (draws : Draws) where
    abbrev pub to_status_of : StepReport → PackageStatus
    to_status_of t = t.to_status

    run_steps-reports :
        (ss : List PackageStatus) (n : ℕ) (state : EntityState Value) (p : Pipeline Value)
        (done : List StepReport × EntityState Value)
        → (run_steps J engine graph sha state_hash request draws ss n state p).0 ≡ ok done
        → map to_status_of done.0 ≡ ss
    unfolding run_steps
    run_steps-reports [] n state p done h =
        let same : ([], state) ≡ done = cc in ap (λ x. map to_status_of x.0) (sym same)
    run_steps-reports (s ∷ ss) n state p done h =
        let step =
          process_event J engine graph sha state_hash (step_event request draws n s)
            (draws.inputs n) in
        let (first, first_ok, h1) =
          bind-ok step
            (λ first.
              run_steps J engine graph sha state_hash request draws ss (n + 1) first.1 >>= λ rest.
              pure (report_of request (draws.event_id n) s first ∷ rest.0, rest.1))
            p done h in
        let (rest, rest_ok, h2) =
          bind-ok (run_steps J engine graph sha state_hash request draws ss (n + 1) first.1)
            (λ rest. pure (report_of request (draws.event_id n) s first ∷ rest.0, rest.1))
            (step p).1 done h1 in
        let same : (report_of request (draws.event_id n) s first ∷ rest.0, rest.1) ≡ done =
          ok-injective _ _ h2 in
        ap (λ x. map to_status_of x.0) (sym same)
        ∙ ap (λ xs. s ∷ xs) (run_steps-reports ss (n + 1) first.1 (step p).1 rest rest_ok)

    complete-reports :
        (before : ℕ) (done : List StepReport × EntityState Value) (p : Pipeline Value)
        (response : PipelineExecutionResponse)
        → (complete J engine graph sha state_hash request draws before done p).0 ≡ ok response
        → response.transitions ≡ done.0
    complete-reports before done p response h =
        let (entry, _, returned) =
          bind-ok
            (emit_completed J engine graph sha state_hash request draws done.1 (length done.0))
            (λ entry. pure (
              response_of J engine graph sha state_hash request draws before (total_count p.ledger)
                done entry))
            p response h in
        ap (λ r. r.transitions) (sym (ok-injective _ _ returned))

    run_path-reports :
        (path : List PackageStatus) (p : Pipeline Value) (response : PipelineExecutionResponse)
        → (run_path J engine graph sha state_hash request draws path p).0 ≡ ok response
        → map to_status_of response.transitions ≡ tail path
    run_path-reports path p response h =
        let prepared = on_machine (prepare request) p in
        let state = (prepare request p.machine).0 in
        let before = total_count p.ledger in
        let (done, done_ok, completed) =
          bind-ok (run_steps J engine graph sha state_hash request draws (tail path) 0 state)
            (λ done. complete J engine graph sha state_hash request draws before done) prepared.1
            response h in
        ap (λ ts. map to_status_of ts)
          (complete-reports before done
            (run_steps J engine graph sha state_hash request draws (tail path) 0 state prepared.1).1
            response completed)
        ∙ run_steps-reports (tail path) 0 state prepared.1 done done_ok

    -- An execution that returns has found a path between the two statuses and reports one transition
    -- for each status on it after the first, in its order.
    pub execute_pipeline-reports :
        (p : Pipeline Value) (response : PipelineExecutionResponse)
        → (execute_pipeline J engine graph sha state_hash request draws p).0 ≡ ok response
        → (path : List PackageStatus) × (find_lifecycle_path request.initial_status
              request.target_status
            ≡ some path)
          × (map to_status_of response.transitions ≡ tail path)
    unfolding execute_pipeline
    execute_pipeline-reports p response h =
        let call = (execute_pipeline J engine graph sha state_hash request draws p).0 in
        elim (Option-cases (find_lifecycle_path request.initial_status request.target_status)) [
          | inl no_path ↦
              let raised : call
                  ≡ err (no_lifecycle_path request.initial_status request.target_status) =
                ground arith in
              cc (raised, h)
          | inr (path, found) ↦
              let shape : call ≡ (run_path J engine graph sha state_hash request draws path p).0 =
                ground arith in
              (path, found, run_path-reports path p response (sym shape ∙ h))
        ]

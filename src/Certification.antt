-- ===== src/Certification.antt =====
-- services/certification_service.py: `CertificationService`, with its models of models.py. A report is
-- modelled by the fields that certification reads and writes, which a validation report always
-- has; its scores are in hundredths. `validate` of the validation service is a parameter, and so are
-- `str.lower` and the text of a withdrawal's reason.
pub mod Withdraw
pub mod Gate
pub mod Withdrawn
mod Tests
use bhiv_masterdb_ingestion.Prelude.{
  ℕ, Bool, true, false, not, ◌&&◌, ◌||◌, Option, none, some, List, [], ◌∷◌, ◌++◌, Key, Result, ok,
  err, leb, truthy, if◌then◌else◌, ◌==◌,
}
use bhiv_masterdb_ingestion.Prelude.Dict.{Dict, get, put}
use bhiv_masterdb_ingestion.Packages.{Registry, Fresh, ReportService, list_all}
use bhiv_masterdb_ingestion.Certification.Withdraw.{withdraw}

pub data CertificationState : Type 0 where
  new validated verified certified rejected : CertificationState

abbrev pub is_certified : CertificationState → Bool
is_certified certified = true
is_certified _ = false

abbrev pub is_rejected : CertificationState → Bool
is_rejected rejected = true
is_rejected _ = false

abbrev pub is_verified : CertificationState → Bool
is_verified verified = true
is_verified _ = false

-- "VALIDATION_SCORE_AND_RISK_GATE", "MASTERDB_CERTIFICATION_GATE" and the classification "Trusted"
abbrev pub masterdb_certification_gate : Key
masterdb_certification_gate = 51

abbrev pub trusted : Key
trusted = 52

abbrev pub validation_score_and_risk_gate : Key
validation_score_and_risk_gate = 53

-- The texts of the reasons; `rule_failed` is the text "<rule> failed.".
pub data Reason : Type 0 where
  meets_verification_gates trusted_and_eligible recertification_failed : Reason
  rule_failed : Key → Reason
  other : Key → Reason

pub record TransitionRecord : Type 0 where
  pub from_state : CertificationState
  pub to_state : CertificationState
  pub rule : Key
  pub passed : Bool
  pub reason : Reason

pub record IngestionDecision : Type 0 where
  pub dataset_id : Key
  pub eligible_for_masterdb : Bool
  pub state : CertificationState
  pub classification : Key
  pub integrity_score : ℕ
  pub rejection_reasons : List Reason
  pub audit_trail : List TransitionRecord

pub record Report : Type 0 where
  pub dataset_id : Key
  pub state : Option CertificationState
  pub classification : Key
  pub integrity_score : ℕ
  pub risk_flags : List Key
  pub recommendations : List Key
  pub metadata_score : ℕ
  pub provenance_score : ℕ
  pub integrity_result_score : ℕ
  pub audit_trail : List TransitionRecord
  pub ingestion_decision : Option IngestionDecision

abbrev pub is_empty : List Key → Bool
is_empty [] = true
is_empty (_ ∷ _) = false

abbrev pub passes_verification : Report → Bool
passes_verification r =
    leb 7500 r.integrity_score
    && is_empty r.risk_flags
    && leb 8000 r.metadata_score
    && leb 8000 r.provenance_score
    && leb 8000 r.integrity_result_score

-- The conditions on the report of both certification gates.
abbrev pub is_clean : Report → Bool
is_clean r =
    r.classification == trusted
    && leb 9000 r.integrity_score
    && is_empty r.risk_flags
    && is_empty r.recommendations

-- What `certify` threads: the state, the audit trail and the reasons.
pub record Progress : Type 0 where
  pub state : CertificationState
  pub audit : List TransitionRecord
  pub rejection_reasons : List Reason

-- `_transition`
abbrev pub transition : CertificationState → Key → Bool → Reason → Progress → Progress
transition success_state rule passed success_reason p =
    if is_rejected p.state
    then p
    else let to_state : CertificationState = if passed then success_state else rejected in
      let reason : Reason = if passed then success_reason else rule_failed rule in
      record {
        state = to_state;
        audit =
            p.audit
            ++ record {
              from_state = p.state;
              to_state = to_state;
              rule = rule;
              passed = passed;
              reason = reason;
            }
              ∷ [];
        rejection_reasons =
            if passed then p.rejection_reasons else p.rejection_reasons ++ reason ∷ [];
      }

-- The branch for a report that is CERTIFIED.
abbrev pub recertify : Report → Progress → Progress
recertify r p = if passes_verification r && is_clean r then p else record {
  state = rejected;
  audit =
      p.audit
      ++ record {
        from_state = certified;
        to_state = rejected;
        rule = masterdb_certification_gate;
        passed = false;
        reason = recertification_failed;
      }
        ∷ [];
  rejection_reasons = p.rejection_reasons ++ recertification_failed ∷ [];
}

abbrev pub second_gate : Report → Progress → Progress
second_gate r p =
    transition certified masterdb_certification_gate (is_verified p.state && is_clean r)
      trusted_and_eligible p

-- The branch for the other states but REJECTED.
abbrev pub first_certify : Report → Progress → Progress
first_certify r p = second_gate r (
    transition verified validation_score_and_risk_gate (passes_verification r)
      meets_verification_gates p)

-- `CertificationState(report.get("state", CertificationState.NEW))`
abbrev pub state_of : Report → CertificationState
state_of r = elim r.state [ none ↦ new | some s ↦ s ]

abbrev pub decide : Report → Progress
decide r =
    let p : Progress = record {
      state = state_of r;
      audit = r.audit_trail;
      rejection_reasons = [];
    } in
    if is_certified p.state
    then recertify r p
    else if not (is_rejected p.state)
    then first_certify r p
    else p

-- The report that `certify` saves.
unfoldable pub certify_report : Report → Report
certify_report r =
    let p = decide r in
    record r {
      state = some p.state;
      audit_trail = p.audit;
      ingestion_decision = some (record {
        dataset_id = r.dataset_id;
        eligible_for_masterdb = is_certified p.state;
        state = p.state;
        classification = r.classification;
        integrity_score = r.integrity_score;
        rejection_reasons = p.rejection_reasons;
        audit_trail = p.audit;
      });
    }

pub data CertifyError : Type 0 where
  no_dataset_path : CertifyError
  validation_failed : Key → CertifyError

-- The artifact store of the reports, and the package registry where there is one.
pub record Certification : Type 0 where
  pub reports : Dict Report
  pub package_registry : Option Registry

module _ (validate : Key → Option Key → Option Key → Result Key Report) (lower : Key → Key)
    (reason_of : Key → Key) (service : Option ReportService) where
  abbrev pub validated_report : Option Key → Option Key → Option Key → Result CertifyError Report
  validated_report none metadata_path dataset_id = err no_dataset_path
  validated_report (some path) metadata_path dataset_id =
      if truthy path
      then elim (validate path metadata_path dataset_id) [
        | ok r ↦ ok r
        | err e ↦ err (validation_failed e)
      ]
      else err no_dataset_path

  -- `self.artifact_store.load(dataset_id)` where the id is given and not empty
  abbrev pub stored_report : Certification → Option Key → Option Report
  stored_report c none = none
  stored_report c (some id) = if truthy id then get id c.reports else none

  abbrev pub resolve_report :
      Certification → Option Key → Option Key → Option Key → Result CertifyError Report
  resolve_report c dataset_id dataset_path metadata_path = elim (stored_report c dataset_id) [
    | some r ↦ ok r
    | none ↦ validated_report dataset_path metadata_path dataset_id
  ]

  -- The packages of a rejected dataset are withdrawn.
  abbrev pub withdraw_rejected : Report → (Key → Fresh) → Option Registry → Option Registry
  withdraw_rejected r fresh none = none
  withdraw_rejected r fresh (some packages) =
      if is_rejected (state_of r)
      then some (withdraw lower reason_of service r.dataset_id fresh (list_all packages) packages)
      else some packages

  unfoldable pub certify :
      Certification
      → Option Key
      → Option Key
      → Option Key
      → (Key → Fresh)
      → Result CertifyError Report × Certification
  certify c dataset_id dataset_path metadata_path fresh =
      elim (resolve_report c dataset_id dataset_path metadata_path) [
        | err e ↦ (err e, c)
        | ok r ↦
            let saved = certify_report r in
            (
              ok saved,
              record {
                reports = put r.dataset_id saved c.reports;
                package_registry = withdraw_rejected saved fresh c.package_registry;
              },
            )
      ]

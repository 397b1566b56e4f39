-- ===== src/Certification/Tests.antt =====
-- services/certification_service.py: the theorems at a concrete report and a concrete registry.
use bhiv_masterdb_ingestion.Prelude.{
  ◌≡◌, refl, arith, Bool, not, ◌&&◌, true, false, Option, none, some, List, [], ◌∷◌, ◌++◌, Key,
  Result, ok, err, if◌then◌else◌,
}
use bhiv_masterdb_ingestion.Lifecycle.{retrieval_ready, deprecated}
use bhiv_masterdb_ingestion.Packages.{
  promoted, promote, deprecate, KnowledgePackage, Registry, Fresh,
}
use bhiv_masterdb_ingestion.Certification.{
  validated, certified, rejected, TransitionRecord, IngestionDecision, Report, Certification,
  trusted, is_rejected, passes_verification, is_clean, state_of, certify_report, certify,
}
use bhiv_masterdb_ingestion.Certification.Withdraw.{certification_service, withdraw, is_active}
use bhiv_masterdb_ingestion.Certification.Gate.{
  Links, certify_report-eligible, certify_report-Links,
}
use bhiv_masterdb_ingestion.Certification.Withdrawn.{certify-withdraws}
use bhiv_masterdb_ingestion.Packages.Listing.{IsKeyed}

-- A clean report but for its recommendation.
abbrev report : Report
report = record {
  dataset_id = 80;
  state = some validated;
  classification = trusted;
  integrity_score = 9500;
  risk_flags = [];
  recommendations = 71 ∷ [];
  metadata_score = 9000;
  provenance_score = 9000;
  integrity_result_score = 9000;
  audit_trail = [];
  ingestion_decision = none;
}

abbrev passes : Report → Bool
passes r = not (is_rejected (state_of r)) && passes_verification r && is_clean r

certify_report-eligible_example :
    ((d : IngestionDecision) × ((certify_report report).ingestion_decision ≡ some d)
      × (d.eligible_for_masterdb ≡ passes report)
      × (d.state ≡ (if passes report then certified else rejected)))
    × (state_of (certify_report report) ≡ (if passes report then certified else rejected))
certify_report-eligible_example = certify_report-eligible report

certify_report-Links_example :
    (added : List TransitionRecord) × ((certify_report report).audit_trail ≡ [] ++ added)
    × Links validated added (state_of (certify_report report))
certify_report-Links_example = certify_report-Links report

abbrev ready : KnowledgePackage
ready = record {
  package_id = 5;
  dataset_id = 80;
  dataset_version = 81;
  schema_version = 82;
  board = 83;
  medium = 84;
  language = 85;
  owner = 86;
  created_at = 100;
  updated_at = 100;
  status = retrieval_ready;
  history = [];
}

abbrev packages : Registry
packages = (5, ready) ∷ []

abbrev service_state : Certification
service_state = record { reports = (80, report) ∷ []; package_registry = some packages }

abbrev fresh : Key → Fresh
fresh id = record {
  package_id = 90;
  transition_id = 91;
  created_at = 101;
  updated_at = 101;
  timestamp = 101;
}

abbrev nothing_to_validate : Key → Option Key → Option Key → Result Key Report
nothing_to_validate path metadata_path dataset_id = err 72

packages-IsKeyed : IsKeyed packages
packages-IsKeyed id p found = ground arith

certified_as :
    (certify nothing_to_validate (λ k. k) (λ k. k) none service_state (some 80) none none fresh).0
    ≡ ok (certify_report report)
unfolding certify
certified_as = refl

report_rejected : is_rejected (state_of (certify_report report)) ≡ true
unfolding certify_report
report_rejected = refl

-- The package afterwards.
abbrev deprecated_package : KnowledgePackage
deprecated_package = promoted ready deprecated certification_service 80 (fresh 5)

registry_after :
    (certify nothing_to_validate
      (λ k. k)
      (λ k. k)
      none
      service_state
      (some 80)
      none
      none
      fresh).1.package_registry
    ≡ some ((5, deprecated_package) ∷ [])
unfolding certify certify_report withdraw deprecate promote
registry_after = refl

certify-withdraws_example : is_active (λ k. k) (λ k. k) none 80 fresh deprecated_package ≡ false
unfolding certify_report
certify-withdraws_example =
    certify-withdraws nothing_to_validate (λ k. k) (λ k. k) none service_state (some 80) none none
      fresh packages ((5, deprecated_package) ∷ []) (certify_report report) 5 deprecated_package
      refl packages-IsKeyed (refl, tt) certified_as report_rejected registry_after refl

-- ===== src/Machine/Tests.antt =====
-- services/state_machine.py: runs of the state machine, and the theorems at concrete inputs.
use bhiv_masterdb_ingestion.Prelude.Dict.{Dict, get}
use bhiv_masterdb_ingestion.Json.Sample.{Sample, tenths, sample}
use bhiv_masterdb_ingestion.Machine.Defaults.{default_rule_engine, schema_integrity}
use bhiv_masterdb_ingestion.Prelude.{
  ℕ, zero, suc, ◌≡◌, refl, ◌↔◌, Bool, true, false, Option, none, some, [], ◌∷◌, Key, Result, ok,
  err,
}
use bhiv_masterdb_ingestion.Lifecycle.{
  PackageStatus, registered, ingested, validated, verified, deprecated, package_lifecycle_graph,
}
use bhiv_masterdb_ingestion.Lifecycle.Search.{find_lifecycle_path}
use bhiv_masterdb_ingestion.Lifecycle.Routes.{IsShortest, find_lifecycle_path-IsShortest}
use bhiv_masterdb_ingestion.Rules.{Evaluator, RuleEngine, evaluate, register_rule, evaluate-passed}
use bhiv_masterdb_ingestion.Machine.{
  EntityState, Machine, TransitionError, not_allowed, transition, transition_state, new_state,
  knowledge_package, is_invalid_transition,
}
use bhiv_masterdb_ingestion.Machine.Entities.{AllConsistent, transition-AllConsistent}

abbrev run :
    Machine Sample
    → PackageStatus
    → Key
    → Dict Sample
    → Option Sample
    → Result TransitionError (EntityState Sample) × Machine Sample
run m target event context updates =
    transition sample (default_rule_engine sample) package_lifecycle_graph m 1 target event context
      updates

-- Entity 1 is ingested by event 21.
abbrev after_ingest : Machine Sample
after_ingest = (run [] ingested 21 [] none).1

abbrev ingested_state : EntityState Sample
ingested_state =
    (transition_state sample (default_rule_engine sample) package_lifecycle_graph
      (new_state 1 knowledge_package registered) ingested 21 [] none).1

abbrev fails : {A : Type 0} → Result TransitionError A → Bool
fails (ok a) = false
fails (err e) = is_invalid_transition e

low_integrity_refused :
    fails (run after_ingest validated 22 ((schema_integrity, tenths 7) ∷ []) none).0 ≡ true
unfolding transition transition_state default_rule_engine
low_integrity_refused = refl

nothing_consistent : AllConsistent {V = Sample} []
nothing_consistent id s h = cc

ingest_ok : (run [] ingested 21 [] none).0 ≡ ok ingested_state
unfolding transition transition_state default_rule_engine
ingest_ok = refl

transition-AllConsistent_example : AllConsistent after_ingest
transition-AllConsistent_example =
    transition-AllConsistent sample (default_rule_engine sample) package_lifecycle_graph [] 1
      ingested 21 [] none nothing_consistent (λ e. cc (e, ingest_ok))

-- A deprecated package cannot go back.
refused_error : TransitionError
refused_error = not_allowed 1 registered verified (ingested ∷ deprecated ∷ [])

verify_refused : (run [] verified 21 [] none).0 ≡ err refused_error
unfolding transition transition_state default_rule_engine refused_error
verify_refused = refl

ingest_found : get 1 (run [] ingested 21 [] none).1 ≡ some ingested_state
unfolding transition transition_state default_rule_engine
ingest_found = refl

find_lifecycle_path-IsShortest_example :
    IsShortest registered verified (find_lifecycle_path registered verified)
find_lifecycle_path-IsShortest_example = find_lifecycle_path-IsShortest registered verified

-- One rule, which raises on 0.
abbrev positive : Evaluator ℕ
positive zero = err 71
positive (suc n) = ok true

abbrev one_rule : RuleEngine ℕ
one_rule = register_rule 5 positive []

evaluate-passed_example :
    ((evaluate one_rule 3 5).passed ≡ true)
    ↔ ((f : Evaluator ℕ) × (get 5 one_rule ≡ some f) × (f 3 ≡ ok true))
evaluate-passed_example = evaluate-passed one_rule 3 5

abbrev fresh : EntityState Sample
fresh = new_state 1 knowledge_package registered

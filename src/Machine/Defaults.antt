-- ===== src/Machine/Defaults.antt =====
-- services/state_machine.py: `_default_rule_engine`.
use bhiv_masterdb_ingestion.Prelude.{ℕ, Bool, true, none, some, [], Key, Result, ok, err}
use bhiv_masterdb_ingestion.Prelude.Dict.{Dict, get}
use bhiv_masterdb_ingestion.Json.{Json}
use bhiv_masterdb_ingestion.Lifecycle.{
  value, ingested, validated, verified, certified, retrieval_ready, deprecated, archived,
}
use bhiv_masterdb_ingestion.Rules.{RuleEngine, register_rule}

-- The keys of the context that the rules read, numbered in the order of their strings.
abbrev pub certification_score : Key
certification_score = 11

abbrev pub compliance_verified : Key
compliance_verified = 12

abbrev pub contract_published : Key
contract_published = 13

abbrev pub schema_integrity : Key
schema_integrity = 14

abbrev pub source_verified : Key
source_verified = 15

-- The text of the exception that `float` raises.
abbrev pub float_error : Key
float_error = 16

module _ (J : Json) where
  open J use {Value, is_true, at_least_tenths}

  -- `bool(ctx.get(key, True))`
  abbrev flag : Key → Dict Value → Result Key Bool
  flag key ctx = elim (get key ctx) [ none ↦ ok true | some v ↦ ok (is_true v) ]

  -- `float(ctx.get(key, d)) >= n / 10`, where the default `d` passes the test
  abbrev score : Key → ℕ → Dict Value → Result Key Bool
  score key n ctx = elim (get key ctx) [
    | none ↦ ok true
    | some v ↦ elim (at_least_tenths n v) [ none ↦ err float_error | some b ↦ ok b ]
  ]

  unfoldable pub default_rule_engine : RuleEngine (Dict Value)
  unfolding register_rule
  default_rule_engine =
      register_rule (value archived) (λ ctx. ok true)
        (register_rule (value deprecated) (λ ctx. ok true)
          (register_rule (value retrieval_ready) (flag contract_published) (
            register_rule (value certified) (score certification_score 700) (
              register_rule (value verified) (flag compliance_verified) (
                register_rule (value validated) (score schema_integrity 8)
                  (register_rule (value ingested) (flag source_verified) []))))))

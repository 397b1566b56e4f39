-- ===== src/Rules.antt =====
-- evaluation_engine/rule_engine.py: `RuleResult` and `RuleEngine`, over any type of contexts.
use bhiv_masterdb_ingestion.Prelude.{
  ◌≡◌, ◌↔◌, Bool, true, false, none, some, arith, Key, Result, ok, err, ◌==◌, if◌then◌else◌,
  Option-cases, inl, inr,
}
use bhiv_masterdb_ingestion.Prelude.Dict.{Dict, get, put, get-put}

pub data Reason : Type 0 where
  no_rule : Key → Reason
  evaluation_error : Key → Reason
  rule_passed rule_failed : Reason

pub record RuleResult : Type 0 where
  pub rule_id : Key
  pub passed : Bool
  pub reason : Reason
  pub state : Key

-- An evaluator returns a truth value or raises, with the exception's text.
abbrev pub Evaluator : Type 0 → Type 0
Evaluator Context = Context → Result Key Bool

abbrev pub RuleEngine : Type 0 → Type 0
RuleEngine Context = Dict (Evaluator Context)

abbrev outcome : Key → Result Key Bool → RuleResult
outcome target (err e) = record {
  rule_id = target;
  passed = false;
  reason = evaluation_error e;
  state = target;
}
outcome target (ok passed) = record {
  rule_id = target;
  passed = passed;
  reason = if passed then rule_passed else rule_failed;
  state = target;
}

module _ {Context : Type 0} where
  unfoldable pub register_rule : Key → Evaluator Context → RuleEngine Context → RuleEngine Context
  register_rule rule_id evaluator engine = put rule_id evaluator engine

  unfoldable pub evaluate : RuleEngine Context → Context → Key → RuleResult
  evaluate engine context target = elim (get target engine) [
    | none ↦ record { rule_id = target; passed = false; reason = no_rule target; state = target }
    | some evaluator ↦ outcome target (evaluator context)
  ]

  -- The engine is closed by default: a result is positive exactly if an evaluator is registered for
  -- the target state and returns true; no evaluator and a raised exception both refuse.
  pub evaluate-passed :
      (engine : RuleEngine Context) (context : Context) (target : Key)
      → ((evaluate engine context target).passed ≡ true)
        ↔ ((f : Evaluator Context) × (get target engine ≡ some f) × (f context ≡ ok true))
  unfolding evaluate
  evaluate-passed engine context target = (passes, accepts)
    where
      passes :
          (evaluate engine context target).passed ≡ true
          → (f : Evaluator Context) × (get target engine ≡ some f) × (f context ≡ ok true)
      passes h = elim (Option-cases (get target engine)) [
        | inl missing ↦ ground arith
        | inr (f, found) ↦ (f, found, ground arith)
      ]

      accepts :
          ((f : Evaluator Context) × (get target engine ≡ some f) × (f context ≡ ok true))
          → (evaluate engine context target).passed ≡ true
      accepts (f, found, says) = ground arith

  -- Registering a rule decides its own target and no other.
  pub get-register_rule :
      (rule_id target : Key) (f : Evaluator Context) (engine : RuleEngine Context)
      → get target (register_rule rule_id f engine)
        ≡ (if rule_id == target then some f else get target engine)
  unfolding register_rule
  get-register_rule rule_id target f engine = get-put rule_id target f engine

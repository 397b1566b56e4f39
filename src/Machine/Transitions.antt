-- ===== src/Machine/Transitions.antt =====
-- services/state_machine.py: what `transition` does on each of its branches.
use bhiv_masterdb_ingestion.Prelude.{
  ◌≡◌, ◌≢◌, refl, ◌⊎◌, inl, inr, Bool, true, false, ◌&&◌, ◌||◌, Option, none, some, List, [], ◌∷◌,
  arith, Key, Result, ok, err, elem, elem-append, length-append, Bool-cases, Option-cases,
}
use bhiv_masterdb_ingestion.Prelude.Dict.{Dict}
use bhiv_masterdb_ingestion.Json.{Json}
use bhiv_masterdb_ingestion.Lifecycle.{PackageStatus, value, same, among, same→eq}
use bhiv_masterdb_ingestion.Rules.{RuleResult, RuleEngine, evaluate}
use bhiv_masterdb_ingestion.Machine.{
  EntityState, TransitionError, bad_metadata, merge, write, transition_state, is_invalid_transition,
  entry_of, not_allowed, rule_check_failed,
}
use bhiv_masterdb_ingestion.Machine.Consistent.{
  IsConsistent, IsDistinct-append_one, Leads-append_one, map-event_of-append_one,
}

module _ (J : Json) (engine : RuleEngine (Dict J.Value))
    (graph : PackageStatus → List PackageStatus) where
  open J use {Value}

  module _ (state : EntityState Value) (target : PackageStatus) (event_id : Key)
      (context : Dict Value) (updates : Option Value) where
    abbrev step : Result TransitionError (EntityState Value) × EntityState Value
    step = transition_state J engine graph state target event_id context updates

    write-IsConsistent :
        (initial : PackageStatus) (result : RuleResult) (metadata : Dict Value)
        → IsConsistent initial state
        → elem event_id state.applied_events ≡ false
        → IsConsistent initial (write J state target event_id result (some metadata)).1
    write-IsConsistent initial result metadata h new = record {
      counted = omega (arith, h.counted, length-append state.applied_events (event_id ∷ []));
      distinct = IsDistinct-append_one state.applied_events event_id h.distinct new;
      logged = ground (
        arith,
        h.logged,
        map-event_of-append_one state.transition_log (entry_of J state target event_id result),
      );
      log_length = omega (
        arith,
        h.log_length,
        length-append state.applied_events (event_id ∷ []),
        length-append state.transition_log (entry_of J state target event_id result ∷ []),
      );
      leads =
          Leads-append_one initial 1 state.transition_log state.current_status
            (entry_of J state target event_id result) h.leads refl
            (omega (arith, h.log_length, h.counted));
    }

    abbrev legal : Bool
    legal = among target (graph state.current_status) || same target state.current_status

    abbrev result : RuleResult
    result = evaluate engine context (value target)

    -- The branches of a call: it replays an applied event, it refuses, or it writes.
    abbrev Branches : Type 0
    Branches =
        ((step ≡ (ok state, state)) × (elem event_id state.applied_events ≡ true))
        ⊎ ((e : TransitionError) × (step ≡ (err e, state))
            × (is_invalid_transition e ≡ true)
            × (elem event_id state.applied_events ≡ false)
            × (legal && result.passed ≡ false))
        ⊎ ((step ≡ write J state target event_id result none)
            × (merge J updates state.metadata ≡ none)
            × (elem event_id state.applied_events ≡ false)
            × (legal ≡ true)
            × (result.passed ≡ true))
        ⊎ ((metadata : Dict Value) × (step ≡ write J state target event_id result (some metadata))
            × (merge J updates state.metadata ≡ some metadata)
            × (elem event_id state.applied_events ≡ false)
            × (legal ≡ true)
            × (result.passed ≡ true))

    branches : Branches
    unfolding transition_state
    branches = elim (Bool-cases (elem event_id state.applied_events)) [
      | inl old ↦ inl (ground arith, old)
      | inr new ↦ elim (Bool-cases legal) [
        | inr illegal ↦ inr (
            inl (
              not_allowed state.entity_id state.current_status target (graph state.current_status),
              ground arith,
              refl,
              new,
              ground arith,
            ))
        | inl fine ↦ elim (Bool-cases result.passed) [
          | inr failed ↦ inr (
              inl (
                rule_check_failed state.entity_id state.current_status target result.reason,
                ground arith,
                refl,
                new,
                ground arith,
              ))
          | inl passed ↦ elim (Option-cases (merge J updates state.metadata)) [
            | inl unusable ↦ inr (inr (inl (ground arith, unusable, new, fine, passed)))
            | inr (metadata, merged) ↦
                inr (inr (inr (metadata, ground arith, merged, new, fine, passed)))
          ]
        ]
      ]
    ]

    -- A call that does not fail on its metadata keeps the account of the entity.
    pub transition_state-IsConsistent :
        (initial : PackageStatus)
        → IsConsistent initial state
        → step.0 ≢ err bad_metadata
        → IsConsistent initial step.1
    transition_state-IsConsistent initial h fits = elim branches [
      | inl (replayed, _) ↦ rw replayed h
      | inr (inl (e, refused, _, _, _)) ↦ rw refused h
      | inr (inr (inl (failed, _, _, _, _))) ↦ absurd (fits (rw failed))
      | inr (inr (inr (metadata, wrote, _, new, _, _))) ↦
          rw wrote (write-IsConsistent initial result metadata h new)
    ]

    -- The event stands among the applied ones after every call that returns.
    pub transition_state-applied :
        (s : EntityState Value)
        → step.0 ≡ ok s
        → (elem event_id step.1.applied_events ≡ true) × (s ≡ step.1)
    transition_state-applied s h = elim branches [
      | inl (replayed, old) ↦ (rw replayed old, cc)
      | inr (inl (e, refused, _, _, _)) ↦ ground arith
      | inr (inr (inl (failed, _, _, _, _))) ↦ ground arith
      | inr (inr (inr (metadata, wrote, _, new, _, _))) ↦
          (rw wrote (ground (arith, elem-append event_id state.applied_events (event_id ∷ []))), cc)
    ]

    -- A refused call leaves the state as it was.
    pub transition_state-refused :
        (e : TransitionError) → step.0 ≡ err e → is_invalid_transition e ≡ true → step.1 ≡ state
    transition_state-refused e h invalid = elim branches [
      | inl (replayed, old) ↦ cc
      | inr (inl (e', refused, _, _, _)) ↦ cc
      | inr (inr (inl (failed, _, _, _, _))) ↦ cc
      | inr (inr (inr (metadata, wrote, _, new, _, _))) ↦ cc
    ]

    abbrev Moves : PackageStatus → Type 0
    Moves s = (s ≡ state.current_status) ⊎ (among s (graph state.current_status) ≡ true)

    to_target : legal ≡ true → Moves target
    to_target fine = elim (Bool-cases (among target (graph state.current_status))) [
      | inl edge ↦ inr edge
      | inr stays ↦ inl (same→eq target state.current_status (ground arith))
    ]

    -- Where a call ends it has kept the status, or followed an edge of the graph.
    pub transition_state-Moves : Moves step.1.current_status
    transition_state-Moves = elim branches [
      | inl (replayed, old) ↦ inl (rw replayed refl)
      | inr (inl (e, refused, _, _, _)) ↦ inl (rw refused refl)
      | inr (inr (inl (failed, _, _, fine, _))) ↦ rw failed (to_target fine)
      | inr (inr (inr (metadata, wrote, _, new, fine, _))) ↦ rw wrote (to_target fine)
    ]

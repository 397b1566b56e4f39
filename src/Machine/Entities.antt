-- ===== src/Machine/Entities.antt =====
-- services/state_machine.py: `transition` on the dictionary of all entities.
use bhiv_masterdb_ingestion.Prelude.{
  ◌<◌, subst, ◌≡◌, ◌≢◌, refl, ◌⊎◌, inl, inr, true, Option, none, some, List, arith, Key, Result,
  err, Option-cases, if◌then◌else◌, ◌==◌, Bool-cases,
}
use bhiv_masterdb_ingestion.Prelude.Dict.{Dict, get, put, get-put}
use bhiv_masterdb_ingestion.Json.{Json}
use bhiv_masterdb_ingestion.Lifecycle.{
  PackageStatus, registered, package_lifecycle_graph, rank, IsEdge-rank,
}
use bhiv_masterdb_ingestion.Rules.{RuleEngine}
use bhiv_masterdb_ingestion.Machine.{
  EntityState, Machine, TransitionError, knowledge_package, bad_metadata, transition_state,
  transition, get_or_create_state, new_state, is_invalid_transition, PravahEntityType,
}
use bhiv_masterdb_ingestion.Machine.Consistent.{IsConsistent}
use bhiv_masterdb_ingestion.Machine.Transitions.{
  transition_state-IsConsistent, transition_state-refused, transition_state-Moves,
}

-- The state with which a call on this entity begins.
abbrev pub state_of : {V : Type 0} → Machine V → Key → EntityState V
state_of m id = (get_or_create_state m id knowledge_package registered).0

abbrev pub AllConsistent : {V : Type 0} → Machine V → Type 0
AllConsistent {V} m =
    (id : Key) (s : EntityState V)
    → get id m ≡ some s
    → (initial : PackageStatus) × IsConsistent initial s

pub new_state-IsConsistent :
    {V : Type 0} (id : Key) (type : PravahEntityType) (initial : PackageStatus)
    → IsConsistent initial (new_state {V = V} id type initial)
new_state-IsConsistent id type initial = record {
  counted = refl;
  distinct = tt;
  logged = refl;
  log_length = refl;
  leads = refl;
}

state_of_found :
    {V : Type 0} (m : Machine V) (id : Key) (s : EntityState V)
    → get id m ≡ some s
    → state_of m id ≡ s
state_of_found m id s found = ground arith

state_of_missing :
    {V : Type 0} (m : Machine V) (id : Key)
    → get id m ≡ none
    → state_of m id ≡ new_state id knowledge_package registered
state_of_missing m id missing = ground arith

pub state_of-IsConsistent :
    {V : Type 0} (m : Machine V) (id : Key)
    → AllConsistent m
    → (initial : PackageStatus) × IsConsistent initial (state_of m id)
state_of-IsConsistent m id h = elim (Option-cases (get id m)) [
  | inl missing ↦ (
    registered,
    rw (state_of_missing m id missing) (new_state-IsConsistent id knowledge_package registered),
  )
  | inr (s, found) ↦ rw (state_of_found m id s found) (h id s found)
]

module _ (J : Json) (engine : RuleEngine (Dict J.Value))
    (graph : PackageStatus → List PackageStatus) where
  open J use {Value}

  module _ (m : Machine Value) (id : Key) (target : PackageStatus) (event_id : Key)
      (context : Dict Value) (updates : Option Value) where
    abbrev call : Result TransitionError (EntityState Value) × Machine Value
    call = transition J engine graph m id target event_id context updates

    abbrev step : Result TransitionError (EntityState Value) × EntityState Value
    step = transition_state J engine graph (state_of m id) target event_id context updates

    -- A call acts on its own entity alone, and returns what the step on its state returns.
    pub transition-get :
        (call.0 ≡ step.0) × ((j : Key) → get j call.1 ≡ (if id == j then some step.1 else get j m))
    unfolding transition
    transition-get = elim (Option-cases (get id m)) [
      | inl missing ↦ (ground arith, λ j. ground (arith, get-put-put id j))
      | inr (s, found) ↦ (ground arith, λ j. ground (arith, get-put id j step.1 m))
    ]
      where
        get-put-put :
            (i j : Key)
            → get j (put i step.1 (put i (new_state i knowledge_package registered) m))
              ≡ (if i == j then some step.1 else get j m)
        get-put-put i j = ground (
          arith,
          get-put i j step.1 (put i (new_state i knowledge_package registered) m),
          get-put i j (new_state i knowledge_package registered) m,
        )

    -- A call keeps the account of every entity, unless `dict.update` raises on the metadata.
    pub transition-AllConsistent :
        AllConsistent m → call.0 ≢ err bad_metadata → AllConsistent call.1
    transition-AllConsistent h fits j s found =
        let (r, gets) = transition-get in
        elim (Bool-cases (id == j)) [
          | inl self ↦
              let (initial, before) = state_of-IsConsistent m id h in
              let same_state : step.1 ≡ s = ground (arith, gets j) in
              (
                initial,
                subst (IsConsistent initial) same_state (
                    transition_state-IsConsistent J engine graph (state_of m id) target event_id
                      context updates initial before (subst (λ x. x ≢ err bad_metadata) r fits)),
              )
          | inr other ↦ h j s (ground (arith, gets j))
        ]

    -- A call that raises an InvalidStateTransitionError leaves every entity as it was, up to
    -- creating its own in REGISTERED.
    pub transition-refused :
        (e : TransitionError)
        → call.0 ≡ err e
        → is_invalid_transition e ≡ true
        → (j : Key) → get j call.1 ≡ (if id == j then some (state_of m id) else get j m)
    transition-refused e h invalid j =
        let (r, gets) = transition-get in
        let kept =
          transition_state-refused J engine graph (state_of m id) target event_id context updates e
            (cc (r, h)) invalid in
        ground (arith, gets j, kept)

-- On the lifecycle graph of models.py the status of an entity after a call is the one with which
-- the call began, or one of a higher rank.
pub transition-rank :
    (J : Json) (engine : RuleEngine (Dict J.Value)) (m : Machine J.Value) (id : Key)
    (target : PackageStatus) (event_id : Key) (context : Dict J.Value) (updates : Option J.Value)
    (s : EntityState J.Value)
    → get id (transition J engine package_lifecycle_graph m id target event_id context updates).1
      ≡ some s
    → (s.current_status ≡ (state_of m id).current_status)
      ⊎ (rank (state_of m id).current_status < rank s.current_status)
transition-rank J engine m id target event_id context updates s found =
    let (r, gets) =
      transition-get J engine package_lifecycle_graph m id target event_id context updates in
    let after =
      transition_state J engine package_lifecycle_graph (state_of m id) target event_id context
        updates in
    let is_step : after.1 ≡ s = ground (arith, gets id) in
    elim (transition_state-Moves J engine package_lifecycle_graph (state_of m id) target event_id
      context updates) [
        | inl stays ↦ inl (cc (stays, is_step))
        | inr edge ↦ inr (
            subst
              (λ (x : EntityState J.Value).
                rank (state_of m id).current_status < rank x.current_status)
              is_step (IsEdge-rank (state_of m id).current_status after.1.current_status edge))
      ]

-- ===== src/Pipeline/Replay.antt =====
-- services/event_pipeline.py: `replay_ledger`.
use bhiv_masterdb_ingestion.Prelude.{
  ℕ, suc, ◌+◌, ◌≡◌, true, false, Option, none, some, List, [], ◌∷◌, arith, Key, Result, ok, err,
  elem, length, truthy, if◌then◌else◌,
}
use bhiv_masterdb_ingestion.Prelude.Dict.{Dict, get}
use bhiv_masterdb_ingestion.Json.{Json}
use bhiv_masterdb_ingestion.Lifecycle.{PackageStatus, registered}
use bhiv_masterdb_ingestion.Rules.{RuleEngine}
use bhiv_masterdb_ingestion.Machine.{
  EntityState, Machine, Canonical, TransitionError, canonical_dict, get_or_create_state, transition,
}
use bhiv_masterdb_ingestion.Ledger.{Ledger, PravahEvent, PravahLedgerEntry}
use bhiv_masterdb_ingestion.Ledger.Query.{get_replay_stream}
use bhiv_masterdb_ingestion.Pipeline.{metadata_key}

pub record ReplayRequest : Type 0 where
  pub from_sequence : ℕ
  pub to_sequence : Option ℕ
  pub topic : Option Key
  pub entity_id : Option Key

pub record Counts : Type 0 where
  pub replayed : ℕ
  pub skipped_duplicate : ℕ
  pub failed : ℕ

pub record ReplayResponse (V : Type 0) : Type 0 where
  pub counts : Counts
  pub state_hash : Key
  pub entries : List (PravahLedgerEntry V TransitionError)

-- The entity id "unknown".
abbrev pub unknown : Key
unknown = 18

module _ (J : Json) (engine : RuleEngine (Dict J.Value))
    (graph : PackageStatus → List PackageStatus) (state_hash : Canonical J.Value → Key)
    (zeros : Key) where
  open J use {Value}

  abbrev count_result :
      Counts → Result TransitionError (EntityState Value) × Machine Value → Counts × Machine Value
  count_result c (ok s, m) = (record c { replayed = c.replayed + 1 }, m)
  count_result c (err e, m) = (record c { failed = c.failed + 1 }, m)

  -- The body of the loop. Only an explicit target is replayed.
  unfoldable pub replay_event : PravahEvent Value → Counts × Machine Value → Counts × Machine Value
  replay_event event (c, m) =
      let (state, m') = get_or_create_state m event.entity_id event.entity_type registered in
      if elem event.event_id state.applied_events
      then (record c { skipped_duplicate = c.skipped_duplicate + 1 }, m')
      else elim event.target_status [
        | none ↦ (record c { replayed = c.replayed + 1 }, m')
        | some target ↦ count_result c (
            transition J engine graph m' event.entity_id target event.event_id event.payload
              (get metadata_key event.payload))
      ]

  unfoldable pub replay_events :
      List (PravahLedgerEntry Value TransitionError)
      → Counts × Machine Value
      → Counts × Machine Value
  unfolding replay_event
  replay_events [] acc = acc
  replay_events (e ∷ es) acc = replay_events es (replay_event e.event acc)

  -- `request.entity_id or (entries[0].event.entity_id if entries else "unknown")`
  abbrev pub entity_of : Option Key → List (PravahLedgerEntry Value TransitionError) → Key
  entity_of none [] = unknown
  entity_of none (e ∷ es) = e.event.entity_id
  entity_of (some k) [] = if truthy k then k else unknown
  entity_of (some k) (e ∷ es) = if truthy k then k else e.event.entity_id

  pub replay_ledger :
      Ledger Value TransitionError
      → Machine Value
      → ReplayRequest
      → ReplayResponse Value × Machine Value
  unfolding replay_events get_replay_stream
  replay_ledger l m request =
      let entries =
        get_replay_stream l request.from_sequence request.to_sequence request.topic
          request.entity_id in
      let (counts, m') =
        replay_events entries (record { replayed = 0; skipped_duplicate = 0; failed = 0 }, m) in
      let final_hash : Key = elim (get (entity_of request.entity_id entries) m') [
        | none ↦ zeros
        | some s ↦ state_hash (canonical_dict s)
      ] in
      (record { counts = counts; state_hash = final_hash; entries = entries }, m')

  abbrev pub total : Counts → ℕ
  total c = c.replayed + c.skipped_duplicate + c.failed

  replay_event-total :
      (event : PravahEvent Value) (c : Counts) (m : Machine Value)
      → total (replay_event event (c, m)).0 ≡ total c + 1
  unfolding replay_event
  replay_event-total event c m = ground arith

  -- Each entry is counted once: as replayed, as a duplicate or as failed.
  pub replay_events-total :
      (es : List (PravahLedgerEntry Value TransitionError)) (c : Counts) (m : Machine Value)
      → total (replay_events es (c, m)).0 ≡ total c + length es
  unfolding replay_events
  replay_events-total [] c m = omega arith
  replay_events-total (e ∷ es) c m =
      let (c', m') = replay_event e.event (c, m) in
      omega (arith, replay_events-total es c' m', replay_event-total e.event c m)

  -- Every event of the list has been applied to its entity.
  abbrev pub AllApplied : List (PravahLedgerEntry Value TransitionError) → Machine Value → Type 0
  AllApplied [] m = Unit
  AllApplied (e ∷ es) m =
      ((s : EntityState Value) × (get e.event.entity_id m ≡ some s)
        × (elem e.event.event_id s.applied_events ≡ true))
      × AllApplied es m

  -- A replay of events that have all been applied skips each of them and changes no entity.
  pub replay_events-AllApplied :
      (es : List (PravahLedgerEntry Value TransitionError)) (c : Counts) (m : Machine Value)
      → AllApplied es m
      → replay_events es (c, m)
        ≡ (record c { skipped_duplicate = c.skipped_duplicate + length es }, m)
  unfolding replay_events
  replay_events-AllApplied [] c m h =
      let none_more : c.skipped_duplicate + 0 ≡ c.skipped_duplicate = omega arith in rw none_more
  replay_events-AllApplied (e ∷ es) c m ((s, found, applied), rest) =
      let c' : Counts = record c { skipped_duplicate = c.skipped_duplicate + 1 } in
      let first : replay_event e.event (c, m) ≡ (c', m) =
        unfold replay_event in ground (arith, found, applied) in
      let more : c.skipped_duplicate + 1 + length es ≡ c.skipped_duplicate + suc (length es) =
        omega arith in
      rw first (ground (arith, replay_events-AllApplied es c' m rest, more))

  -- An event whose target is only implied by its type is counted as replayed, and its entity is not
  -- moved.
  pub replay_event-implicit :
      (event : PravahEvent Value) (c : Counts) (m : Machine Value) (s : EntityState Value)
      → event.target_status ≡ none
      → get event.entity_id m ≡ some s
      → elem event.event_id s.applied_events ≡ false
      → replay_event event (c, m) ≡ (record c { replayed = c.replayed + 1 }, m)
  unfolding replay_event
  replay_event-implicit event c m s implied found new = ground arith

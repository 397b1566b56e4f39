-- ===== src/Packages/Replay.antt =====
-- services/package_registry_service.py: `replay` of a history, and `audit_completeness`.
use bhiv_masterdb_ingestion.Prelude.{
  ℕ, ◌+◌, Bool, true, false, not, ◌&&◌, Option, none, some, List, [], ◌∷◌, ◌++◌, Key, Result, ok,
  err, ltb, length, truthy, is_some, if◌then◌else◌, ◌==◌,
}
use bhiv_masterdb_ingestion.Prelude.Dict.{get}
use bhiv_masterdb_ingestion.Lifecycle.{PackageStatus, package_lifecycle_graph, same, among}
use bhiv_masterdb_ingestion.Packages.{
  KnowledgePackage, PackageTransition, RegistryError, package_not_found, illegal_hop,
  replay_mismatch, Registry,
}

-- The loop of `replay` after the first transition.
abbrev pub walk : PackageStatus → List PackageTransition → Result RegistryError PackageStatus
walk s [] = ok s
walk s (t ∷ ts) =
    if among t.to_status (package_lifecycle_graph s)
    then walk t.to_status ts
    else err (illegal_hop t.transition_id)

abbrev pub replay_history : List PackageTransition → Result RegistryError (Option PackageStatus)
replay_history [] = ok none
replay_history (t ∷ ts) = elim (walk t.to_status ts) [ ok s ↦ ok (some s) | err e ↦ err e ]

abbrev pub compare_status :
    KnowledgePackage → Option PackageStatus → Result RegistryError PackageStatus
compare_status p none = err (replay_mismatch p.status none)
compare_status p (some s) =
    if same s p.status then ok s else err (replay_mismatch p.status (some s))

abbrev pub replay_package : KnowledgePackage → Result RegistryError PackageStatus
replay_package p = elim (replay_history p.history) [ err e ↦ err e | ok o ↦ compare_status p o ]

unfoldable pub replay : Registry → Key → Result RegistryError PackageStatus
replay r id = elim (get id r) [ none ↦ err (package_not_found id) | some p ↦ replay_package p ]

pub data Issue : Type 0 where
  history_is_empty first_not_root : Issue
  root_count : ℕ → Issue
  missing_actor missing_reason out_of_order : Key → Issue

abbrev pub roots : List PackageTransition → ℕ
roots [] = 0
roots (t ∷ ts) = elim t.from_status [ none ↦ roots ts + 1 | some _ ↦ roots ts ]

abbrev issue_if : Bool → Issue → List Issue
issue_if true i = i ∷ []
issue_if false i = []

-- `previous_timestamp and transition.timestamp < previous_timestamp`
abbrev pub is_out_of_order : Option Key → Key → Bool
is_out_of_order none t = false
is_out_of_order (some p) t = truthy p && ltb t p

abbrev pub own_issues : Option Key → PackageTransition → List Issue
own_issues previous t =
    issue_if (not (truthy t.actor)) (missing_actor t.transition_id)
    ++ issue_if (not (truthy t.reason)) (missing_reason t.transition_id)
    ++ issue_if (is_out_of_order previous t.timestamp) (out_of_order t.transition_id)

-- The loop over the history.
abbrev pub transition_issues : Option Key → List PackageTransition → List Issue
transition_issues previous [] = []
transition_issues previous (t ∷ ts) =
    own_issues previous t ++ transition_issues (some t.timestamp) ts

-- For a number of roots, and the first transition.
abbrev pub root_issues : ℕ → PackageTransition → List Issue
root_issues n t =
    issue_if (not (n == 1)) (root_count n) ++ issue_if (is_some t.from_status) first_not_root

abbrev pub issues : List PackageTransition → List Issue
issues [] = history_is_empty ∷ []
issues (t ∷ ts) = root_issues (roots (t ∷ ts)) t ++ transition_issues none (t ∷ ts)

pub record Completeness : Type 0 where
  pub complete : Bool
  pub issues : List Issue
  pub replay_consistent : Bool
  pub transition_count : ℕ

abbrev is_empty : List Issue → Bool
is_empty [] = true
is_empty (_ ∷ _) = false

abbrev is_ok : Result RegistryError PackageStatus → Bool
is_ok (ok _) = true
is_ok (err _) = false

abbrev pub completeness_of : KnowledgePackage → Completeness
completeness_of p = record {
  complete = is_empty (issues p.history);
  issues = issues p.history;
  replay_consistent = is_ok (replay_package p);
  transition_count = length p.history;
}

unfoldable pub audit_completeness : Registry → Key → Result RegistryError Completeness
audit_completeness r id = elim (get id r) [
  | none ↦ err (package_not_found id)
  | some p ↦ ok (completeness_of p)
]

-- ===== src/Lifecycle/Search.antt =====
-- services/event_pipeline.py: `EventPipeline._find_lifecycle_path`, a breadth-first search over
-- whole paths.
use bhiv_masterdb_ingestion.Prelude.{
  ℕ, zero, suc, Option, none, some, List, [], ◌∷◌, ◌++◌, last?, if◌then◌else◌,
}
use bhiv_masterdb_ingestion.Lifecycle.{PackageStatus, package_lifecycle_graph, same, among}

-- How the `for` over the neighbours ends: by the `return`, or with the queue and the visited set.
pub data Scan : Type 0 where
  found : List PackageStatus → Scan
  going_on : List (List PackageStatus) → List PackageStatus → Scan

abbrev pub expand :
    PackageStatus
    → List PackageStatus
    → List PackageStatus
    → List (List PackageStatus)
    → List PackageStatus
    → Scan
expand goal path [] queue visited = going_on queue visited
expand goal path (neighbor ∷ rest) queue visited =
    if same neighbor goal
    then found (path ++ neighbor ∷ [])
    else expand goal path rest
        (if among neighbor visited then queue else queue ++ (path ++ neighbor ∷ []) ∷ [])
        (if among neighbor visited then visited else neighbor ∷ visited)

-- `PACKAGE_LIFECYCLE_GRAPH.get(current_path[-1], [])`; no path in the queue is empty.
abbrev pub neighbors : List PackageStatus → List PackageStatus
neighbors path = elim (last? path) [ none ↦ [] | some node ↦ package_lifecycle_graph node ]

-- The `while queue`, one unit of fuel for each path that is popped.
abbrev pub search_from :
    ℕ → PackageStatus → List (List PackageStatus) → List PackageStatus → Option (List PackageStatus)
search_from zero goal queue visited = none
search_from (suc fuel) goal [] visited = none
search_from (suc fuel) goal (path ∷ queue) visited =
    elim (expand goal path (neighbors path) queue visited) [
      | found route ↦ some route
      | going_on queue' visited' ↦ search_from fuel goal queue' visited'
    ]

-- A status is queued once at most, so nine rounds empty the queue.
unfoldable pub find_lifecycle_path : PackageStatus → PackageStatus → Option (List PackageStatus)
find_lifecycle_path start goal =
    if same start goal
    then some (start ∷ [])
    else search_from 9 goal ((start ∷ []) ∷ []) (start ∷ [])

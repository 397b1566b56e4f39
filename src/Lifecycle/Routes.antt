-- ===== src/Lifecycle/Routes.antt =====
-- services/event_pipeline.py: the search of `_find_lifecycle_path`, against the routes of the
-- lifecycle graph.
use bhiv_masterdb_ingestion.Prelude.{
  suc, ◌+◌, ◌≤◌, ◌≡◌, refl, subst, Bool, true, false, ◌&&◌, not, ◌||◌, Option, none, some, List, [],
  ◌∷◌, arith, leb, length, inl, inr, Option-cases, sym,
}
use bhiv_masterdb_ingestion.Lifecycle.{
  PackageStatus, package_lifecycle_graph, same, among, IsEdge, rank, same→eq, IsEdge-rank,
  all_statuses, all_statuses_sound,
}
use bhiv_masterdb_ingestion.Lifecycle.Search.{find_lifecycle_path}

-- A walk along edges, with the statuses that it visits.
pub data Route : PackageStatus → PackageStatus → List PackageStatus → Type 0 where
  stop : (s : PackageStatus) → Route s s (s ∷ [])
  step :
      (s : PackageStatus) {u t : PackageStatus} {p : List PackageStatus}
      → IsEdge s u
      → Route u t p
      → Route s t (s ∷ p)

-- A walk never comes back: with every status it climbs.
pub Route-rank :
    {s t : PackageStatus} {p : List PackageStatus} → Route s t p → rank s + length p ≤ rank t + 1
Route-rank (stop s) = omega arith
Route-rank (step s {u} e r) = omega (arith, IsEdge-rank s u e, Route-rank r)

is_route : PackageStatus → PackageStatus → List PackageStatus → Bool
is_route s t [] = false
is_route s t (x ∷ []) = same x s && same x t
is_route s t (x ∷ y ∷ p) = same x s && among y (package_lifecycle_graph x) && is_route y t (y ∷ p)

is_route_sound :
    (s t : PackageStatus) (p : List PackageStatus) → is_route s t p ≡ true → Route s t p
unfolding is_route
is_route_sound s t [] h = cc
is_route_sound s t (x ∷ []) h =
    subst (λ y. Route y t (x ∷ [])) (same→eq x s (ground arith))
      (subst (λ y. Route x y (x ∷ [])) (same→eq x t (ground arith)) (stop x))
is_route_sound s t (x ∷ y ∷ p) h =
    subst (λ z. Route z t (x ∷ y ∷ p)) (same→eq x s (ground arith))
      (step x {u = y} (ground arith) (is_route_sound y t (y ∷ p) (ground arith)))

-- Every answer of the search is a route.
answer_ok : PackageStatus → PackageStatus → Bool
answer_ok s t = elim (find_lifecycle_path s t) [ none ↦ true | some p ↦ is_route s t p ]

answers_ok : all_statuses (λ s. all_statuses (λ t. answer_ok s t)) ≡ true
unfolding all_statuses answer_ok is_route find_lifecycle_path
answers_ok = refl

-- From an edge on, an answer further down bounds the answer at its start.
shorter : Option (List PackageStatus) → Option (List PackageStatus) → Bool
shorter none _ = true
shorter (some q) none = false
shorter (some q) (some p) = leb (length p) (suc (length q))

edge_ok : PackageStatus → PackageStatus → PackageStatus → Bool
edge_ok s u t =
    not (among u (package_lifecycle_graph s))
    || shorter (find_lifecycle_path u t) (find_lifecycle_path s t)

edges_ok : all_statuses (λ s. all_statuses (λ u. all_statuses (λ t. edge_ok s u t))) ≡ true
unfolding all_statuses edge_ok shorter find_lifecycle_path
edges_ok = refl

search-edge :
    (s u t : PackageStatus) (q : List PackageStatus)
    → IsEdge s u
    → find_lifecycle_path u t ≡ some q
    → (p : List PackageStatus) × (find_lifecycle_path s t ≡ some p) × (length p ≤ suc (length q))
unfolding edge_ok shorter
search-edge s u t q e h =
    let checked =
      all_statuses_sound _ (all_statuses_sound _ (all_statuses_sound _ edges_ok s) u) t in
    elim (Option-cases (find_lifecycle_path s t)) [
      | inl missing ↦ ground (arith, checked)
      | inr (p, some_p) ↦ (p, some_p, ground (arith, checked))
    ]

search-stop : (s : PackageStatus) → find_lifecycle_path s s ≡ some (s ∷ [])
unfolding find_lifecycle_path
search-stop s = ground arith

-- Whatever route there is, the search answers, and no longer.
Route-search :
    {s t : PackageStatus} {q : List PackageStatus}
    → Route s t q
    → (p : List PackageStatus) × (find_lifecycle_path s t ≡ some p) × (length p ≤ length q)
Route-search (stop s) = (s ∷ [], search-stop s, omega arith)
Route-search (step s {u} {t} e r) =
    let (q, eq, le) = Route-search r in
    let (p, ep, lp) = search-edge s u t q e eq in (p, ep, omega arith)

abbrev pub IsShortest : PackageStatus → PackageStatus → Option (List PackageStatus) → Type 0
IsShortest s t none = (q : List PackageStatus) → ¬ Route s t q
IsShortest s t (some p) =
    Route s t p × ((q : List PackageStatus) → Route s t q → length p ≤ length q)

by_answer :
    (s t : PackageStatus) (o : Option (List PackageStatus))
    → find_lifecycle_path s t ≡ o
    → IsShortest s t o
unfolding answer_ok
by_answer s t none h = λ q r. let (p, ep, _) = Route-search r in cc
by_answer s t (some p) h =
    let checked = all_statuses_sound _ (all_statuses_sound _ answers_ok s) t in
    (
      is_route_sound s t p (rw (h, answer_ok) at checked),
      λ q r.
          let (p', ep, le) = Route-search r in
          let same_answer : p ≡ p' = cc in subst (λ x. length x ≤ length q) (sym same_answer) le,
    )

-- For every two statuses the search returns a shortest route of the lifecycle graph between them,
-- or nothing, and then there is no route.
pub find_lifecycle_path-IsShortest :
    (s t : PackageStatus) → IsShortest s t (find_lifecycle_path s t)
find_lifecycle_path-IsShortest s t = by_answer s t (find_lifecycle_path s t) refl

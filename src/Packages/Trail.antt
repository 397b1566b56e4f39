-- ===== src/Packages/Trail.antt =====
-- services/package_registry_service.py: the history of a package as a walk of the lifecycle graph.
use bhiv_masterdb_ingestion.Prelude.{
  ◌≡◌, refl, sym, subst, ◌⊎◌, ◌↔◌, inl, inr, true, false, Option, none, some, List, [], ◌∷◌, ◌++◌,
  arith, Key, Result, ok, err, ◌==◌, ==→eq, Bool-cases, Option-cases, is_some,
}
use bhiv_masterdb_ingestion.Prelude.Dict.{get, put, get-put}
use bhiv_masterdb_ingestion.Lifecycle.{
  PackageStatus, registered, package_lifecycle_graph, same_refl, among, IsEdge,
}
use bhiv_masterdb_ingestion.Packages.{
  PackageTransition, KnowledgePackage, PackageRegisterRequest, RegistryError, Registry, Fresh,
  ReportService, new_package, named, register, promote, promoted, blocked, blocked_error,
  new_transition, package_already_exists, package_not_found, invalid_transition,
}
use bhiv_masterdb_ingestion.Packages.Replay.{walk, replay_package, replay}

-- From a status, or from none at the root, each transition leads on from the one before, along an
-- edge of the graph, the root into REGISTERED, and the last into this status.
abbrev pub IsTrail : Option PackageStatus → List PackageTransition → PackageStatus → Type 0
IsTrail from [] status = from ≡ some status
IsTrail none (t ∷ ts) status =
    (t.from_status ≡ none) × (t.to_status ≡ registered) × IsTrail (some t.to_status) ts status
IsTrail (some s) (t ∷ ts) status =
    (t.from_status ≡ some s) × IsEdge s t.to_status × IsTrail (some t.to_status) ts status

-- Every package is stored under its own id and has a trail to its status.
abbrev pub AllTrails : Registry → Type 0
AllTrails r =
    (id : Key) (p : KnowledgePackage)
    → get id r ≡ some p
    → (p.package_id ≡ id) × IsTrail none p.history p.status

IsTrail-append_one :
    (from : Option PackageStatus) (ts : List PackageTransition) (s : PackageStatus)
    (t : PackageTransition)
    → IsTrail from ts s
    → t.from_status ≡ some s
    → IsEdge s t.to_status
    → IsTrail from (ts ++ t ∷ []) t.to_status
IsTrail-append_one none [] s t h link edge = cc
IsTrail-append_one (some u) [] s t h link edge =
    let here : s ≡ u = cc in (rw (sym here) link, subst (λ x. IsEdge x t.to_status) here edge, refl)
IsTrail-append_one none (u ∷ ts) s t (a, b, h) link edge =
    (a, b, IsTrail-append_one (some u.to_status) ts s t h link edge)
IsTrail-append_one (some v) (u ∷ ts) s t (a, b, h) link edge =
    (a, b, IsTrail-append_one (some u.to_status) ts s t h link edge)

walk-IsTrail :
    (s : PackageStatus) (ts : List PackageTransition) (status : PackageStatus)
    → IsTrail (some s) ts status
    → walk s ts ≡ ok status
walk-IsTrail s [] status h = ground arith
walk-IsTrail s (t ∷ ts) status (link, edge, h) =
    let rest = walk-IsTrail t.to_status ts status h in ground arith

-- A package with a trail is replayed to its status.
replay_package-IsTrail :
    (p : KnowledgePackage) → IsTrail none p.history p.status → replay_package p ≡ ok p.status
replay_package-IsTrail p h = by_history p.history refl h
  where
    by_history :
        (ts : List PackageTransition)
        → p.history ≡ ts
        → IsTrail none ts p.status
        → replay_package p ≡ ok p.status
    by_history [] e trail = cc
    by_history (t ∷ ts) e (_, _, trail) =
        let walked = walk-IsTrail t.to_status ts p.status trail in
        let stays = same_refl p.status in ground arith

put-AllTrails :
    (r : Registry) (p : KnowledgePackage)
    → AllTrails r
    → IsTrail none p.history p.status
    → AllTrails (put p.package_id p r)
put-AllTrails r p h trail id q found = elim (Bool-cases (p.package_id == id)) [
  | inl self ↦
      let is_new : p ≡ q = ground (arith, get-put p.package_id id p r) in
      subst (λ x. (x.package_id ≡ id) × IsTrail none x.history x.status) is_new
        (==→eq p.package_id id self, trail)
  | inr other ↦ h id q (ground (arith, get-put p.package_id id p r))
]

-- Registering keeps every package of the registry on a trail to its status.
pub register-AllTrails :
    (r : Registry) (request : PackageRegisterRequest) (fresh : Fresh)
    → AllTrails r
    → AllTrails (register r request fresh).1
unfolding register
register-AllTrails r request fresh h = elim (Option-cases (named request.package_id)) [
  | inl unnamed ↦
      let new = new_package fresh.package_id request fresh in
      let shape : register r request fresh ≡ (ok new, put new.package_id new r) = ground arith in
      rw shape (put-AllTrails r (new_package fresh.package_id request fresh) h (refl, refl, refl))
  | inr (id, is_named) ↦ elim (Bool-cases (is_some (get id r))) [
    | inl taken ↦
        let shape : register r request fresh ≡ (err (package_already_exists id), r) =
          ground arith in
        rw shape h
    | inr free ↦
        let new = new_package id request fresh in
        let shape : register r request fresh ≡ (ok new, put new.package_id new r) = ground arith in
        rw shape (put-AllTrails r (new_package id request fresh) h (refl, refl, refl))
  ]
]

module _ (service : Option ReportService) (r : Registry) (id : Key) (to_status : PackageStatus)
    (actor reason : Key) (fresh : Fresh) where
  abbrev call : Result RegistryError KnowledgePackage × Registry
  call = promote service r id to_status actor reason fresh

  -- The package may be promoted.
  abbrev pub MayPromote : KnowledgePackage → Type 0
  MayPromote p =
      (get id r ≡ some p)
      × IsEdge p.status to_status
      × (blocked service p.dataset_id to_status ≡ false)

  -- A promotion writes the promoted package, or it raises and writes nothing.
  pub promote-branches :
      ((p : KnowledgePackage) × MayPromote p
        × (call ≡ (
          ok (promoted p to_status actor reason fresh),
          put p.package_id (promoted p to_status actor reason fresh) r,
        )))
      ⊎ ((e : RegistryError) × (call ≡ (err e, r)) × ((p : KnowledgePackage) → ¬ MayPromote p))
  unfolding promote
  promote-branches = elim (Option-cases (get id r)) [
    | inl missing ↦ inr (package_not_found id, ground arith, λ p (found, _, _). cc)
    | inr (p, found) ↦ elim (Bool-cases (among to_status (package_lifecycle_graph p.status))) [
      | inr illegal ↦ inr (
        invalid_transition id p.status to_status,
        ground arith,
        λ q may. illegal_lem p q found illegal may,
      )
      | inl edge ↦ elim (Bool-cases (blocked service p.dataset_id to_status)) [
        | inl stopped ↦ inr (
          blocked_error service p.dataset_id id to_status,
          ground arith,
          λ q may. stopped_lem p q found stopped may,
        )
        | inr free ↦ inl (p, (found, edge, free), ground arith)
      ]
    ]
  ]
    where
      illegal_lem :
          (p q : KnowledgePackage)
          → get id r ≡ some p
          → among to_status (package_lifecycle_graph p.status) ≡ false
          → ¬ MayPromote q
      illegal_lem p q found not_so (found', edge, _) =
          let eq : q ≡ p = cc in
          let edge' = subst (λ x. IsEdge x.status to_status) eq edge in cc (not_so, edge')

      stopped_lem :
          (p q : KnowledgePackage)
          → get id r ≡ some p
          → blocked service p.dataset_id to_status ≡ true
          → ¬ MayPromote q
      stopped_lem p q found not_so (found', _, free) =
          let eq : q ≡ p = cc in
          let free' = subst (λ x. blocked service x.dataset_id to_status ≡ false) eq free in
          cc (not_so, free')

  -- Promoting keeps every package of the registry on a trail to its status, whether the promotion is
  -- carried out or refused.
  pub promote-AllTrails : AllTrails r → AllTrails call.1
  promote-AllTrails h = elim promote-branches [
    | inr (e, refused, _) ↦ rw refused h
    | inl (p, (found, edge, _), written) ↦
        let (keyed, trail) = h id p found in
        rw written (
          put-AllTrails r (promoted p to_status actor reason fresh) h (
            IsTrail-append_one none p.history p.status
              (new_transition (some p.status) to_status reason actor fresh) trail refl edge))
  ]

  -- A package is promoted exactly if it is stored, its status has an edge to the new one, and no
  -- report blocks the certifying statuses.
  pub promote-ok_iff :
      ((q : KnowledgePackage) × (call.0 ≡ ok q)) ↔ ((p : KnowledgePackage) × MayPromote p)
  promote-ok_iff = elim promote-branches [
    | inl (p, may, written) ↦
        (λ _. (p, may), λ _. (promoted p to_status actor reason fresh, ground arith))
    | inr (e, refused, never) ↦
        (λ (q, accepted). cc (accepted, refused), λ (p, may). absurd (never p may))
  ]

-- In a registry whose packages have trails, `replay` rebuilds the stored status of every package
-- from its history alone.
pub replay-AllTrails :
    (r : Registry) (id : Key) (p : KnowledgePackage)
    → AllTrails r
    → get id r ≡ some p
    → replay r id ≡ ok p.status
unfolding replay
replay-AllTrails r id p h found =
    let (_, trail) = h id p found in let replayed = replay_package-IsTrail p trail in ground arith

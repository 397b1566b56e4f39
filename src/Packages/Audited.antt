-- ===== src/Packages/Audited.antt =====
-- services/package_registry_service.py: `audit_completeness` of what the registry writes.
use bhiv_masterdb_ingestion.Prelude.{
  ◌≡◌, ◌∙◌, ap, refl, true, false, Option, none, some, List, [], ◌∷◌, ◌++◌, arith, Key, truthy,
  is_some,
}
use bhiv_masterdb_ingestion.Lifecycle.{PackageStatus}
use bhiv_masterdb_ingestion.Packages.{
  PackageTransition, KnowledgePackage, PackageRegisterRequest, Fresh, new_package, promoted,
  new_transition,
}
use bhiv_masterdb_ingestion.Packages.Replay.{
  roots, transition_issues, issues, is_out_of_order, own_issues, root_issues,
}

-- The time of the last transition.
abbrev pub last_time : Option Key → List PackageTransition → Option Key
last_time previous [] = previous
last_time previous (t ∷ ts) = last_time (some t.timestamp) ts

append_nil : {A : Type 0} (xs ys : List A) → xs ≡ [] → ys ≡ [] → xs ++ ys ≡ []
append_nil xs ys p q = ground arith

nil_append : {A : Type 0} (xs ys : List A) → xs ++ ys ≡ [] → (xs ≡ []) × (ys ≡ [])
nil_append [] ys h = (refl, h)
nil_append (x ∷ xs) ys h = cc

transition_issues-append_one :
    (previous : Option Key) (ts : List PackageTransition) (t : PackageTransition)
    → transition_issues previous ts ≡ []
    → truthy t.actor ≡ true
    → truthy t.reason ≡ true
    → is_out_of_order (last_time previous ts) t.timestamp ≡ false
    → transition_issues previous (ts ++ t ∷ []) ≡ []
transition_issues-append_one previous [] t h actor reason order = ground arith
transition_issues-append_one previous (u ∷ ts) t h actor reason order =
    let (own, later) =
      nil_append (own_issues previous u) (transition_issues (some u.timestamp) ts) h in
    append_nil (own_issues previous u) (transition_issues (some u.timestamp) (ts ++ t ∷ [])) own
      (transition_issues-append_one (some u.timestamp) ts t later actor reason order)

roots-append_one :
    (ts : List PackageTransition) (t : PackageTransition)
    → is_some t.from_status ≡ true
    → roots (ts ++ t ∷ []) ≡ roots ts
roots-append_one [] t h = ground arith
roots-append_one (u ∷ ts) t h = let rest = roots-append_one ts t h in ground (arith, rest)

-- A package that is registered by an actor who is named, with a reason, has no audit issue.
pub new_package-issues :
    (id : Key) (request : PackageRegisterRequest) (fresh : Fresh)
    → truthy request.actor ≡ true
    → truthy request.reason ≡ true
    → issues (new_package id request fresh).history ≡ []
new_package-issues id request fresh actor reason = ground arith

issues-append_one :
    (ts : List PackageTransition) (t : PackageTransition)
    → issues ts ≡ []
    → is_some t.from_status ≡ true
    → truthy t.actor ≡ true
    → truthy t.reason ≡ true
    → is_out_of_order (last_time none ts) t.timestamp ≡ false
    → issues (ts ++ t ∷ []) ≡ []
issues-append_one [] t h linked actor reason order = ground arith
issues-append_one (u ∷ ts) t h linked actor reason order =
    let (root, later) =
      nil_append (root_issues (roots (u ∷ ts)) u) (transition_issues none (u ∷ ts)) h in
    let counted = roots-append_one (u ∷ ts) t linked in
    append_nil (root_issues (roots (u ∷ ts ++ t ∷ [])) u)
      (transition_issues none (u ∷ ts ++ t ∷ [])) (ap (λ n. root_issues n u) counted ∙ root)
      (transition_issues-append_one none (u ∷ ts) t later actor reason order)

-- A promotion by an actor who is named, with a reason, at a time that is not before the last
-- transition leaves a package without audit issues without audit issues.
pub promoted-issues :
    (p : KnowledgePackage) (to_status : PackageStatus) (actor reason : Key) (fresh : Fresh)
    → issues p.history ≡ []
    → truthy actor ≡ true
    → truthy reason ≡ true
    → is_out_of_order (last_time none p.history) fresh.timestamp ≡ false
    → issues (promoted p to_status actor reason fresh).history ≡ []
promoted-issues p to_status actor reason fresh h named given order =
    issues-append_one p.history (new_transition (some p.status) to_status reason actor fresh) h refl
      named given order

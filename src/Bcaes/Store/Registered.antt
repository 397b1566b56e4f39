-- ===== src/Bcaes/Store/Registered.antt =====
-- bcaes_registry/store.py: which dependencies of which objects are registered.
use bhiv_masterdb_ingestion.Prelude.{
  ◌≡◌, refl, ◌↔◌, inl, inr, true, none, List, [], ◌∷◌, ◌++◌, Key, is_some, arith, Option-cases,
}
use bhiv_masterdb_ingestion.Bcaes.Models.{
  RegistryType, registry_types, DependencyRef, RegistryObject,
}
use bhiv_masterdb_ingestion.Bcaes.Store.{
  CanonicalRegistryStore, persist, first_found, get_by_id, exists_id, missing_dependency,
  objects_of, all_objects,
}

-- The loops below look at the dictionaries only.
pub persist-first_found :
    (o : RegistryObject) (s : CanonicalRegistryStore) (k : Key) (ts : List RegistryType)
    → first_found (persist o s) k ts ≡ first_found s k ts
unfolding first_found persist
persist-first_found o s k [] = refl
persist-first_found o s k (t ∷ ts) = ground (arith, persist-first_found o s k ts)

pub persist-objects_of :
    (o : RegistryObject) (s : CanonicalRegistryStore) (ts : List RegistryType)
    → objects_of (persist o s) ts ≡ objects_of s ts
unfolding objects_of persist
persist-objects_of o s [] = refl
persist-objects_of o s (t ∷ ts) = ground (arith, persist-objects_of o s ts)

-- Each dependency of the list is registered.
abbrev pub AreRegistered : CanonicalRegistryStore → List DependencyRef → Type 0
AreRegistered s [] = Unit
AreRegistered s (d ∷ ds) = (is_some (first_found s d.id registry_types) ≡ true) × AreRegistered s ds

abbrev pub AllRegistered : CanonicalRegistryStore → List RegistryObject → Type 0
AllRegistered s [] = Unit
AllRegistered s (o ∷ os) = AreRegistered s o.dependencies × AllRegistered s os

abbrev pub IsIntegral : CanonicalRegistryStore → Type 0
IsIntegral s = AllRegistered s (all_objects s)

-- Whatever is found in the first store is found in the second.
abbrev pub Extends : CanonicalRegistryStore → CanonicalRegistryStore → Type 0
Extends s s' =
    (k : Key)
    → is_some (first_found s k registry_types) ≡ true
    → is_some (first_found s' k registry_types) ≡ true

pub AreRegistered-Extends :
    (s s' : CanonicalRegistryStore) (ds : List DependencyRef)
    → Extends s s'
    → AreRegistered s ds
    → AreRegistered s' ds
AreRegistered-Extends s s' [] x h = tt
AreRegistered-Extends s s' (d ∷ ds) x (h, rest) = (x d.id h, AreRegistered-Extends s s' ds x rest)

pub AllRegistered-Extends :
    (s s' : CanonicalRegistryStore) (os : List RegistryObject)
    → Extends s s'
    → AllRegistered s os
    → AllRegistered s' os
AllRegistered-Extends s s' [] x h = tt
AllRegistered-Extends s s' (o ∷ os) x (h, rest) =
    (AreRegistered-Extends s s' o.dependencies x h, AllRegistered-Extends s s' os x rest)

pub AllRegistered-append :
    (s : CanonicalRegistryStore) (os ps : List RegistryObject)
    → AllRegistered s (os ++ ps) ↔ AllRegistered s os × AllRegistered s ps
AllRegistered-append s [] ps = (λ h. (tt, h), λ (u, h). h)
AllRegistered-append s (o ∷ os) ps =
    let (there, back) = AllRegistered-append s os ps in
    (λ (h, rest). let (l, r) = there rest in ((h, l), r), λ ((h, l), r). (h, back (l, r)))

pub missing_dependency-none :
    (s : CanonicalRegistryStore) (ds : List DependencyRef)
    → missing_dependency s ds ≡ none
    → AreRegistered s ds
unfolding missing_dependency exists_id get_by_id
missing_dependency-none s [] h = tt
missing_dependency-none s (d ∷ ds) h = elim (Option-cases (first_found s d.id registry_types)) [
  | inl gone ↦ ground arith
  | inr (o, found) ↦ (ground arith, missing_dependency-none s ds (ground arith))
]

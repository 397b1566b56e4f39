-- ===== src/Bcaes/Validators/Sound.antt =====
-- bcaes_registry/validators.py: what it means for a registry to pass all six checks.
use bhiv_masterdb_ingestion.Prelude.{
  ◌≡◌, refl, subst, ◌↔◌, ◌⊎◌, inl, inr, ℕ, ◌≤◌, Bool, true, false, some, List, [], ◌∷◌, Key, ok,
  arith, Result-cases, Option-cases,
}
use bhiv_masterdb_ingestion.Prelude.Text.{
  Text, same_text, elem_text, is_empty, is_blank, strip-is_empty,
}
use bhiv_masterdb_ingestion.Versions.{negotiate_version-major, major_minor}
use bhiv_masterdb_ingestion.Bcaes.Models.{
  RegistryType, same_type, same_type→eq, same_type_refl, DependencyRef, RegistryObject,
}
use bhiv_masterdb_ingestion.Bcaes.Store.{CanonicalRegistryStore, get_by_id, all_objects}
use bhiv_masterdb_ingestion.Bcaes.Validators.{
  Violation, no_violations, each, classification_violations, validate_classification,
  detect_duplicates, duplicate_ids, group_names, registry_violations, is_nil, ownership_violations,
  validate_ownership, authority_violations, validate_authority_boundaries, pinned,
  version_violations, validate_version_compatibility, integrity_violations,
  validate_dependency_integrity, CheckReport, all_passed, run_checks, run_architecture_validation,
}
use bhiv_masterdb_ingestion.Bcaes.Validators.Names.{
  no_violations-append, count_named, group_names-passed, object_ids, AreDistinct,
  duplicate_ids-passed,
}

abbrev pub All : {A : Type 0} → (A → Type 0) → List A → Type 0
All P [] = Unit
All P (x ∷ xs) = P x × All P xs

-- A check that looks at each element finds nothing exactly when it finds nothing at any.
pub each-passed :
    {A : Type 0} (found : A → List Violation) (P : A → Type 0)
    → ((x : A) → (no_violations (found x) ≡ true) ↔ P x)
    → (xs : List A) → (no_violations (each found xs) ≡ true) ↔ All P xs
unfolding each
each-passed found P at [] = (λ h. tt, λ h. refl)
each-passed found P at (x ∷ xs) =
    let (there, back) = each-passed found P at xs in
    let split = no_violations-append (found x) (each found xs) in
    (
      λ h. ((at x).0 (ground arith), there (ground arith)),
      λ (h, rest). let e = (at x).1 h in let f = back rest in ground arith,
    )

-- The owner has a character that is not white space, and there is an authority boundary.
abbrev pub HasOwner : RegistryObject → Type 0
HasOwner o = (is_blank o.owner ≡ false) × (is_nil o.authority_boundaries ≡ false)

module _ (s : CanonicalRegistryStore) where
  -- The owner of a registered dependency owns the object too, or is named in its boundaries.
  abbrev pub DeclaresOwner : RegistryObject → DependencyRef → Type 0
  DeclaresOwner o d =
      (p : RegistryObject)
      → get_by_id s d.id ≡ ok p
      → (same_text p.owner o.owner ≡ true) ⊎ (elem_text p.owner o.authority_boundaries ≡ true)

  -- A pinned version has the major part of the version of the registered dependency.
  abbrev pub FitsVersion : DependencyRef → Type 0
  FitsVersion d =
      (v : Text) (p : RegistryObject)
      → pinned d ≡ some v
      → get_by_id s d.id ≡ ok p
      → (is_empty p.version ≡ false) × ((major_minor v).0 ≡ (major_minor p.version).0)

  abbrev pub Resolves : DependencyRef → Type 0
  Resolves d = (p : RegistryObject) × (get_by_id s d.id ≡ ok p)

  pub record IsSound : Type 0 where
    pub classified :
        All (λ (o : RegistryObject). o.classification ≡ o.registry_type) (all_objects s)
    pub ids_distinct : AreDistinct (object_ids (all_objects s))
    pub names_distinct : (t : RegistryType) (n : Text) → count_named t n (all_objects s) ≤ 1
    pub owned : All HasOwner (all_objects s)
    pub declared :
        All (λ (o : RegistryObject). All (DeclaresOwner o) o.dependencies) (all_objects s)
    pub compatible : All (λ (o : RegistryObject). All FitsVersion o.dependencies) (all_objects s)
    pub resolved : All (λ (o : RegistryObject). All Resolves o.dependencies) (all_objects s)

  classification-passed :
      (o : RegistryObject)
      → (no_violations (classification_violations o) ≡ true) ↔ (o.classification ≡ o.registry_type)
  classification-passed o = (
    λ h. same_type→eq o.classification o.registry_type (ground arith),
    λ e.
        let same : same_type o.classification o.registry_type ≡ true =
          subst (λ t. same_type o.classification t ≡ true) e (same_type_refl o.classification) in
        ground arith,
  )

  ownership-passed :
      (o : RegistryObject) → (no_violations (ownership_violations o) ≡ true) ↔ HasOwner o
  ownership-passed o = ground (arith, strip-is_empty o.owner, blank_of_empty o.owner)
    where
      blank_of_empty : (t : Text) → is_empty t ≡ true → is_blank t ≡ true
      blank_of_empty [] h = refl
      blank_of_empty (c ∷ t) h = cc

  authority-passed :
      (o : RegistryObject) (d : DependencyRef)
      → (no_violations (authority_violations s o d) ≡ true) ↔ DeclaresOwner o d
  unfolding authority_violations
  authority-passed o d = elim (Result-cases (get_by_id s d.id)) [
    | inr (e, gone) ↦ (λ h p found. cc, λ h. ground arith)
    | inl (q, found) ↦ (
      λ h p found'.
          let same : q ≡ p = cc in
          subst
            (λ (r : RegistryObject).
              (same_text r.owner o.owner ≡ true)
              ⊎ (elem_text r.owner o.authority_boundaries ≡ true))
            same (by_test q.owner h found),
      λ all. let known = all q found in ground arith,
    )
  ]
    where
      by_test :
          (w : Text)
          → no_violations (authority_violations s o d) ≡ true
          → {q : RegistryObject} → get_by_id s d.id ≡ ok q
          → (same_text q.owner o.owner ≡ true) ⊎ (elem_text q.owner o.authority_boundaries ≡ true)
      by_test w h {q} found = ground arith

  version-passed :
      (o : RegistryObject) (d : DependencyRef)
      → (no_violations (version_violations s o d) ≡ true) ↔ FitsVersion d
  unfolding version_violations
  version-passed o d = elim (Option-cases (pinned d)) [
    | inl free ↦ (λ h v p e found. cc, λ h. ground arith)
    | inr (v, pin) ↦ elim (Result-cases (get_by_id s d.id)) [
      | inr (e, gone) ↦ (λ h v p e found. cc, λ h. ground arith)
      | inl (q, found) ↦
          let rule = negotiate_version-major v q.version in
          (
            λ h v' p pin' found'.
                let same : q ≡ p = cc in
                let same_pin : v ≡ v' = cc in
                subst
                  (λ (r : RegistryObject).
                    (is_empty r.version ≡ false) × ((major_minor v').0 ≡ (major_minor r.version).0))
                  same
                  (subst
                    (λ u.
                      (is_empty q.version ≡ false)
                      × ((major_minor u).0 ≡ (major_minor q.version).0))
                    same_pin (rule.0 (ground arith))),
            λ all. let e = rule.1 (all v q pin found) in ground arith,
          )
    ]
  ]

  pub integrity-passed :
      (o : RegistryObject) (d : DependencyRef)
      → (no_violations (integrity_violations s o d) ≡ true) ↔ Resolves d
  unfolding integrity_violations
  integrity-passed o d = elim (Result-cases (get_by_id s d.id)) [
    | inl (q, found) ↦ (λ h. (q, found), λ h. ground arith)
    | inr (e, gone) ↦ (λ h. ground arith, λ (p, found). cc)
  ]

  module _ (found : RegistryObject → DependencyRef → List Violation)
      (P : RegistryObject → DependencyRef → Type 0)
      (at : (o : RegistryObject) (d : DependencyRef)
        → (no_violations (found o d) ≡ true) ↔ P o d) where
    edges-passed :
        (os : List RegistryObject)
        → (no_violations (each (λ o. each (found o) o.dependencies) os) ≡ true)
          ↔ All (λ (o : RegistryObject). All (P o) o.dependencies) os
    edges-passed os =
        each-passed (λ o. each (found o) o.dependencies) (λ o. All (P o) o.dependencies)
          (λ o. each-passed (found o) (P o) (at o) o.dependencies) os

  pub dependency_integrity-passed :
      ((validate_dependency_integrity s).passed ≡ true)
      ↔ All (λ (o : RegistryObject). All Resolves o.dependencies) (all_objects s)
  unfolding validate_dependency_integrity
  dependency_integrity-passed =
      edges-passed (integrity_violations s) (λ o d. Resolves d) integrity-passed (all_objects s)

  duplicates-passed :
      ((detect_duplicates s).passed ≡ true)
      ↔ AreDistinct (object_ids (all_objects s))
        × ((t : RegistryType) (n : Text) → count_named t n (all_objects s) ≤ 1)
  unfolding detect_duplicates
  duplicates-passed =
      let os = all_objects s in
      let (ids_there, ids_back) = duplicate_ids-passed os in
      let (names_there, names_back) = group_names-passed os in
      let split =
        no_violations-append (duplicate_ids [] os) (registry_violations (group_names os [])) in
      (
        λ h. (ids_there (ground arith), names_there (ground arith)),
        λ (d, n). let e = ids_back d in let f = names_back n in ground arith,
      )

module _ (s : CanonicalRegistryStore) where
  abbrev EachPassed : Type 0
  EachPassed =
      ((validate_classification s).passed ≡ true)
      × ((detect_duplicates s).passed ≡ true)
      × ((validate_ownership s).passed ≡ true)
      × ((validate_authority_boundaries s).passed ≡ true)
      × ((validate_version_compatibility s).passed ≡ true)
      × ((validate_dependency_integrity s).passed ≡ true)

  all_passed-EachPassed : (all_passed (run_checks s) ≡ true) ↔ EachPassed
  all_passed-EachPassed = (
    λ h. (ground arith, ground arith, ground arith, ground arith, ground arith, ground arith),
    λ (c, d, o, a, v, r). ground arith,
  )

-- The report over all six checks passes exactly when every object is classified by its registry and
-- has an owner and an authority boundary, no id stands twice, no registry has two objects of one
-- normal name, every dependency is registered, and every registered one has a declared owner and the
-- pinned major version.
pub run_architecture_validation-IsSound :
    (sha256_json : Bool → List CheckReport → ℕ → Key) (s : CanonicalRegistryStore)
    → ((run_architecture_validation sha256_json s).passed ≡ true) ↔ IsSound s
unfolding run_architecture_validation validate_classification validate_ownership
    validate_authority_boundaries validate_version_compatibility
run_architecture_validation-IsSound sha256_json s =
    let os = all_objects s in
    let (c_there, c_back) =
      each-passed classification_violations
        (λ (o : RegistryObject). o.classification ≡ o.registry_type) (classification-passed s) os in
    let (d_there, d_back) = duplicates-passed s in
    let (o_there, o_back) = each-passed ownership_violations HasOwner (ownership-passed s) os in
    let (a_there, a_back) =
      edges-passed s (authority_violations s) (DeclaresOwner s) (authority-passed s) os in
    let (v_there, v_back) =
      edges-passed s (version_violations s) (λ o d. FitsVersion s d) (version-passed s) os in
    let (r_there, r_back) = dependency_integrity-passed s in
    (
      λ h.
          let (c, d, o, a, v, r) = (all_passed-EachPassed s).0 h in
          record {
            classified = c_there c;
            ids_distinct = (d_there d).0;
            names_distinct = (d_there d).1;
            owned = o_there o;
            declared = a_there a;
            compatible = v_there v;
            resolved = r_there r;
          },
      λ h. (all_passed-EachPassed s).1 (
        c_back h.classified,
        d_back (h.ids_distinct, h.names_distinct),
        o_back h.owned,
        a_back h.declared,
        v_back h.compatible,
        r_back h.resolved,
      ),
    )

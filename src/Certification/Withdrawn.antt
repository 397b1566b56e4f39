-- ===== src/Certification/Withdrawn.antt =====
-- services/certification_service.py: what is left of a rejected dataset in the package registry.
use bhiv_masterdb_ingestion.Prelude.{
  ◌≡◌, refl, ◌∙◌, sym, subst, ap, inl, inr, Bool, true, false, Option, some, List, [], ◌∷◌, arith,
  Key, Result, ok, err, if◌then◌else◌, ◌==◌, Bool-cases, Result-cases, ==→eq,
}
use bhiv_masterdb_ingestion.Prelude.Dict.{get, put, get-put}
use bhiv_masterdb_ingestion.Lifecycle.{deprecated, among, package_lifecycle_graph}
use bhiv_masterdb_ingestion.Packages.{
  KnowledgePackage, Registry, RegistryError, Fresh, ReportService, deprecate, promote, promoted,
  list_all, by_name, blocked,
}
use bhiv_masterdb_ingestion.Certification.{
  Report, Certification, certify, certify_report, resolve_report, is_rejected, state_of,
}
use bhiv_masterdb_ingestion.Certification.Withdraw.{withdraw, is_active, certification_service}
use bhiv_masterdb_ingestion.Packages.Listing.{
  HasDistinctKeys, IsKeyed, IsAbsent, AreStored, get-by_name, by_name-HasDistinctKeys,
  AreStored-put, AreStored-packages, found-IsAbsent,
}

module _ (lower : Key → Key) (reason_of : Key → Key) (service : Option ReportService)
    (dataset_id : Key) (fresh : Key → Fresh) where
  abbrev active : KnowledgePackage → Bool
  active = is_active lower reason_of service dataset_id fresh

  abbrev run : List KnowledgePackage → Registry → Registry
  run = withdraw lower reason_of service dataset_id fresh

  abbrev withdrawn : KnowledgePackage → KnowledgePackage
  withdrawn p =
      promoted p deprecated certification_service (reason_of dataset_id) (fresh p.package_id)

  deprecate-active :
      (p : KnowledgePackage) (r : Registry)
      → get p.package_id r ≡ some p
      → active p ≡ true
      → deprecate service r p.package_id certification_service
          (reason_of dataset_id)
          (fresh p.package_id)
        ≡ (ok (withdrawn p), put p.package_id (withdrawn p) r)
  unfolding deprecate promote
  deprecate-active p r found is_on =
      let edge : among deprecated (package_lifecycle_graph p.status) ≡ true = ground arith in
      let free : blocked service p.dataset_id deprecated ≡ false = ground arith in ground arith

  run-passive :
      (q : KnowledgePackage) (qs : List KnowledgePackage) (r : Registry)
      → active q ≡ false
      → run (q ∷ qs) r ≡ run qs r
  unfolding withdraw
  run-passive q qs r off = rw (off, if◌then◌else◌) refl

  run-active :
      (q : KnowledgePackage) (qs : List KnowledgePackage) (r : Registry)
      → get q.package_id r ≡ some q
      → active q ≡ true
      → run (q ∷ qs) r ≡ run qs (put q.package_id (withdrawn q) r)
  unfolding withdraw
  run-active q qs r here on =
      rw (on, if◌then◌else◌)
        (ap
          (λ (x : Result RegistryError KnowledgePackage × Registry). elim x.0 as (λ _. Registry) [
            | ok _ ↦ run qs x.1
            | err _ ↦ x.1
          ])
          (deprecate-active q r here on))

  withdrawn-passive : (q : KnowledgePackage) → active (withdrawn q) ≡ false
  withdrawn-passive q = ground arith

  passive_elsewhere :
      (q p : KnowledgePackage) (r : Registry) (id : Key)
      → get q.package_id r ≡ some q
      → get id r ≡ some p
      → active p ≡ true
      → active q ≡ false
      → (q.package_id == id) ≡ false
  passive_elsewhere q p r id here there on off = elim (Bool-cases (q.package_id == id)) [
    | inr other ↦ other
    | inl self ↦
        let at_id : get id r ≡ some q =
          subst (λ k. get k r ≡ some q) (==→eq q.package_id id self) here in
        let same_package : p ≡ q = cc in
        let clash : active q ≡ true = subst (λ x. active x ≡ true) same_package on in
        cc (clash, off)
  ]

  active_elsewhere :
      (q p : KnowledgePackage) (r : Registry) (id : Key)
      → get id (put q.package_id (withdrawn q) r) ≡ some p
      → active p ≡ true
      → ((q.package_id == id) ≡ false) × (get id r ≡ some p)
  active_elsewhere q p r id found on = elim (Bool-cases (q.package_id == id)) [
    | inr other ↦ (other, ground (arith, get-put q.package_id id (withdrawn q) r))
    | inl self ↦
        let now : withdrawn q ≡ p = ground (arith, get-put q.package_id id (withdrawn q) r) in
        let clash : active p ≡ false = subst (λ x. active x ≡ false) now (withdrawn-passive q) in
        cc (clash, on)
  ]

  -- What is active at the end of the loop was so before, and was not in the list.
  withdraw-get :
      (ps : List KnowledgePackage) (r : Registry) (id : Key) (p : KnowledgePackage)
      → AreStored ps r
      → get id (run ps r) ≡ some p
      → active p ≡ true
      → (get id r ≡ some p) × IsAbsent id ps
  unfolding withdraw
  withdraw-get [] r id p stored found is_on = (found, tt)
  withdraw-get (q ∷ qs) r id p (here, once, stored) found is_on = elim (Bool-cases (active q)) [
    | inr off ↦
        let (before, absent) =
          withdraw-get qs r id p stored
            (subst (λ x. get id x ≡ some p) (run-passive q qs r off) found) is_on in
        (before, (passive_elsewhere q p r id here before is_on off, absent))
    | inl on ↦
        let (after, absent) =
          withdraw-get qs (put q.package_id (withdrawn q) r) id p
            (AreStored-put qs r q.package_id (withdrawn q) once stored)
            (subst (λ x. get id x ≡ some p) (run-active q qs r here on) found) is_on in
        let (other, before) = active_elsewhere q p r id after is_on in (before, (other, absent))
  ]

  -- After the loop no package of the data set is certified or ready for retrieval.
  pub withdraw_all :
      (r : Registry) (id : Key) (p : KnowledgePackage)
      → IsKeyed r
      → HasDistinctKeys r
      → get id (run (list_all r) r) ≡ some p
      → active p ≡ false
  withdraw_all r id p keyed distinct found = elim (Bool-cases (active p)) [
    | inr off ↦ off
    | inl on ↦
        let sorted_keyed : IsKeyed (by_name r) =
          λ k q h. keyed k q (sym (get-by_name r k distinct) ∙ h) in
        let sorted_distinct = by_name-HasDistinctKeys r distinct in
        let stored =
          AreStored-packages (by_name r) r sorted_keyed sorted_distinct
            (λ k q h. sym (get-by_name r k distinct) ∙ h) in
        let (before, absent) = withdraw-get (list_all r) r id p stored found on in
        absurd (
          found-IsAbsent id p (by_name r) sorted_keyed sorted_distinct
            (get-by_name r id distinct ∙ before) absent)
  ]

-- When `certify` rejects a dataset, no package of it, up to the case of its id, is left CERTIFIED or
-- RETRIEVAL_READY in the package registry; the registry is one whose packages are stored once each
-- and under their own ids.
pub certify-withdraws :
    (validate : Key → Option Key → Option Key → Result Key Report) (lower reason_of : Key → Key)
    (service : Option ReportService) (c : Certification)
    (dataset_id dataset_path metadata_path : Option Key) (fresh : Key → Fresh) (r after : Registry)
    (saved : Report) (id : Key) (p : KnowledgePackage)
    → c.package_registry ≡ some r
    → IsKeyed r
    → HasDistinctKeys r
    → (certify validate lower reason_of service c dataset_id dataset_path metadata_path fresh).0
      ≡ ok saved
    → is_rejected (state_of saved) ≡ true
    → (certify validate lower reason_of service c dataset_id dataset_path metadata_path
        fresh).1.package_registry
      ≡ some after
    → get id after ≡ some p
    → is_active lower reason_of service saved.dataset_id fresh p ≡ false
unfolding certify
certify-withdraws validate lower reason_of service c dataset_id dataset_path metadata_path fresh r
      after saved id p there keyed distinct returned out left found =
    let case =
      Result-cases
        (resolve_report validate lower reason_of service c dataset_id dataset_path metadata_path) in
    elim case [
      | inr (e, failed) ↦ ground arith
      | inl (report, resolved) ↦
          let is_saved : certify_report report ≡ saved = ground arith in
          let is_after : withdraw lower reason_of service saved.dataset_id fresh (list_all r) r
              ≡ after =
            ground arith in
          withdraw_all lower reason_of service saved.dataset_id fresh r id p keyed distinct
            (ap (λ x. get id x) is_after ∙ found)
    ]

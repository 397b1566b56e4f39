-- ===== src/Certification/Withdraw.antt =====
-- services/certification_service.py: the loop of `certify` that deprecates the packages of a dataset.
use bhiv_masterdb_ingestion.Prelude.{
  Bool, ◌&&◌, ◌||◌, Option, List, [], ◌∷◌, Key, ok, err, if◌then◌else◌, ◌==◌,
}
use bhiv_masterdb_ingestion.Lifecycle.{PackageStatus, certified, retrieval_ready, same}
use bhiv_masterdb_ingestion.Packages.{KnowledgePackage, Registry, Fresh, ReportService, deprecate}

-- "certification_service"
abbrev pub certification_service : Key
certification_service = 54

abbrev pub is_certifying : PackageStatus → Bool
is_certifying s = same s certified || same s retrieval_ready

module _ (lower : Key → Key) (reason_of : Key → Key) (service : Option ReportService)
    (dataset_id : Key) (fresh : Key → Fresh) where
  abbrev pub is_active : KnowledgePackage → Bool
  is_active p = lower p.dataset_id == lower dataset_id && is_certifying p.status

  -- An exception ends the loop, and is caught.
  unfoldable pub withdraw : List KnowledgePackage → Registry → Registry
  withdraw [] r = r
  withdraw (p ∷ ps) r =
      let (result, r') =
        deprecate service r p.package_id certification_service (reason_of dataset_id)
          (fresh p.package_id) in
      let rest = withdraw ps r' in
      let skipped = withdraw ps r in
      if is_active p then elim result [ ok _ ↦ rest | err _ ↦ r' ] else skipped

-- ===== src/Uploads/Listing.antt =====
-- upload/service.py: `list_uploads`, and upload/store.py: `list_all`.
use bhiv_masterdb_ingestion.Prelude.{
  Bool, true, false, Option, none, some, List, [], ◌∷◌, Key, ◌==◌, leb, if◌then◌else◌, ◌&&◌,
}
use bhiv_masterdb_ingestion.Prelude.Dict.{Dict, values}
use bhiv_masterdb_ingestion.Uploads.Models.{UploadStatus, same_status, UploadJob}
use bhiv_masterdb_ingestion.Uploads.{UploadService}

-- The filters of `list_all`; the files are read in the order of their names.
abbrev pub same_or_absent : Option Key → Option Key → Bool
same_or_absent none k = true
same_or_absent (some j) none = false
same_or_absent (some j) (some k) = j == k

abbrev pub listed : Option UploadStatus → Option Key → Option Key → UploadJob → Bool
listed status actor product_source job =
    (elim status [ none ↦ true | some t ↦ same_status job.status t ])
    && (same_or_absent actor (some job.actor) && same_or_absent product_source job.product_source)

unfoldable pub insert_job : Key → UploadJob → Dict UploadJob → Dict UploadJob
insert_job k job [] = (k, job) ∷ []
insert_job k job ((j, other) ∷ d) =
    if leb k j then (k, job) ∷ (j, other) ∷ d else (j, other) ∷ insert_job k job d

unfoldable pub by_name : Dict UploadJob → Dict UploadJob
unfolding insert_job
by_name [] = []
by_name ((k, job) ∷ d) = insert_job k job (by_name d)

unfoldable pub keep : (UploadJob → Bool) → List UploadJob → List UploadJob
keep test [] = []
keep test (job ∷ jobs) = let rest = keep test jobs in if test job then job ∷ rest else rest

unfoldable pub list_uploads :
    UploadService → Option UploadStatus → Option Key → Option Key → List UploadJob
unfolding by_name keep
list_uploads s status actor product_source =
    keep (listed status actor product_source) (values (by_name s.jobs))

-- ===== src/Targets/Inputs.antt =====
-- database_targets/service.py: what the router keeps, and what a call of `ingest` looks up: keys, trace
-- ids, the linked upload, the certification report and the records of the dataset.
use bhiv_masterdb_ingestion.Prelude.{
  ℕ, Bool, true, false, Option, none, some, List, [], ◌∷◌, Key, truthy, ◌==◌, if◌then◌else◌, ◌&&◌,
  ◌||◌, ok, err, is_some,
}
use bhiv_masterdb_ingestion.Prelude.Dict.{Dict, get, put}
use bhiv_masterdb_ingestion.Prelude.Text.{Text, codes, elem_text, is_empty}
use bhiv_masterdb_ingestion.Trace.{normalize_trace_id}
use bhiv_masterdb_ingestion.Bcaes.Service.{admin_role}
use bhiv_masterdb_ingestion.Uploads.Models.{UploadJob}
use bhiv_masterdb_ingestion.Uploads.{UploadService, get_upload}
use bhiv_masterdb_ingestion.Uploads.Listing.{list_uploads}
use bhiv_masterdb_ingestion.Targets.Models.{
  TargetDatabase, IngestionFormat, database_registry, same_format, Metadata, CertificationState,
  certified, other_state, CertificationReport, IngestJob, IdempotencyRecord, TargetDataset,
}

pub data IngestError : Type 0 where
  idempotency_conflict records_unresolved job_not_found : IngestError

pub record Outside : Type 0 where
  pub sha256_hex : List ℕ → Text
  pub strip : Key → Key
  pub certify : Key → Key → Option CertificationReport
  pub load_dataset : Key → List ℕ → Option (List Key)
  pub reference : TargetDatabase → Key → Key
  pub certify_files : Key → List Key
  pub dataset_files : Key → List Key
  pub package_for : Key → Key

pub record Router : Type 0 where
  pub reports : Dict CertificationReport
  pub jobs : Dict IngestJob
  pub idempotency : Dict IdempotencyRecord
  pub targets : Dict TargetDataset
  pub has_certification_service : Bool
  pub uploads : Option UploadService
  pub dataset_dir : Dict (List ℕ)

-- The arguments of `ingest`, with the ids and the time that the call draws.
pub record IngestRequest : Type 0 where
  pub dataset_id : Key
  pub target_database : TargetDatabase
  pub source_format : IngestionFormat
  pub actor : Key
  pub roles : List Text
  pub package_id : Option Key
  pub metadata : Option Metadata
  pub upload_id : Option Key
  pub trace_id : Option Text
  pub idempotency_key : Option Key
  pub fresh_trace : Text
  pub fresh_job : Key
  pub now : Key
  pub target_raises : Bool

abbrev pub nonempty : Option Key → Option Key
nonempty none = none
nonempty (some k) = if truthy k then some k else none

abbrev pub nonempty_text : Option Text → Option Text
nonempty_text none = none
nonempty_text (some t) = if is_empty t then none else some t

abbrev pub metadata_key : Option Metadata → Option Key
metadata_key none = none
metadata_key (some m) = m.idempotency_key

abbrev pub metadata_trace : Option Metadata → Option Text
metadata_trace none = none
metadata_trace (some m) = nonempty_text m.trace_id

abbrev pub stripped : Outside → Option Key → Option Key
stripped out o = elim (nonempty o) [ none ↦ none | some k ↦ nonempty (some (out.strip k)) ]

-- `resolved_idempotency_key`, with `none` for a key that is absent or empty
unfoldable pub resolved_key : Outside → IngestRequest → Option Key
resolved_key out r = elim (stripped out r.idempotency_key) [
  | some k ↦ some k
  | none ↦ stripped out (metadata_key r.metadata)
]

abbrev pub found_upload : UploadService → Option Key → Option UploadJob
found_upload s none = none
found_upload s (some id) = elim (get_upload s id) [ err _ ↦ none | ok job ↦ some job ]

-- The trace id of the linked upload.
abbrev pub upload_trace : Router → Option Key → Option Text
upload_trace s id = elim s.uploads [
  | none ↦ none
  | some up ↦ elim (found_upload up (nonempty id)) [
    | none ↦ none
    | some job ↦ nonempty_text (some job.trace_id)
  ]
]

unfoldable pub resolved_trace : Router → IngestRequest → Text
resolved_trace s r = elim (nonempty_text r.trace_id) [
  | some t ↦ normalize_trace_id (some t) r.fresh_trace
  | none ↦ elim (upload_trace s r.upload_id) [
    | some t ↦ normalize_trace_id (some t) r.fresh_trace
    | none ↦ elim (metadata_trace r.metadata) [
      | some t ↦ normalize_trace_id (some t) r.fresh_trace
      | none ↦ r.fresh_trace
    ]
  ]
]

abbrev pub is_authorized : IngestRequest → Bool
is_authorized r =
    elem_text (database_registry r.target_database).required_role r.roles
    || (elem_text admin_role r.roles
        || (elem_text (codes "admin") r.roles || elem_text (codes "operator") r.roles))

abbrev pub elem_format : IngestionFormat → List IngestionFormat → Bool
elem_format f [] = false
elem_format f (g ∷ gs) = same_format f g || elem_format f gs

abbrev pub is_accepted : IngestRequest → Bool
is_accepted r = elem_format r.source_format (database_registry r.target_database).accepted_formats

abbrev pub same_id : Option Key → Key → Bool
same_id none k = false
same_id (some j) k = j == k

-- The first listed upload that carries the dataset.
unfoldable pub linked_upload : Key → List UploadJob → Option UploadJob
linked_upload dataset_id [] = none
linked_upload dataset_id (u ∷ us) =
    let rest = linked_upload dataset_id us in
    if same_id u.dataset_id dataset_id || u.upload_id == dataset_id then some u else rest

unfoldable pub target_upload : UploadService → Option Key → Key → Option UploadJob
unfolding linked_upload
target_upload up id dataset_id = elim (found_upload up (nonempty id)) [
  | some job ↦ some job
  | none ↦ linked_upload dataset_id (list_uploads up none none none)
]

-- The path of the linked upload.
abbrev pub upload_path : Router → IngestRequest → Option Key
upload_path s r = elim s.uploads [
  | none ↦ none
  | some up ↦ elim (target_upload up r.upload_id r.dataset_id) [
    | none ↦ none
    | some job ↦ nonempty job.storage_path
  ]
]

abbrev pub staged_at : Router → Key → Option (List ℕ)
staged_at s p = elim s.uploads [ none ↦ none | some up ↦ get p up.staged ]

-- The first of the paths where a file is.
unfoldable pub first_file : Router → List Key → Option (Key × List ℕ)
first_file s [] = none
first_file s (p ∷ ps) = elim (get p s.dataset_dir) [
  | some content ↦ some (p, content)
  | none ↦ first_file s ps
]

-- `_attempt_auto_certify`
unfoldable pub attempt_auto_certify : Outside → Router → IngestRequest → Option CertificationReport
unfolding first_file target_upload
attempt_auto_certify out s r = elim (upload_path s r) [
  | some p ↦ if is_some (staged_at s p) then out.certify r.dataset_id p else none
  | none ↦ elim (first_file s (out.certify_files r.dataset_id)) [
    | none ↦ none
    | some (p, _) ↦ out.certify r.dataset_id p
  ]
]

-- The report on file, else the one that the certification service makes and saves. What a
-- certification that raises leaves on file is not modelled.
unfoldable pub load_report : Outside → Router → IngestRequest → Option CertificationReport × Router
unfolding attempt_auto_certify
load_report out s r = elim (get r.dataset_id s.reports) [
  | some report ↦ (some report, s)
  | none ↦
      if s.has_certification_service
      then elim (attempt_auto_certify out s r) [
        | none ↦ (none, s)
        | some report ↦ (some report, record s { reports = put r.dataset_id report s.reports })
      ]
      else (none, s)
]

abbrev pub is_certified : CertificationState → Bool
is_certified certified = true
is_certified other_state = false

abbrev pub is_eligible : Option CertificationReport → Bool
is_eligible none = false
is_eligible (some report) = is_certified report.state && report.eligible_for_masterdb

abbrev pub state_of : Option CertificationReport → Option CertificationState
state_of none = none
state_of (some report) = some report.state

abbrev pub score_of : Option CertificationReport → Option Key
score_of none = none
score_of (some report) = report.integrity_score

-- The staged file of the linked upload, else a file of the datasets directory.
unfoldable pub source_file : Outside → Router → IngestRequest → Option (Key × List ℕ)
unfolding first_file target_upload
source_file out s r = elim (upload_path s r) [
  | none ↦ first_file s (out.dataset_files r.dataset_id)
  | some p ↦ elim (staged_at s p) [
    | some content ↦ some (p, content)
    | none ↦ first_file s (out.dataset_files r.dataset_id)
  ]
]

-- `_resolve_dataset_records`; `none` for the error
unfoldable pub resolve_dataset_records : Outside → Router → IngestRequest → Option (List Key)
unfolding source_file
resolve_dataset_records out s r = elim (source_file out s r) [
  | none ↦ none
  | some (p, content) ↦ out.load_dataset p content
]

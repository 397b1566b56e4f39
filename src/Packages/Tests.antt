-- ===== src/Packages/Tests.antt =====
-- services/package_registry_service.py: the theorems at a concrete registry.
use bhiv_masterdb_ingestion.Prelude.{◌≡◌, refl, true, some, [], Key}
use bhiv_masterdb_ingestion.Prelude.Dict.{get}
use bhiv_masterdb_ingestion.Lifecycle.{ingested}
use bhiv_masterdb_ingestion.Packages.{
  PackageRegisterRequest, Registry, ReportService, no_entry, Fresh, register, promote, new_package,
  promoted,
}
use bhiv_masterdb_ingestion.Packages.Trail.{AllTrails, register-AllTrails, promote-AllTrails}

abbrev request : PackageRegisterRequest
request = record {
  package_id = some 5;
  dataset_id = 80;
  dataset_version = 81;
  schema_version = 82;
  board = 83;
  medium = 84;
  language = 85;
  owner = 86;
  actor = 87;
  reason = 88;
}

abbrev at : Key → Fresh
at time = record {
  package_id = 90;
  transition_id = 91;
  created_at = time;
  updated_at = time;
  timestamp = time;
}

-- Every dataset is reported as rejected.
abbrev rejecting : ReportService
rejecting dataset_id = some (record { is_rejected = true; ingestion_decision = no_entry })

nothing : AllTrails []
nothing id p h = cc

abbrev one : Registry
one = (register [] request (at 100)).1

abbrev two : Registry
two = (promote (some rejecting) one 5 ingested 87 89 (at 101)).1

one_found : get 5 one ≡ some (new_package 5 request (at 100))
unfolding register
one_found = refl

promote-AllTrails_example : AllTrails two
promote-AllTrails_example =
    promote-AllTrails (some rejecting) one 5 ingested 87 89 (at 101)
      (register-AllTrails [] request (at 100) nothing)

two_found : get 5 two ≡ some (promoted (new_package 5 request (at 100)) ingested 87 89 (at 101))
unfolding register promote
two_found = refl

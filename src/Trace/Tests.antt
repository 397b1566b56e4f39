-- ===== src/Trace/Tests.antt =====
-- Runs of the trace ids, and the theorems at concrete inputs.
use bhiv_masterdb_ingestion.Prelude.{◌≡◌, refl, true, some, []}
use bhiv_masterdb_ingestion.Prelude.Text.{Text, codes}
use bhiv_masterdb_ingestion.Trace.{normalize_trace_id}
use bhiv_masterdb_ingestion.Trace.Canonical.{is_lower_hex, normalize_trace_id-canonical}

abbrev uuid : Text
uuid = codes " 0123ABCD-4567-89ab-cdef-0123456789AB "

abbrev bare : Text
bare = codes "0123abcd456789abcdef0123456789ab"

-- A UUID loses its hyphens and its capitals.
normalize_uuid : normalize_trace_id (some uuid) [] ≡ bare
unfolding normalize_trace_id
normalize_uuid = refl

-- A line feed before a hyphen at the end survives.
normalize_line_feed :
    normalize_trace_id (some (codes "0123abcd456789abcdef0123456789ab\n-")) []
    ≡ codes "0123abcd456789abcdef0123456789ab\n"
unfolding normalize_trace_id
normalize_line_feed = refl

normalize_trace_id-canonical_example : is_lower_hex 32 (normalize_trace_id (some uuid) bare) ≡ true
normalize_trace_id-canonical_example = normalize_trace_id-canonical uuid bare refl refl

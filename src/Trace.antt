-- ===== src/Trace.antt =====
-- utils/trace.py: the trace ids. `uuid.uuid4().hex`, the fresh id of a call, is an argument. The `$` of
-- the pattern also matches before a line feed at the end.
pub mod Canonical
mod Tests
use bhiv_masterdb_ingestion.Prelude.{
  ℕ, zero, suc, Bool, true, false, not, Option, none, some, List, [], ◌∷◌, if◌then◌else◌, ◌==◌, leb,
  ◌&&◌, ◌||◌, drop,
}
use bhiv_masterdb_ingestion.Prelude.Text.{Text, codes, lower, strip, is_empty, starts_with}

-- `[0-9a-fA-F]`
abbrev pub is_hex : ℕ → Bool
is_hex c = leb 48 c && leb c 57 || (leb 65 c && leb c 70 || leb 97 c && leb c 102)

-- `n` hexadecimal digits, and no more than a line feed after them.
unfoldable pub hex_run : ℕ → Text → Bool
hex_run zero [] = true
hex_run zero (c ∷ s) = c == 10 && is_empty s
hex_run (suc n) [] = false
hex_run (suc n) (c ∷ s) = is_hex c && hex_run n s

unfoldable pub is_valid_trace_id : Option Text → Bool
unfolding hex_run
is_valid_trace_id none = false
is_valid_trace_id (some s) = not (is_empty s) && hex_run 32 s

-- `cleaned.replace("-", "")`
unfoldable pub unhyphenate : Text → Text
unhyphenate [] = []
unhyphenate (c ∷ s) = if c == 45 then unhyphenate s else c ∷ unhyphenate s

unfoldable pub normalize_cleaned : Text → Text → Text
unfolding is_valid_trace_id unhyphenate
normalize_cleaned cleaned fresh =
    if is_valid_trace_id (some cleaned)
    then lower cleaned
    else if is_valid_trace_id (some (unhyphenate cleaned))
    then lower (unhyphenate cleaned)
    else if starts_with (codes "trace-") (lower cleaned)
        && is_valid_trace_id (some (drop 6 cleaned))
    then lower (drop 6 cleaned)
    else fresh

unfoldable pub normalize_trace_id : Option Text → Text → Text
unfolding normalize_cleaned
normalize_trace_id none fresh = fresh
normalize_trace_id (some candidate) fresh =
    if is_empty candidate then fresh else normalize_cleaned (strip candidate) fresh

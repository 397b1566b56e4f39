-- ===== src/Json.antt =====
-- The values of a payload, a context or a metadata field: whatever `json` reads. The code looks
-- into them only by `bool`, by `float(...) >= c` and by `dict.update`, which are Python's own, so
-- they are operations of an interface.
pub mod Sample
use bhiv_masterdb_ingestion.Prelude.{ℕ, Bool, Option}
use bhiv_masterdb_ingestion.Prelude.Dict.{Dict}

pub record Json : Type 1 where
  pub Value : Type 0
  -- `bool(v)`
  pub is_true : Value → Bool
  -- `float(v) >= n / 10`; `none` if `float(v)` raises
  pub at_least_tenths : ℕ → Value → Option Bool
  -- the items that `d.update(v)` writes; `none` if it raises
  pub items : Value → Option (Dict Value)

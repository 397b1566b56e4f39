-- ===== src/Json/Sample.antt =====
-- Values for examples: tenths of a number, and one mapping.
use bhiv_masterdb_ingestion.Prelude.{ℕ, Bool, true, Option, none, some, [], ◌∷◌, leb, truthy}
use bhiv_masterdb_ingestion.Prelude.Dict.{Dict}
use bhiv_masterdb_ingestion.Json.{Json}

pub data Sample : Type 0 where
  tenths : ℕ → Sample
  mapping : ℕ → ℕ → Sample

abbrev sample_is_true : Sample → Bool
sample_is_true (tenths n) = truthy n
sample_is_true (mapping k n) = true

abbrev sample_at_least : ℕ → Sample → Option Bool
sample_at_least n (tenths m) = some (leb n m)
sample_at_least n (mapping _ _) = none

abbrev sample_items : Sample → Option (Dict Sample)
sample_items (tenths n) = none
sample_items (mapping k n) = some ((k, tenths n) ∷ [])

abbrev pub sample : Json
sample = record {
  Value = Sample;
  is_true = sample_is_true;
  at_least_tenths = sample_at_least;
  items = sample_items;
}

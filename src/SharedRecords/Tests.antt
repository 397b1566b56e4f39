-- ===== src/SharedRecords/Tests.antt =====
-- services/shared_record_store.py: the theorems at a concrete store.
use bhiv_masterdb_ingestion.Prelude.{ℕ, ◌≡◌, refl, [], ◌∷◌, some, Key}
use bhiv_masterdb_ingestion.Prelude.Dict.{get}
use bhiv_masterdb_ingestion.SharedRecords.{
  SharedRecord, SharedStore, Fresh, new_record, withdrawn, register, deprecate,
}
use bhiv_masterdb_ingestion.SharedRecords.Replayed.{
  AllReplayable, Call, registers, deprecates, apply, apply-AllReplayable,
}

abbrev empty : SharedStore ℕ
empty = record { dataset = 30; required_fields = 31 ∷ []; records = [] }

abbrev at : Key → Fresh
at time = record { transition_id = 32; created_at = time; updated_at = time; timestamp = time }

abbrev first : Call ℕ
first = registers 5 ((31, 7) ∷ []) 40 41 (at 100)

abbrev one : SharedStore ℕ
one = (apply empty first).1

abbrev two : SharedStore ℕ
two = (apply one (deprecates 5 40 42 (at 101))).1

empty-AllReplayable : AllReplayable empty
empty-AllReplayable id r h = cc

one-AllReplayable : AllReplayable one
one-AllReplayable = apply-AllReplayable empty first empty-AllReplayable

apply-AllReplayable_example : AllReplayable two
apply-AllReplayable_example =
    apply-AllReplayable one (deprecates 5 40 42 (at 101)) one-AllReplayable

abbrev over : SharedRecord ℕ
over = withdrawn (new_record 30 5 ((31, 7) ∷ []) 40 41 (at 100)) 40 42 (at 101)

two_found : get 5 two.records ≡ some over
unfolding register deprecate
two_found = refl

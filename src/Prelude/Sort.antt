-- ===== src/Prelude/Sort.antt =====
-- Python's `sorted` on strings, and that it forgets the order in which they came.
use bhiv_masterdb_ingestion.Prelude.Tests.{leb, if◌then◌else◌, Key}
use mathlib.Core.Path.{◌≡◌}
use mathlib.Core.List.{List, [], ◌∷◌}
use native.Mathlib.Omega.{arith}

abbrev pub insert_sorted : Key → List Key → List Key
insert_sorted k [] = k ∷ []
insert_sorted k (j ∷ ks) = if leb k j then k ∷ j ∷ ks else j ∷ insert_sorted k ks

abbrev pub sorted : List Key → List Key
sorted [] = []
sorted (k ∷ ks) = insert_sorted k (sorted ks)

pub insert_sorted_comm :
    (a b : Key) (ks : List Key)
    → insert_sorted a (insert_sorted b ks) ≡ insert_sorted b (insert_sorted a ks)
insert_sorted_comm a b [] = ground arith
insert_sorted_comm a b (k ∷ ks) = ground (arith, insert_sorted_comm a b ks)

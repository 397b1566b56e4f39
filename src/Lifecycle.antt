-- ===== src/Lifecycle.antt =====
-- models.py: `PackageStatus` and `PACKAGE_LIFECYCLE_GRAPH`, the statuses of a package and the
-- edges between them, which services/state_machine.py, services/event_pipeline.py and
-- services/package_registry_service.py share.
pub mod Search
pub mod Routes
use bhiv_masterdb_ingestion.Prelude.{
  ℕ, ◌<◌, ◌≡◌, Bool, true, false, ◌&&◌, ◌||◌, List, [], ◌∷◌, arith, Key, ◌==◌,
}

pub data PackageStatus : Type 0 where
  registered ingested validated verified certified retrieval_ready deprecated archived :
      PackageStatus

-- The string value of a member, numbered in the order of the strings.
abbrev pub value : PackageStatus → Key
value registered = 5
value ingested = 4
value validated = 7
value verified = 8
value certified = 2
value retrieval_ready = 6
value deprecated = 3
value archived = 1

abbrev pub package_lifecycle_graph : PackageStatus → List PackageStatus
package_lifecycle_graph registered = ingested ∷ deprecated ∷ []
package_lifecycle_graph ingested = validated ∷ deprecated ∷ []
package_lifecycle_graph validated = verified ∷ deprecated ∷ []
package_lifecycle_graph verified = certified ∷ deprecated ∷ []
package_lifecycle_graph certified = retrieval_ready ∷ deprecated ∷ []
package_lifecycle_graph retrieval_ready = deprecated ∷ []
package_lifecycle_graph deprecated = archived ∷ []
package_lifecycle_graph archived = []

-- `a == b` of two members
abbrev pub same : PackageStatus → PackageStatus → Bool
same a b = value a == value b

-- `status in statuses`
abbrev pub among : PackageStatus → List PackageStatus → Bool
among a [] = false
among a (b ∷ bs) = same a b || among a bs

abbrev pub IsEdge : PackageStatus → PackageStatus → Type 0
IsEdge s t = among t (package_lifecycle_graph s) ≡ true

-- A height that every edge climbs.
abbrev pub rank : PackageStatus → ℕ
rank registered = 0
rank ingested = 1
rank validated = 2
rank verified = 3
rank certified = 4
rank retrieval_ready = 5
rank deprecated = 6
rank archived = 7

pub same→eq : (a b : PackageStatus) → same a b ≡ true → a ≡ b
same→eq registered b h = ground arith
same→eq ingested b h = ground arith
same→eq validated b h = ground arith
same→eq verified b h = ground arith
same→eq certified b h = ground arith
same→eq retrieval_ready b h = ground arith
same→eq deprecated b h = ground arith
same→eq archived b h = ground arith

pub same_refl : (a : PackageStatus) → same a a ≡ true
same_refl a = ground arith

pub IsEdge-rank : (s t : PackageStatus) → IsEdge s t → rank s < rank t
IsEdge-rank registered t h = ground arith
IsEdge-rank ingested t h = ground arith
IsEdge-rank validated t h = ground arith
IsEdge-rank verified t h = ground arith
IsEdge-rank certified t h = ground arith
IsEdge-rank retrieval_ready t h = ground arith
IsEdge-rank deprecated t h = ground arith
IsEdge-rank archived t h = ground arith

-- A test of every status, for proofs by evaluation.
pub all_statuses : (PackageStatus → Bool) → Bool
all_statuses p =
    p registered
    && p ingested
    && p validated
    && p verified
    && p certified
    && p retrieval_ready
    && p deprecated
    && p archived

pub all_statuses_sound :
    (p : PackageStatus → Bool) → all_statuses p ≡ true → (s : PackageStatus) → p s ≡ true
unfolding all_statuses
all_statuses_sound p h registered = ground arith
all_statuses_sound p h ingested = ground arith
all_statuses_sound p h validated = ground arith
all_statuses_sound p h verified = ground arith
all_statuses_sound p h certified = ground arith
all_statuses_sound p h retrieval_ready = ground arith
all_statuses_sound p h deprecated = ground arith
all_statuses_sound p h archived = ground arith

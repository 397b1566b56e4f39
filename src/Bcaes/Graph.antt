-- ===== src/Bcaes/Graph.antt =====
-- bcaes_registry/graph.py: the direct relations of an object, and the depth-first walk over its
-- dependencies. The recursion of `walk` goes on fuel; one round for each id of the store and one more
-- is enough, since every nested call that goes on marks another id of the store.
pub mod Walk
pub mod Reach
use bhiv_masterdb_ingestion.Prelude.{
  ℕ, zero, suc, ◌+◌, Bool, true, false, Option, none, some, List, [], ◌∷◌, ◌++◌, Key, ◌==◌, elem,
  length, Result, ok, err, if◌then◌else◌,
}
use bhiv_masterdb_ingestion.Prelude.Text.{Text}
use bhiv_masterdb_ingestion.Prelude.Dict.{Dict}
use bhiv_masterdb_ingestion.Bcaes.Models.{
  RegistryType, registry_types, DependencyRef, RegistryObject,
}
use bhiv_masterdb_ingestion.Bcaes.Store.{
  RegistryError, CanonicalRegistryStore, get_by_id, consumers_of,
}

pub record Relationships : Type 0 where
  pub id : Key
  pub name : Text
  pub registry_type : RegistryType
  pub dependencies : List DependencyRef
  pub consumers : List Key

unfoldable pub relationships : CanonicalRegistryStore → Key → Result RegistryError Relationships
relationships s object_id = elim (get_by_id s object_id) [
  | err e ↦ err e
  | ok o ↦ ok (record {
    id = o.id;
    name = o.name;
    registry_type = o.registry_type;
    dependencies = o.dependencies;
    consumers = consumers_of s object_id;
  })
]

-- The variables of `transitive_dependencies` that `walk` writes to.
pub record WalkState : Type 0 where
  pub visited : List Key
  pub order : List Key
  pub cycle_edges : List (List Key)

-- `path[path.index(current):]`
abbrev pub from_first : Key → List Key → List Key
from_first k [] = []
from_first k (j ∷ path) = if j == k then j ∷ path else from_first k path

-- `if dep.id != object_id: order.append(dep.id)`
abbrev pub noted : Key → Key → WalkState → WalkState
noted root id w = if id == root then w else record w { order = w.order ++ id ∷ [] }

-- The loop over the dependencies of one object; `none` when the fuel is used up.
unfoldable pub walk_all :
    Key → (Key → WalkState → Option WalkState) → List DependencyRef → WalkState → Option WalkState
walk_all root call [] w = some w
walk_all root call (d ∷ ds) w = elim (call d.id (noted root d.id w)) [
  | none ↦ none
  | some w' ↦ walk_all root call ds w'
]

unfoldable pub walk :
    CanonicalRegistryStore → Key → ℕ → Key → List Key → WalkState → Option WalkState
unfolding walk_all
walk s root zero current path w = none
walk s root (suc fuel) current path w = elim (elem current path) [
  | true ↦
      some
        (record w { cycle_edges = w.cycle_edges ++ (from_first current path ++ current ∷ []) ∷ [] })
  | false ↦ elim (elem current w.visited) [
    | true ↦ some w
    | false ↦
        let entered = record w { visited = current ∷ w.visited } in
        elim (get_by_id s current) [
          | err _ ↦ some entered
          | ok o ↦
              walk_all root (λ k v. walk s root fuel k (path ++ current ∷ []) v) o.dependencies
                entered
        ]
  ]
]

-- Each id once, in the order of its first place.
unfoldable pub dedup : List Key → List Key → List Key
dedup seen [] = []
dedup seen (k ∷ ks) = elim (elem k seen) [ true ↦ dedup seen ks | false ↦ k ∷ dedup (k ∷ seen) ks ]

pub record TransitiveDependencies : Type 0 where
  pub id : Key
  pub transitive_dependencies : List Key
  pub depth : ℕ
  pub cycles_detected : List (List Key)

unfoldable pub keys : Dict RegistryObject → List Key
keys [] = []
keys ((k, _) ∷ d) = k ∷ keys d

unfoldable pub keys_of : CanonicalRegistryStore → List RegistryType → List Key
unfolding keys
keys_of s [] = []
keys_of s (t ∷ ts) = keys (s.objects t) ++ keys_of s ts

abbrev pub enough_fuel : CanonicalRegistryStore → ℕ
enough_fuel s = suc (length (keys_of s registry_types))

abbrev pub report : Key → WalkState → TransitiveDependencies
report object_id w =
    let deduped = dedup [] w.order in
    record {
      id = object_id;
      transitive_dependencies = deduped;
      depth = length deduped;
      cycles_detected = w.cycle_edges;
    }

abbrev pub start : WalkState
start = record { visited = []; order = []; cycle_edges = [] }

unfoldable pub transitive_dependencies :
    CanonicalRegistryStore → Key → Option (Result RegistryError TransitiveDependencies)
unfolding walk keys_of dedup
transitive_dependencies s object_id = elim (get_by_id s object_id) [
  | err e ↦ some (err e)
  | ok _ ↦ elim (walk s object_id (enough_fuel s) object_id [] start) [
    | none ↦ none
    | some w ↦ some (ok (report object_id w))
  ]
]

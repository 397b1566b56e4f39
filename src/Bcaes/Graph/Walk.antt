-- ===== src/Bcaes/Graph/Walk.antt =====
-- bcaes_registry/graph.py: what one call of `walk` does to the marks.
use bhiv_masterdb_ingestion.Prelude.{
  ◌≡◌, refl, ◌∙◌, inl, inr, ℕ, suc, ◌≤◌, ◌<◌, true, false, some, List, [], ◌∷◌, Key, ◌==◌, elem,
  elem-append, length, ok, arith, if◌then◌else◌, Bool-cases, Option-cases, ==→eq,
}
use bhiv_masterdb_ingestion.Prelude.Dict.{Dict, get}
use bhiv_masterdb_ingestion.Bcaes.Models.{
  RegistryType, registry_types, DependencyRef, RegistryObject,
}
use bhiv_masterdb_ingestion.Bcaes.Store.{CanonicalRegistryStore, get_by_id, first_found}
use bhiv_masterdb_ingestion.Bcaes.Graph.{keys, keys_of}

abbrev pub ids : List DependencyRef → List Key
ids [] = []
ids (d ∷ ds) = d.id ∷ ids ds

-- The object of the store with the id `u` declares a dependency on `v`.
abbrev pub Edge : CanonicalRegistryStore → Key → Key → Type 0
Edge s u v = (o : RegistryObject) × (get_by_id s u ≡ ok o) × (elem v (ids o.dependencies) ≡ true)

-- A chain of one or more declared dependencies.
pub data Reaches (s : CanonicalRegistryStore) (root : Key) : Key → Type 0 where
  direct : {v : Key} → Edge s root v → Reaches s root v
  further : {u v : Key} → Reaches s root u → Edge s u v → Reaches s root v

-- How many of the ids are not marked.
abbrev pub unseen : List Key → List Key → ℕ
unseen [] visited = 0
unseen (k ∷ ks) visited = let rest = unseen ks visited in if elem k visited then rest else suc rest

abbrev pub Within : List Key → List Key → Type 0
Within xs ys = (x : Key) → elem x xs ≡ true → elem x ys ≡ true

pub unseen-Within : (ks xs ys : List Key) → Within xs ys → unseen ks ys ≤ unseen ks xs
unseen-Within [] xs ys h = omega arith
unseen-Within (k ∷ ks) xs ys h = ground (arith, unseen-Within ks xs ys h, h k)

unseen-cons-le : (ks : List Key) (c : Key) (xs : List Key) → unseen ks (c ∷ xs) ≤ unseen ks xs
unseen-cons-le ks c xs = unseen-Within ks xs (c ∷ xs) (λ x h. ground arith)

pub unseen-cons :
    (ks : List Key) (c : Key) (xs : List Key)
    → elem c ks ≡ true
    → elem c xs ≡ false
    → unseen ks (c ∷ xs) < unseen ks xs
unseen-cons [] c xs h k = cc
unseen-cons (j ∷ ks) c xs h k = elim (Bool-cases (c == j)) [
  | inl self ↦ let here = ==→eq c j self in ground (arith, unseen-cons-le ks c xs)
  | inr other ↦ ground (arith, unseen-cons ks c xs)
]

pub unseen-nil : (ks : List Key) → unseen ks [] ≡ length ks
unseen-nil [] = refl
unseen-nil (k ∷ ks) = omega (arith, unseen-nil ks)

elem-keys :
    (k : Key) (d : Dict RegistryObject) (o : RegistryObject)
    → get k d ≡ some o
    → elem k (keys d) ≡ true
unfolding keys
elem-keys k [] o h = cc
elem-keys k ((j, p) ∷ d) o h = ground (arith, elem-keys k d o)

elem-keys_of :
    (s : CanonicalRegistryStore) (ts : List RegistryType) (k : Key) (o : RegistryObject)
    → first_found s k ts ≡ some o
    → elem k (keys_of s ts) ≡ true
unfolding first_found keys_of
elem-keys_of s [] k o h = cc
elem-keys_of s (t ∷ ts) k o h =
    let split = elem-append k (keys (s.objects t)) (keys_of s ts) in
    elim (Option-cases (get k (s.objects t))) [
      | inl gone ↦ let later = elem-keys_of s ts k o (ground arith) in split ∙ ground (arith, later)
      | inr (p, found) ↦
          let here = elem-keys k (s.objects t) p found in split ∙ ground (arith, here)
    ]

-- An id that is found is an id of the store.
pub elem-keys_of_found :
    (s : CanonicalRegistryStore) (k : Key) (o : RegistryObject)
    → get_by_id s k ≡ ok o
    → elem k (keys_of s registry_types) ≡ true
unfolding get_by_id
elem-keys_of_found s k o h = elim (Option-cases (first_found s k registry_types)) [
  | inl gone ↦ ground arith
  | inr (p, found) ↦ elem-keys_of s registry_types k p found
]

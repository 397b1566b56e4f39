-- ===== src/Packages/Listing.antt =====
-- services/package_registry_service.py: `list_all`, and the packages of the registry.
use bhiv_masterdb_ingestion.Prelude.{
  ◌≡◌, refl, ◌∙◌, sym, subst, inl, inr, false, none, some, List, [], ◌∷◌, arith, Key, leb,
  if◌then◌else◌, ◌==◌, Bool-cases, ==→eq,
}
use bhiv_masterdb_ingestion.Prelude.Dict.{get, put, get-put}
use bhiv_masterdb_ingestion.Packages.{KnowledgePackage, Registry, packages, by_name, insert_package}

-- No two files have one name.
abbrev pub HasDistinctKeys : Registry → Type 0
HasDistinctKeys [] = Unit
HasDistinctKeys ((k, p) ∷ r) = (get k r ≡ none) × HasDistinctKeys r

-- Each package is stored under its own id.
abbrev pub IsKeyed : Registry → Type 0
IsKeyed r = (id : Key) (p : KnowledgePackage) → get id r ≡ some p → p.package_id ≡ id

get-insert :
    (k j : Key) (p : KnowledgePackage) (r : Registry)
    → get k r ≡ none
    → get j (insert_package k p r) ≡ (if k == j then some p else get j r)
get-insert k j p [] h = ground arith
get-insert k j p ((i, q) ∷ r) h = let rest = get-insert k j p r in ground (arith, rest)

pub get-by_name : (r : Registry) (j : Key) → HasDistinctKeys r → get j (by_name r) ≡ get j r
get-by_name [] j h = refl
get-by_name ((k, p) ∷ r) j (apart, h) =
    let at_k = get-by_name r k h in
    let at_j = get-by_name r j h in
    let inserted = get-insert k j p (by_name r) (rw at_k apart) in ground (arith, inserted)

insert-HasDistinctKeys :
    (k : Key) (p : KnowledgePackage) (r : Registry)
    → get k r ≡ none
    → HasDistinctKeys r
    → HasDistinctKeys (insert_package k p r)
insert-HasDistinctKeys k p [] h d = (refl, tt)
insert-HasDistinctKeys k p ((i, q) ∷ r) h (apart, d) = elim (Bool-cases (leb k i)) [
  | inl first ↦ rw (first, if◌then◌else◌) (h, (apart, d))
  | inr later ↦
      let far : get k r ≡ none = ground arith in
      let inserted = get-insert k i p r far in
      rw (later, if◌then◌else◌) (ground (arith, inserted), insert-HasDistinctKeys k p r far d)
]

pub by_name-HasDistinctKeys : (r : Registry) → HasDistinctKeys r → HasDistinctKeys (by_name r)
by_name-HasDistinctKeys [] h = tt
by_name-HasDistinctKeys ((k, p) ∷ r) (apart, h) =
    insert-HasDistinctKeys k p (by_name r) (get-by_name r k h ∙ apart) (by_name-HasDistinctKeys r h)

abbrev pub IsAbsent : Key → List KnowledgePackage → Type 0
IsAbsent id [] = Unit
IsAbsent id (p ∷ ps) = ((p.package_id == id) ≡ false) × IsAbsent id ps

-- The packages of a list are those that the registry holds under their ids, each once.
abbrev pub AreStored : List KnowledgePackage → Registry → Type 0
AreStored [] r = Unit
AreStored (p ∷ ps) r = (get p.package_id r ≡ some p) × IsAbsent p.package_id ps × AreStored ps r

pub AreStored-put :
    (ps : List KnowledgePackage) (r : Registry) (k : Key) (q : KnowledgePackage)
    → IsAbsent k ps
    → AreStored ps r
    → AreStored ps (put k q r)
AreStored-put [] r k q a h = tt
AreStored-put (p ∷ ps) r k q (apart, a) (found, once, h) =
    (ground (arith, get-put k p.package_id q r), once, AreStored-put ps r k q a h)

tail-IsKeyed :
    (i : Key) (p : KnowledgePackage) (r : Registry)
    → get i r ≡ none
    → IsKeyed ((i, p) ∷ r)
    → IsKeyed r
tail-IsKeyed i p r apart keyed id q found = elim (Bool-cases (i == id)) [
  | inl self ↦
      let here : i ≡ id = ==→eq i id self in
      let clash : get id r ≡ none = subst (λ k. get k r ≡ none) here apart in cc
  | inr other ↦ keyed id q (ground arith)
]

IsAbsent-packages :
    (k : Key) (r : Registry)
    → IsKeyed r
    → HasDistinctKeys r
    → get k r ≡ none
    → IsAbsent k (packages r)
IsAbsent-packages k [] keyed d h = tt
IsAbsent-packages k ((i, p) ∷ r) keyed (apart, d) h =
    let here : p.package_id ≡ i = keyed i p (ground arith) in
    (ground arith, IsAbsent-packages k r (tail-IsKeyed i p r apart keyed) d (ground arith))

pub AreStored-packages :
    (s r : Registry)
    → IsKeyed s
    → HasDistinctKeys s
    → ((id : Key) (p : KnowledgePackage) → get id s ≡ some p → get id r ≡ some p)
    → AreStored (packages s) r
AreStored-packages [] r keyed d holds = tt
AreStored-packages ((i, p) ∷ s) r keyed (apart, d) holds =
    let head : get i ((i, p) ∷ s) ≡ some p = ground arith in
    let here : p.package_id ≡ i = keyed i p head in
    let keyed' = tail-IsKeyed i p s apart keyed in
    (
      subst (λ k. get k r ≡ some p) (sym here) (holds i p head),
      subst (λ k. IsAbsent k (packages s)) (sym here) (IsAbsent-packages i s keyed' d apart),
      AreStored-packages s r keyed' d (λ id q found. holds id q (deeper id q found)),
    )
  where
    deeper : (id : Key) (q : KnowledgePackage) → get id s ≡ some q → get id ((i, p) ∷ s) ≡ some q
    deeper id q found = elim (Bool-cases (i == id)) [
      | inl self ↦
          let clash : get id s ≡ none = subst (λ k. get k s ≡ none) (==→eq i id self) apart in cc
      | inr other ↦ ground arith
    ]

pub found-IsAbsent :
    (id : Key) (p : KnowledgePackage) (r : Registry)
    → IsKeyed r
    → HasDistinctKeys r
    → get id r ≡ some p
    → ¬ IsAbsent id (packages r)
found-IsAbsent id p [] keyed d found absent = cc
found-IsAbsent id p ((i, q) ∷ r) keyed (apart, d) found (not_head, absent) =
    let here : q.package_id ≡ i = keyed i q (ground arith) in
    found-IsAbsent id p r (tail-IsKeyed i q r apart keyed) d (ground arith) absent

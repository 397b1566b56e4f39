-- ===== src/Bcaes/Validators/Names.antt =====
-- bcaes_registry/validators.py: what `detect_duplicates` finds. `add_object` groups the ids by registry
-- and name; the count of a group is the number of objects of that registry with that name.
use bhiv_masterdb_ingestion.Prelude.{
  ◌≡◌, refl, ◌∙◌, sym, ap, subst, ◌↔◌, inl, inr, ℕ, ◌+◌, ◌≤◌, true, false, List, [], ◌∷◌, ◌++◌, Key,
  elem, length, length-append, arith, if◌then◌else◌, ◌&&◌, Bool-cases,
}
use bhiv_masterdb_ingestion.Prelude.Text.{Text, same_text, same_text→eq, same_text_refl}
use bhiv_masterdb_ingestion.Bcaes.Models.{
  RegistryType, same_type, same_type→eq, same_type_refl, RegistryObject,
}
use bhiv_masterdb_ingestion.Bcaes.Validators.{
  Violation, no_violations, duplicate_ids, NameGroups, add_name, normal_name, add_object,
  group_names, name_violations, registry_violations,
}

pub no_violations-append :
    (vs ws : List Violation) → no_violations (vs ++ ws) ≡ (no_violations vs && no_violations ws)
no_violations-append [] ws = refl
no_violations-append (v ∷ vs) ws = refl

-- The objects of the registry `t` whose normal name is `n`.
abbrev pub count_named : RegistryType → Text → List RegistryObject → ℕ
count_named t n [] = 0
count_named t n (o ∷ os) =
    (if same_type o.registry_type t && same_text (normal_name o) n then 1 else 0)
    + count_named t n os

abbrev names_count : Text → NameGroups → ℕ
names_count n [] = 0
names_count n ((m, group) ∷ groups) = if same_text m n then length group else names_count n groups

abbrev registry_count : RegistryType → Text → List (RegistryType × NameGroups) → ℕ
registry_count t n [] = 0
registry_count t n ((u, names) ∷ registries) =
    if same_type u t then names_count n names else registry_count t n registries

names_count-add :
    (n m : Text) (id : Key) (groups : NameGroups)
    → names_count n (add_name m id groups) ≡ names_count n groups + (if same_text m n then 1 else 0)
unfolding add_name
names_count-add n m id [] = ground arith
names_count-add n m id ((k, group) ∷ groups) = ground (
  arith,
  names_count-add n m id groups,
  same_text→eq k m,
  same_text→eq k n,
  same_text→eq m n,
  same_text_refl n,
  same_text_refl m,
  length-append group (id ∷ []),
)

registry_count-add :
    (t : RegistryType) (n : Text) (o : RegistryObject)
    (registries : List (RegistryType × NameGroups))
    → registry_count t n (add_object o registries)
      ≡ registry_count t n registries
        + (if same_type o.registry_type t && same_text (normal_name o) n then 1 else 0)
unfolding add_object
registry_count-add t n o [] = let one = names_count-add n (normal_name o) o.id [] in ground arith
registry_count-add t n o ((u, names) ∷ registries) =
    elim (Bool-cases (same_type u o.registry_type)) [
      | inl self ↦
          let e = same_type→eq u o.registry_type self in
          let same : same_type o.registry_type t ≡ same_type u t =
            ap (λ v. same_type v t) (sym e) in
          let here = names_count-add n (normal_name o) o.id names in ground arith
      | inr other ↦
          let apart : same_type u t ≡ true → same_type o.registry_type t ≡ false = λ h.
            elim (Bool-cases (same_type o.registry_type t)) [
              | inr none_here ↦ none_here
              | inl both ↦
                  let e = same_type→eq u t h ∙ sym (same_type→eq o.registry_type t both) in
                  let clash = subst (λ v. same_type u v ≡ true) e (same_type_refl u) in cc
            ] in
          let rest = registry_count-add t n o registries in ground (arith, apart)
    ]

group_names-count :
    (t : RegistryType) (n : Text) (os : List RegistryObject)
    (registries : List (RegistryType × NameGroups))
    → registry_count t n (group_names os registries)
      ≡ registry_count t n registries + count_named t n os
unfolding group_names
group_names-count t n [] registries = omega arith
group_names-count t n (o ∷ os) registries =
    omega (
      arith,
      group_names-count t n os (add_object o registries),
      registry_count-add t n o registries,
    )

abbrev AreShort : NameGroups → Type 0
AreShort [] = Unit
AreShort ((n, group) ∷ groups) = (length group ≤ 1) × AreShort groups

abbrev AllShort : List (RegistryType × NameGroups) → Type 0
AllShort [] = Unit
AllShort ((t, names) ∷ registries) = AreShort names × AllShort registries

names_short :
    (t : RegistryType) (groups : NameGroups)
    → (no_violations (name_violations t groups) ≡ true) ↔ AreShort groups
unfolding name_violations
names_short t [] = (λ h. tt, λ h. refl)
names_short t ((n, group) ∷ groups) =
    let (there, back) = names_short t groups in
    (λ h. (ground arith, there (ground arith)), λ (h, rest). let e = back rest in ground arith)

all_short :
    (registries : List (RegistryType × NameGroups))
    → (no_violations (registry_violations registries) ≡ true) ↔ AllShort registries
unfolding registry_violations
all_short [] = (λ h. tt, λ h. refl)
all_short ((t, names) ∷ registries) =
    let (there, back) = all_short registries in
    let (there₁, back₁) = names_short t names in
    let split = no_violations-append (name_violations t names) (registry_violations registries) in
    (
      λ h. (there₁ (ground arith), there (ground arith)),
      λ (h, rest). let e = back rest in let f = back₁ h in ground arith,
    )

AreShort-count : (n : Text) (groups : NameGroups) → AreShort groups → names_count n groups ≤ 1
AreShort-count n [] h = omega arith
AreShort-count n ((m, group) ∷ groups) (h, rest) =
    let e = AreShort-count n groups rest in ground arith

AllShort-count :
    (t : RegistryType) (n : Text) (registries : List (RegistryType × NameGroups))
    → AllShort registries
    → registry_count t n registries ≤ 1
AllShort-count t n [] h = omega arith
AllShort-count t n ((u, names) ∷ registries) (h, rest) =
    let e = AreShort-count n names h in let f = AllShort-count t n registries rest in ground arith

AreShort-add :
    (m : Text) (id : Key) (groups : NameGroups)
    → AreShort groups
    → names_count m (add_name m id groups) ≤ 1
    → AreShort (add_name m id groups)
unfolding add_name
AreShort-add m id [] h few = (omega arith, tt)
AreShort-add m id ((k, group) ∷ groups) (h, rest) few = elim (Bool-cases (same_text k m)) [
  | inl self ↦ rw (self, if◌then◌else◌) (ground arith, rest)
  | inr other ↦ rw (other, if◌then◌else◌) (h, AreShort-add m id groups rest (ground arith))
]

AllShort-add :
    (o : RegistryObject) (registries : List (RegistryType × NameGroups))
    → AllShort registries
    → registry_count o.registry_type (normal_name o) (add_object o registries) ≤ 1
    → AllShort (add_object o registries)
unfolding add_object
AllShort-add o [] h few =
    (AreShort-add (normal_name o) o.id [] tt (ground (arith, same_type_refl o.registry_type)), tt)
AllShort-add o ((u, names) ∷ registries) (h, rest) few =
    elim (Bool-cases (same_type u o.registry_type)) [
      | inl self ↦
          rw (self, if◌then◌else◌) (AreShort-add (normal_name o) o.id names h (ground arith), rest)
      | inr other ↦ rw (other, if◌then◌else◌) (h, AllShort-add o registries rest (ground arith))
    ]

group_names-AllShort :
    (os : List RegistryObject) (registries : List (RegistryType × NameGroups))
    → AllShort registries
    → ((t : RegistryType) (n : Text) → registry_count t n registries + count_named t n os ≤ 1)
    → AllShort (group_names os registries)
unfolding group_names
group_names-AllShort [] registries h few = h
group_names-AllShort (o ∷ os) registries h few =
    let added = registry_count-add o.registry_type (normal_name o) o registries in
    let here = few o.registry_type (normal_name o) in
    let self = same_text_refl (normal_name o) in
    let same = same_type_refl o.registry_type in
    group_names-AllShort os (add_object o registries) (AllShort-add o registries h (ground arith))
      (λ t n. omega (arith, few t n, registry_count-add t n o registries))

-- The grouping finds no two objects of one name exactly when no registry has two.
pub group_names-passed :
    (os : List RegistryObject)
    → (no_violations (registry_violations (group_names os [])) ≡ true)
      ↔ ((t : RegistryType) (n : Text) → count_named t n os ≤ 1)
group_names-passed os =
    let (there, back) = all_short (group_names os []) in
    (
      λ h t n.
          omega
            (arith, AllShort-count t n (group_names os []) (there h), group_names-count t n os []),
      λ few. back (group_names-AllShort os [] tt (λ t n. omega (arith, few t n))),
    )

abbrev pub object_ids : List RegistryObject → List Key
object_ids [] = []
object_ids (o ∷ os) = o.id ∷ object_ids os

-- No id stands twice.
abbrev pub AreDistinct : List Key → Type 0
AreDistinct [] = Unit
AreDistinct (k ∷ ks) = (elem k ks ≡ false) × AreDistinct ks

abbrev Apart : List Key → List RegistryObject → Type 0
Apart seen [] = Unit
Apart seen (o ∷ os) = (elem o.id seen ≡ false) × Apart seen os

Apart-cons :
    (k : Key) (seen : List Key) (os : List RegistryObject)
    → Apart (k ∷ seen) os ↔ (elem k (object_ids os) ≡ false) × Apart seen os
Apart-cons k seen [] = (λ h. (refl, tt), λ h. tt)
Apart-cons k seen (o ∷ os) =
    let (there, back) = Apart-cons k seen os in
    (
      λ (h, rest). let (e, f) = there rest in (ground arith, (ground arith, f)),
      λ (h, (g, rest)). (ground arith, back (ground arith, rest)),
    )

duplicate_ids_lem :
    (seen : List Key) (os : List RegistryObject)
    → (no_violations (duplicate_ids seen os) ≡ true) ↔ AreDistinct (object_ids os) × Apart seen os
unfolding duplicate_ids
duplicate_ids_lem seen [] = (λ h. (tt, tt), λ h. refl)
duplicate_ids_lem seen (o ∷ os) =
    let (there, back) = duplicate_ids_lem (o.id ∷ seen) os in
    let (apart, together) = Apart-cons o.id seen os in
    (
      λ h.
          let (d, a) = there (ground arith) in
          let (fresh, rest) = apart a in ((fresh, d), (ground arith, rest)),
      λ ((fresh, d), (new, rest)). let e = back (d, together (fresh, rest)) in ground arith,
    )

Apart-nil : (os : List RegistryObject) → Apart [] os
Apart-nil [] = tt
Apart-nil (o ∷ os) = (refl, Apart-nil os)

pub duplicate_ids-passed :
    (os : List RegistryObject)
    → (no_violations (duplicate_ids [] os) ≡ true) ↔ AreDistinct (object_ids os)
duplicate_ids-passed os =
    let (there, back) = duplicate_ids_lem [] os in (λ h. (there h).0, λ d. back (d, Apart-nil os))

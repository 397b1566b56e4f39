-- ===== src/Prelude/Dict.antt =====
-- A Python `dict` with string keys, in insertion order: writing to a key that is present keeps
-- its place.
use bhiv_masterdb_ingestion.Prelude.Tests.{◌==◌, if◌then◌else◌, Key, Bool-cases, ==→eq}
use mathlib.Core.Logic.{inl, inr}
use mathlib.Core.Path.{◌≡◌, refl}
use mathlib.Core.Bool.{Bool, true, false}
use mathlib.Core.Option.{Option, none, some}
use mathlib.Core.List.{List, [], ◌∷◌}
use native.Mathlib.Omega.{arith}

abbrev pub Dict {ℓ} : Type ℓ → Type ℓ
Dict V = List (Key × V)

module _ {ℓ} {V : Type ℓ} where
  -- `d.get(k)`
  abbrev pub get : Key → Dict V → Option V
  get k [] = none
  get k ((j, v) ∷ d) = if j == k then some v else get k d

  -- `d[k] = v`
  abbrev pub put : Key → V → Dict V → Dict V
  put k v [] = (k, v) ∷ []
  put k v ((j, w) ∷ d) = if j == k then (j, v) ∷ d else (j, w) ∷ put k v d

  -- `k in d`
  abbrev pub contains : Key → Dict V → Bool
  contains k [] = false
  contains k ((j, _) ∷ d) = if j == k then true else contains k d

  -- `del d[k]`
  abbrev pub remove : Key → Dict V → Dict V
  remove k [] = []
  remove k ((j, v) ∷ d) = if j == k then d else (j, v) ∷ remove k d

  -- `list(d.values())`
  abbrev pub values : Dict V → List V
  values [] = []
  values ((_, v) ∷ d) = v ∷ values d

  pub get-put :
      (k j : Key) (v : V) (d : Dict V) → get j (put k v d) ≡ (if k == j then some v else get j d)
  get-put k j v [] = refl
  get-put k j v ((i, w) ∷ d) = ground (arith, get-put k j v d)

  pub get-put_self : (k : Key) (v : V) (d : Dict V) → get k (put k v d) ≡ some v
  get-put_self k v d = ground (arith, get-put k k v d)

  pub put-put : (k : Key) (v w : V) (d : Dict V) → put k w (put k v d) ≡ put k w d
  put-put k v w [] = ground arith
  put-put k v w ((i, u) ∷ d) = ground (arith, put-put k v w d)

  -- Writing back what is there changes nothing.
  pub put-get : (k : Key) (v : V) (d : Dict V) → get k d ≡ some v → put k v d ≡ d
  put-get k v [] h = ground arith
  put-get k v ((i, u) ∷ d) h = ground (arith, put-get k v d)

  -- No key stands twice, as in every `dict`.
  abbrev pub HasDistinctKeys : Dict V → Type ℓ
  HasDistinctKeys [] = Unit
  HasDistinctKeys ((k, v) ∷ d) = (get k d ≡ none) × HasDistinctKeys d

  pub put-HasDistinctKeys :
      (k : Key) (v : V) (d : Dict V) → HasDistinctKeys d → HasDistinctKeys (put k v d)
  put-HasDistinctKeys k v [] h = (refl, tt)
  put-HasDistinctKeys k v ((j, w) ∷ d) (fresh, h) = elim (Bool-cases (j == k)) [
    | inl self ↦ rw (self, if◌then◌else◌) (fresh, h)
    | inr other ↦
        let still : get j (put k v d) ≡ none = ground (arith, get-put k j v d) in
        rw (other, if◌then◌else◌) (still, put-HasDistinctKeys k v d h)
  ]

  pub get-remove :
      (k j : Key) (d : Dict V)
      → HasDistinctKeys d
      → get j (remove k d) ≡ (if k == j then none else get j d)
  get-remove k j [] h = ground arith
  get-remove k j ((i, w) ∷ d) (fresh, h) =
      let rest = get-remove k j d h in ground (arith, ==→eq i k, ==→eq k j)

  pub remove-HasDistinctKeys :
      (k : Key) (d : Dict V) → HasDistinctKeys d → HasDistinctKeys (remove k d)
  remove-HasDistinctKeys k [] h = tt
  remove-HasDistinctKeys k ((j, w) ∷ d) (fresh, h) = elim (Bool-cases (j == k)) [
    | inl self ↦ rw (self, if◌then◌else◌) h
    | inr other ↦
        let still : get j (remove k d) ≡ none = ground (arith, get-remove k j d h) in
        rw (other, if◌then◌else◌) (still, remove-HasDistinctKeys k d h)
  ]

-- ===== src/Documents/Chain.antt =====
-- canonical_repository/store.py: the history of one document, numbered and chained by hashes.
use bhiv_masterdb_ingestion.Prelude.{
  ℕ, ◌+◌, ◌≡◌, refl, ◌∙◌, sym, ap, some, List, [], ◌∷◌, ◌++◌, arith, Key, length, last?,
}
use bhiv_masterdb_ingestion.Documents.{DocumentVersion, find_version, mismatches}

module _ (content_hash : Key → Key → Key) where
  -- After `n` versions, the last with this hash, the versions go on with their numbers, and each hash
  -- covers the hash before it.
  abbrev pub IsChain : ℕ → Key → List DocumentVersion → Type 0
  IsChain n previous [] = Unit
  IsChain n previous (v ∷ vs) =
      (v.version_number ≡ n + 1)
      × (v.content_hash ≡ content_hash previous v.content)
      × IsChain (n + 1) v.content_hash vs

  pub mismatches-IsChain :
      (n : ℕ) (previous : Key) (vs : List DocumentVersion)
      → IsChain n previous vs
      → mismatches content_hash previous vs ≡ []
  mismatches-IsChain n previous [] h = refl
  mismatches-IsChain n previous (v ∷ vs) (number, hash, h) =
      let rest = mismatches-IsChain (n + 1) v.content_hash vs h in ground arith

  pub last-IsChain :
      (n : ℕ) (previous : Key) (vs : List DocumentVersion) (l : DocumentVersion)
      → IsChain n previous vs
      → last? vs ≡ some l
      → l.version_number ≡ n + length vs
  last-IsChain n previous [] l h e = cc
  last-IsChain n previous (v ∷ []) l (number, hash, h) e =
      let same_version : v ≡ l = cc in rw (sym same_version) (omega arith)
  last-IsChain n previous (v ∷ w ∷ vs) l (number, hash, h) e =
      omega (arith, last-IsChain (n + 1) v.content_hash (w ∷ vs) l h e)

  pub IsChain-append_one :
      (n : ℕ) (previous : Key) (vs : List DocumentVersion) (l v : DocumentVersion)
      → IsChain n previous vs
      → last? vs ≡ some l
      → v.version_number ≡ l.version_number + 1
      → v.content_hash ≡ content_hash l.content_hash v.content
      → IsChain n previous (vs ++ v ∷ [])
  IsChain-append_one n previous [] l v h e number hash = cc
  IsChain-append_one n previous (u ∷ []) l v (number', hash', h) e number hash =
      let same_version : l ≡ u = cc in
      (
        number',
        hash',
        (
          number ∙ ap (λ x. x.version_number + 1) same_version ∙ ap (λ x. x + 1) number',
          hash ∙ ap (λ x. content_hash x.content_hash v.content) same_version,
          tt,
        ),
      )
  IsChain-append_one n previous (u ∷ w ∷ vs) l v (number', hash', h) e number hash =
      (number', hash', IsChain-append_one (n + 1) u.content_hash (w ∷ vs) l v h e number hash)

  -- A version that is there is found after one is added.
  pub find_version-append :
      (k : ℕ) (vs : List DocumentVersion) (v w : DocumentVersion)
      → find_version k vs ≡ some v
      → find_version k (vs ++ w ∷ []) ≡ some v
  find_version-append k [] v w h = cc
  find_version-append k (u ∷ vs) v w h =
      let rest = find_version-append k vs v w in ground (arith, rest)

  -- The version that is added is found under the next number.
  pub find_version-new :
      (n : ℕ) (previous : Key) (vs : List DocumentVersion) (v : DocumentVersion)
      → IsChain n previous vs
      → v.version_number ≡ n + length vs + 1
      → find_version v.version_number (vs ++ v ∷ []) ≡ some v
  find_version-new n previous [] v h number = ground arith
  find_version-new n previous (u ∷ vs) v (number', hash', h) number =
      let rest = find_version-new (n + 1) u.content_hash vs v h (omega arith) in
      ground (arith, rest)

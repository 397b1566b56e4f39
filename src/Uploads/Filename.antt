-- ===== src/Uploads/Filename.antt =====
-- upload/service.py: what `_sanitize_filename` lets through.
use bhiv_masterdb_ingestion.Prelude.{
  ◌≡◌, ℕ, zero, suc, ◌≤◌, Bool, true, false, [], ◌∷◌, arith, ◌==◌, length, take, Bool-cases, inl,
  inr, subst, ==→eq,
}
use bhiv_masterdb_ingestion.Prelude.Text.{Text}
use bhiv_masterdb_ingestion.Uploads.Checks.{replace_others, basename_from, sanitize_filename}

-- No character is a slash or a backslash.
abbrev pub HasNoSeparator : Text → Type 0
HasNoSeparator [] = Unit
HasNoSeparator (c ∷ s) = ((c == 47) ≡ false) × ((c == 92) ≡ false) × HasNoSeparator s

module _ (is_word : ℕ → Bool) (slash : is_word 47 ≡ false) (backslash : is_word 92 ≡ false) where
  separators : (c k : ℕ) → is_word c ≡ true → is_word k ≡ false → (c == k) ≡ false
  separators c k word other = elim (Bool-cases (c == k)) [
    | inr apart ↦ apart
    | inl same ↦
        let clash : is_word k ≡ true = subst (λ d. is_word d ≡ true) (==→eq c k same) word in cc
  ]

  replace_others-HasNoSeparator : (s : Text) → HasNoSeparator (replace_others is_word s)
  unfolding replace_others
  replace_others-HasNoSeparator [] = tt
  replace_others-HasNoSeparator (c ∷ s) =
      let rest = replace_others-HasNoSeparator s in
      let at_slash = λ (h : is_word c ≡ true). separators c 47 h slash in
      let at_backslash = λ (h : is_word c ≡ true). separators c 92 h backslash in
      elim (Bool-cases (is_word c)) [
        | inl word ↦
            let first = at_slash word in
            let second = at_backslash word in (ground arith, ground arith, rest)
        | inr other ↦ (ground arith, ground arith, rest)
      ]

take-HasNoSeparator : (n : ℕ) (s : Text) → HasNoSeparator s → HasNoSeparator (take n s)
take-HasNoSeparator zero s h = tt
take-HasNoSeparator (suc n) [] h = tt
take-HasNoSeparator (suc n) (c ∷ s) (a, b, rest) = (a, b, take-HasNoSeparator n s rest)

length-take-le : (n : ℕ) (s : Text) → length (take n s) ≤ n
length-take-le zero s = omega arith
length-take-le (suc n) [] = omega arith
length-take-le (suc n) (c ∷ s) = omega (arith, length-take-le n s)

-- Whatever the file name, the sanitised one has at most 255 characters, and none of them is a slash
-- or a backslash, if these two are no word characters.
pub sanitize_filename-HasNoSeparator :
    (is_word : ℕ → Bool) (filename : Text)
    → is_word 47 ≡ false
    → is_word 92 ≡ false
    → HasNoSeparator (sanitize_filename is_word filename)
      × (length (sanitize_filename is_word filename) ≤ 255)
unfolding sanitize_filename
sanitize_filename-HasNoSeparator is_word filename slash backslash =
    let name = replace_others is_word (basename_from filename filename) in
    (
      take-HasNoSeparator 255 name
          (replace_others-HasNoSeparator is_word slash backslash (basename_from filename filename)),
      length-take-le 255 name,
    )

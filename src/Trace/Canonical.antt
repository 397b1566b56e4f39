-- ===== src/Trace/Canonical.antt =====
-- utils/trace.py: what `normalize_trace_id` returns.
use bhiv_masterdb_ingestion.Prelude.{
  ◌≡◌, refl, ℕ, zero, suc, Bool, true, false, some, [], ◌∷◌, arith, if◌then◌else◌, leb, ◌&&◌, ◌||◌,
  drop, elem, Bool-cases, inl, inr,
}
use bhiv_masterdb_ingestion.Prelude.Text.{
  Text, codes, lower, strip, lstrip, rstrip, is_empty, starts_with,
}
use bhiv_masterdb_ingestion.Trace.{
  hex_run, is_valid_trace_id, unhyphenate, normalize_cleaned, normalize_trace_id,
}

-- `n` digits 0 to 9 and a to f, and nothing more.
abbrev pub is_lower_hex : ℕ → Text → Bool
is_lower_hex zero [] = true
is_lower_hex zero (c ∷ s) = false
is_lower_hex (suc n) [] = false
is_lower_hex (suc n) (c ∷ s) = (leb 48 c && leb c 57 || leb 97 c && leb c 102) && is_lower_hex n s

-- The line feed is not among the characters.
abbrev pub HasNoLineFeed : Text → Type 0
HasNoLineFeed s = elem 10 s ≡ false

lower-is_lower_hex :
    (n : ℕ) (s : Text) → HasNoLineFeed s → hex_run n s ≡ true → is_lower_hex n (lower s) ≡ true
unfolding hex_run
lower-is_lower_hex zero [] clean h = refl
lower-is_lower_hex zero (c ∷ s) clean h = ground arith
lower-is_lower_hex (suc n) [] clean h = cc
lower-is_lower_hex (suc n) (c ∷ s) clean h =
    let rest = lower-is_lower_hex n s in ground (arith, rest)

valid-is_lower_hex :
    (s : Text)
    → HasNoLineFeed s
    → is_valid_trace_id (some s) ≡ true
    → is_lower_hex 32 (lower s) ≡ true
unfolding is_valid_trace_id
valid-is_lower_hex s clean h = lower-is_lower_hex 32 s clean (ground arith)

lstrip-HasNoLineFeed : (s : Text) → HasNoLineFeed s → HasNoLineFeed (lstrip s)
lstrip-HasNoLineFeed [] h = refl
lstrip-HasNoLineFeed (c ∷ s) h = ground (arith, lstrip-HasNoLineFeed s)

rstrip-HasNoLineFeed : (s : Text) → HasNoLineFeed s → HasNoLineFeed (rstrip s)
rstrip-HasNoLineFeed [] h = refl
rstrip-HasNoLineFeed (c ∷ s) h = ground (arith, rstrip-HasNoLineFeed s)

unhyphenate-HasNoLineFeed : (s : Text) → HasNoLineFeed s → HasNoLineFeed (unhyphenate s)
unfolding unhyphenate
unhyphenate-HasNoLineFeed [] h = refl
unhyphenate-HasNoLineFeed (c ∷ s) h = ground (arith, unhyphenate-HasNoLineFeed s)

drop-HasNoLineFeed : (n : ℕ) (s : Text) → HasNoLineFeed s → HasNoLineFeed (drop n s)
drop-HasNoLineFeed zero s h = h
drop-HasNoLineFeed (suc n) [] h = h
drop-HasNoLineFeed (suc n) (c ∷ s) h = drop-HasNoLineFeed n s (ground arith)

cleaned-is_lower_hex :
    (s fresh : Text)
    → HasNoLineFeed s
    → is_lower_hex 32 fresh ≡ true
    → is_lower_hex 32 (normalize_cleaned s fresh) ≡ true
unfolding normalize_cleaned
cleaned-is_lower_hex s fresh clean h =
    let whole = valid-is_lower_hex s clean in
    let joined = valid-is_lower_hex (unhyphenate s) (unhyphenate-HasNoLineFeed s clean) in
    let bare = valid-is_lower_hex (drop 6 s) (drop-HasNoLineFeed 6 s clean) in
    elim (Bool-cases (is_valid_trace_id (some s))) [
      | inl a ↦ rw (a, if◌then◌else◌) (whole a)
      | inr b ↦ elim (Bool-cases (is_valid_trace_id (some (unhyphenate s)))) [
        | inl c ↦ rw (b, c, if◌then◌else◌) (joined c)
        | inr d ↦ elim (Bool-cases (is_valid_trace_id (some (drop 6 s)))) [
          | inl e ↦ elim (Bool-cases (starts_with (codes "trace-") (lower s))) [
            | inl f ↦ rw (b, d, e, f, if◌then◌else◌) (bare e)
            | inr g ↦ rw (b, d, e, g, if◌then◌else◌) h
          ]
          | inr k ↦ elim (Bool-cases (starts_with (codes "trace-") (lower s))) [
            | inl f ↦ rw (b, d, k, f, if◌then◌else◌) h
            | inr g ↦ rw (b, d, k, g, if◌then◌else◌) h
          ]
        ]
      ]
    ]

-- A trace id comes out as 32 lower-case hexadecimal digits, whatever the candidate is, if no line feed
-- stands in it and the freshly generated id has that form.
pub normalize_trace_id-canonical :
    (candidate fresh : Text)
    → HasNoLineFeed candidate
    → is_lower_hex 32 fresh ≡ true
    → is_lower_hex 32 (normalize_trace_id (some candidate) fresh) ≡ true
unfolding normalize_trace_id
normalize_trace_id-canonical candidate fresh clean h = elim (Bool-cases (is_empty candidate)) [
  | inl absent ↦ rw (absent, if◌then◌else◌) h
  | inr present ↦
      rw (present, if◌then◌else◌)
        (cleaned-is_lower_hex (strip candidate) fresh
          (rstrip-HasNoLineFeed (lstrip candidate) (lstrip-HasNoLineFeed candidate clean)) h)
]

-- ===== src/RateLimiter/Recent.antt =====
-- middleware/rate_limiter.py: the times of a window that are recent, and the loop that drops the others.
use bhiv_masterdb_ingestion.Prelude.{
  ℕ, suc, ◌+◌, ◌-◌, ◌≤◌, ◌≡◌, refl, inl, inr, List, [], ◌∷◌, ◌++◌, arith, Key, length, leb, ltb,
  if◌then◌else◌, Bool-cases, ◌==◌,
}
use bhiv_masterdb_ingestion.Prelude.Dict.{put, get-put}
use bhiv_masterdb_ingestion.RateLimiter.{RateLimiter, expire, window_of}

-- How many of these times are at most `width` before `now`.
abbrev pub recent : ℕ → ℕ → List ℕ → ℕ
recent width now [] = 0
recent width now (t ∷ ts) =
    let rest = recent width now ts in if leb now (t + width) then suc rest else rest

-- The times of a window go up, to `now` at most.
abbrev pub IsOrdered : ℕ → List ℕ → Type 0
IsOrdered now [] = Unit
IsOrdered now (t ∷ []) = t ≤ now
IsOrdered now (t ∷ u ∷ ts) = (t ≤ u) × IsOrdered now (u ∷ ts)

pub head_le : (now t : ℕ) (ts : List ℕ) → IsOrdered now (t ∷ ts) → t ≤ now
head_le now t [] h = h
head_le now t (u ∷ ts) (le, h) = omega (arith, head_le now u ts h)

tail-IsOrdered : (now t : ℕ) (ts : List ℕ) → IsOrdered now (t ∷ ts) → IsOrdered now ts
tail-IsOrdered now t [] h = tt
tail-IsOrdered now t (u ∷ ts) (_, h) = h

pub IsOrdered-later :
    (now later : ℕ) (ts : List ℕ) → now ≤ later → IsOrdered now ts → IsOrdered later ts
IsOrdered-later now later [] le h = tt
IsOrdered-later now later (t ∷ []) le h = omega arith
IsOrdered-later now later (t ∷ u ∷ ts) le (first, h) =
    (first, IsOrdered-later now later (u ∷ ts) le h)

pub IsOrdered-append_one :
    (now : ℕ) (ts : List ℕ) → IsOrdered now ts → IsOrdered now (ts ++ now ∷ [])
IsOrdered-append_one now [] h = omega arith
IsOrdered-append_one now (t ∷ []) h = (h, omega arith)
IsOrdered-append_one now (t ∷ u ∷ ts) (first, h) = (first, IsOrdered-append_one now (u ∷ ts) h)

pub recent_all :
    (width now t : ℕ) (ts : List ℕ)
    → IsOrdered now (t ∷ ts)
    → now ≤ t + width
    → recent width now (t ∷ ts) ≡ suc (length ts)
recent_all width now t [] h fresh = ground arith
recent_all width now t (u ∷ ts) (le, h) fresh =
    let rest = recent_all width now u ts h (omega arith) in ground (arith, rest)

pub recent_le : (width now : ℕ) (ts : List ℕ) → recent width now ts ≤ length ts
recent_le width now [] = omega arith
recent_le width now (t ∷ ts) = let rest = recent_le width now ts in ground (arith, rest)

pub recent-append_one :
    (width now later : ℕ) (ts : List ℕ)
    → recent width later (ts ++ now ∷ []) ≡ recent width later ts + recent width later (now ∷ [])
recent-append_one width now later [] = omega arith
recent-append_one width now later (t ∷ ts) =
    let rest = recent-append_one width now later ts in
    elim (Bool-cases (leb later (t + width))) [
      | inl in_time ↦ rw (in_time, if◌then◌else◌) (omega (arith, rest))
      | inr late ↦ rw (late, if◌then◌else◌) rest
    ]

-- The loop that pops from the old end keeps exactly the recent ones.
pub length-expire :
    (width now : ℕ) (ts : List ℕ)
    → IsOrdered now ts
    → length (expire width now ts) ≡ recent width now ts
length-expire width now [] h = refl
length-expire width now (t ∷ ts) h =
    let rest = length-expire width now ts (tail-IsOrdered now t ts h) in
    elim (Bool-cases (ltb width (now - t))) [
      | inl old ↦ ground (arith, rest)
      | inr fresh ↦ let all = recent_all width now t ts h (ground arith) in ground (arith, all)
    ]

pub IsOrdered-expire :
    (width now : ℕ) (ts : List ℕ) → IsOrdered now ts → IsOrdered now (expire width now ts)
IsOrdered-expire width now [] h = tt
IsOrdered-expire width now (t ∷ ts) h = elim (Bool-cases (ltb width (now - t))) [
  | inl old ↦ rw (old, if◌then◌else◌) (IsOrdered-expire width now ts (tail-IsOrdered now t ts h))
  | inr fresh ↦ rw (fresh, if◌then◌else◌) h
]

-- What the loop drops is recent at no later time.
pub recent-expire :
    (width now later : ℕ) (ts : List ℕ)
    → now ≤ later
    → recent width later (expire width now ts) ≡ recent width later ts
recent-expire width now later [] le = refl
recent-expire width now later (t ∷ ts) le =
    let rest = recent-expire width now later ts le in ground (arith, rest)

abbrev pub HeadIsRecent : ℕ → ℕ → List ℕ → Type 0
HeadIsRecent width now [] = Unit
HeadIsRecent width now (t ∷ ts) = now ≤ t + width

pub HeadIsRecent-expire :
    (width now : ℕ) (ts : List ℕ) → HeadIsRecent width now (expire width now ts)
HeadIsRecent-expire width now [] = tt
HeadIsRecent-expire width now (t ∷ ts) = elim (Bool-cases (ltb width (now - t))) [
  | inl old ↦ rw (old, if◌then◌else◌) (HeadIsRecent-expire width now ts)
  | inr fresh ↦ rw (fresh, if◌then◌else◌) (ground arith)
]

pub window_of-put :
    (r : RateLimiter) (k j : Key) (w : List ℕ)
    → window_of (record r { requests = put k w r.requests }) j
      ≡ (if k == j then w else window_of r j)
window_of-put r k j w = ground (arith, get-put k j w r.requests)

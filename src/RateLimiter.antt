-- ===== src/RateLimiter.antt =====
-- middleware/rate_limiter.py: `SlidingWindowRateLimiter`. Times are ticks of the clock; a clock that
-- stands behind a request's time has seen no time pass since.
pub mod Recent
pub mod Window
mod Tests
use bhiv_masterdb_ingestion.Prelude.{
  ℕ, ◌+◌, ◌-◌, Bool, true, false, Option, none, some, List, [], ◌∷◌, ◌++◌, Key, length, leb, ltb,
  if◌then◌else◌,
}
use bhiv_masterdb_ingestion.Prelude.Dict.{Dict, get, put}

pub record RateLimiter : Type 0 where
  pub max_requests : ℕ
  pub window_seconds : ℕ
  pub requests : Dict (List ℕ)

-- The `while` loop: the requests that have left the window are dropped from its old end.
abbrev pub expire : ℕ → ℕ → List ℕ → List ℕ
expire width now [] = []
expire width now (t ∷ ts) = if ltb width (now - t) then expire width now ts else t ∷ ts

-- `self._requests[key]`, where `defaultdict` makes the missing one
abbrev pub window_of : RateLimiter → Key → List ℕ
window_of r key = elim (get key r.requests) [ none ↦ [] | some w ↦ w ]

unfoldable pub allow : RateLimiter → Key → ℕ → Bool × RateLimiter
allow r key now =
    let window = expire r.window_seconds now (window_of r key) in
    if leb r.max_requests (length window)
    then (false, record r { requests = put key window r.requests })
    else (true, record r { requests = put key (window ++ now ∷ []) r.requests })

abbrev pub time_left : ℕ → ℕ → List ℕ → ℕ
time_left width now [] = 0
time_left width now (oldest ∷ _) = width - (now - oldest)

unfoldable pub retry_after_seconds : RateLimiter → Key → ℕ → ℕ × RateLimiter
retry_after_seconds r key now =
    let window = window_of r key in
    (time_left r.window_seconds now window, record r { requests = put key window r.requests })

unfoldable pub reset : RateLimiter → RateLimiter
reset r = record r { requests = [] }

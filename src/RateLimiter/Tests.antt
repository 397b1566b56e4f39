-- ===== src/RateLimiter/Tests.antt =====
-- middleware/rate_limiter.py: the theorems at a limiter of two requests in ten ticks.
use bhiv_masterdb_ingestion.Prelude.{
  if◌then◌else◌, ◌+◌, ◌≡◌, refl, false, [], ◌∷◌, ◌==◌, arith, Key, ltb,
}
use bhiv_masterdb_ingestion.RateLimiter.{RateLimiter, allow, retry_after_seconds, window_of}
use bhiv_masterdb_ingestion.RateLimiter.Window.{
  Represents, logged, allow-Represents, retry_after_seconds-allow,
}
use bhiv_masterdb_ingestion.RateLimiter.Recent.{recent}

abbrev new : RateLimiter
new = record { max_requests = 2; window_seconds = 10; requests = [] }

abbrev once : RateLimiter
once = (allow new 7 100).1

abbrev twice : RateLimiter
twice = (allow once 7 104).1

new-Represents : Represents new 7 0 []
new-Represents = record { ordered = tt; agrees = λ later le. refl }

once-Represents : Represents once 7 100 (100 ∷ [])
unfolding allow
once-Represents = (allow-Represents new 7 0 100 [] new-Represents (omega arith)).1

twice-Represents : Represents twice 7 104 (100 ∷ 104 ∷ [])
unfolding allow
twice-Represents = (allow-Represents once 7 100 104 (100 ∷ []) once-Represents (omega arith)).1

allow-Represents_example :
    ((allow twice 7 108).0 ≡ ltb (recent 10 108 (100 ∷ 104 ∷ [])) 2)
    × Represents (allow twice 7 108).1 7 108 (logged (allow twice 7 108).0 108 (100 ∷ 104 ∷ []))
    × ((j : Key)
        → window_of (allow twice 7 108).1 j
          ≡ (if 7 == j then window_of (allow twice 7 108).1 7 else window_of twice j))
unfolding allow
allow-Represents_example =
    allow-Represents twice 7 104 108 (100 ∷ 104 ∷ []) twice-Represents (omega arith)

twice_refused : (allow twice 7 108).0 ≡ false
unfolding allow
twice_refused = refl

retry_after_seconds-allow_example :
    (allow (allow twice 7 108).1 7 (108 + 3)).0
    ≡ ltb (retry_after_seconds (allow twice 7 108).1 7 108).0 3
unfolding allow
retry_after_seconds-allow_example =
    retry_after_seconds-allow twice 7 104 108 (100 ∷ 104 ∷ []) 3 twice-Represents (omega arith)
      (omega arith) (omega arith) twice_refused

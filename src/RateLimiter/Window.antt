-- ===== src/RateLimiter/Window.antt =====
-- middleware/rate_limiter.py: how many requests a window lets in, and how one waits for the next.
use bhiv_masterdb_ingestion.Prelude.{
  ℕ, ◌+◌, ◌≤◌, ◌<◌, ◌≡◌, refl, ◌∙◌, inl, inr, Bool, true, false, List, [], ◌∷◌, ◌++◌, arith, Key,
  length, leb, ltb, if◌then◌else◌, Bool-cases, ◌==◌,
}
use bhiv_masterdb_ingestion.Prelude.Dict.{put}
use bhiv_masterdb_ingestion.RateLimiter.{
  RateLimiter, expire, window_of, allow, retry_after_seconds, time_left,
}
use bhiv_masterdb_ingestion.RateLimiter.Recent.{
  recent, IsOrdered, head_le, IsOrdered-later, IsOrdered-append_one, recent_all, recent_le,
  recent-append_one, length-expire, IsOrdered-expire, recent-expire, HeadIsRecent,
  HeadIsRecent-expire, window_of-put,
}

-- The window of a key stands for a log of all requests it has let in: it is in order, and at every
-- later time as many of its requests are recent as of the log's.
pub record Represents (r : RateLimiter) (key : Key) (now : ℕ) (log : List ℕ) : Type 0 where
  pub ordered : IsOrdered now (window_of r key)
  pub agrees :
      (later : ℕ)
      → now ≤ later
      → recent r.window_seconds later (window_of r key) ≡ recent r.window_seconds later log

-- The log after a call.
abbrev pub logged : Bool → ℕ → List ℕ → List ℕ
logged true now log = log ++ now ∷ []
logged false now log = log

module _ (r : RateLimiter) (key : Key) (before now : ℕ) (log : List ℕ) where
  abbrev width : ℕ
  width = r.window_seconds

  abbrev kept : List ℕ
  kept = expire width now (window_of r key)

  abbrev call : Bool × RateLimiter
  call = allow r key now

  full_shape :
      leb r.max_requests (length kept) ≡ true
      → (call.0 ≡ false)
        × ((j : Key) → window_of call.1 j ≡ (if key == j then kept else window_of r j))
        × (call.1.window_seconds ≡ width)
  unfolding allow
  full_shape full = (ground arith, λ j. ground (arith, window_of-put r key j kept), ground arith)

  free_shape :
      leb r.max_requests (length kept) ≡ false
      → (call.0 ≡ true)
        × ((j : Key) → window_of call.1 j ≡ (if key == j then kept ++ now ∷ [] else window_of r j))
        × (call.1.window_seconds ≡ width)
  unfolding allow
  free_shape free =
      (ground arith, λ j. ground (arith, window_of-put r key j (kept ++ now ∷ [])), ground arith)

  -- The limiter keeps only what it still needs, and decides as if it kept the log of every request
  -- that it let in: at times that do not run backwards, a request is let in exactly if fewer than
  -- `max_requests` of the log are at most `window_seconds` old, the window then stands for the
  -- log with that request, and no other key is touched.
  pub allow-Represents :
      Represents r key before log
      → before ≤ now
      → (call.0 ≡ ltb (recent width now log) r.max_requests)
        × Represents call.1 key now (logged call.0 now log)
        × ((j : Key)
            → window_of call.1 j ≡ (if key == j then window_of call.1 key else window_of r j))
  allow-Represents h le =
      let ordered = IsOrdered-later before now (window_of r key) le h.ordered in
      let count = length-expire width now (window_of r key) ordered in
      let same_count = h.agrees now le in
      elim (Bool-cases (leb r.max_requests (length kept))) [
        | inl full ↦
            let (answer, windows, width_same) = full_shape full in
            let mine : window_of call.1 key ≡ kept = ground (arith, windows key) in
            (
              ground arith,
              rw (answer, logged)
                  (record {
                    ordered = rw mine (IsOrdered-expire width now (window_of r key) ordered);
                    agrees = λ later later_le.
                        rw (mine, width_same)
                          (recent-expire width now later (window_of r key) later_le
                            ∙ h.agrees later (omega arith));
                  }),
              λ j. ground (arith, windows j, mine),
            )
        | inr free ↦
            let (answer, windows, width_same) = free_shape free in
            let mine : window_of call.1 key ≡ kept ++ now ∷ [] = ground (arith, windows key) in
            (
              ground arith,
              rw (answer, logged)
                  (record {
                    ordered = rw mine (
                        IsOrdered-append_one now kept
                          (IsOrdered-expire width now (window_of r key) ordered));
                    agrees = λ later later_le.
                        let a = recent-append_one width now later kept in
                        let b = recent-append_one width now later log in
                        let c = recent-expire width now later (window_of r key) later_le in
                        let d = h.agrees later (omega arith) in
                        rw (mine, width_same) (omega (arith, a, b, c, d));
                  }),
              λ j. ground (arith, windows j, mine),
            )
      ]

  wait_lem :
      (max d : ℕ) (w : List ℕ)
      → IsOrdered now w
      → HeadIsRecent width now w
      → length w ≡ max
      → 0 < max
      → ltb (recent width (now + d) w) max ≡ ltb (time_left width now w) d
  wait_lem max d [] h head len pos = absurd (omega arith)
  wait_lem max d (t ∷ ts) h head len pos =
      let le = head_le now t ts h in
      let later = IsOrdered-later now (now + d) (t ∷ ts) (omega arith) h in
      let all = recent_all width (now + d) t ts later in
      let few = recent_le width (now + d) ts in
      elim (Bool-cases (leb (now + d) (t + width))) [
        | inl in_time ↦ let a = all (ground arith) in ground (arith, a)
        | inr late ↦ ground (arith, few)
      ]

  -- For a positive limit, a key that was refused, with a window that stands for a log and holds
  -- no more requests than the limit, is let in after `d` more ticks exactly if
  -- `retry_after_seconds` is less than `d`.
  pub retry_after_seconds-allow :
      (d : ℕ)
      → Represents r key before log
      → before ≤ now
      → 0 < r.max_requests
      → length (window_of r key) ≤ r.max_requests
      → call.0 ≡ false
      → (allow call.1 key (now + d)).0 ≡ ltb (retry_after_seconds call.1 key now).0 d
  retry_after_seconds-allow d h le pos bound refused =
      elim (Bool-cases (leb r.max_requests (length kept))) [
        | inr free ↦ let (answer, _, _) = free_shape free in absurd (false≢true answer)
        | inl full ↦
            let mine : window_of refused_state key ≡ kept =
              ground (arith, window_of-put r key key kept) in
            let shape : call ≡ (false, refused_state) = unfold allow in ground arith in
            let ordered = IsOrdered-later before now (window_of r key) le h.ordered in
            let count = length-expire width now (window_of r key) ordered in
            let few = recent_le width now (window_of r key) in
            let kept_ordered = IsOrdered-expire width now (window_of r key) ordered in
            let then_count =
              length-expire width (now + d) kept
                (IsOrdered-later now (now + d) kept (omega arith) kept_ordered) in
            let len : length kept ≡ r.max_requests = ground arith in
            let wait =
              wait_lem r.max_requests d kept kept_ordered
                (HeadIsRecent-expire width now (window_of r key)) len pos in
            rw
              (
                shape,
                allow_answer refused_state (now + d),
                retry_answer refused_state now,
                mine,
                then_count,
              )
              wait
      ]
    where
      refused_state : RateLimiter
      refused_state = record r { requests = put key kept r.requests }

      allow_answer :
          (q : RateLimiter) (t : ℕ)
          → (allow q key t).0
            ≡ ltb (length (expire q.window_seconds t (window_of q key))) q.max_requests
      allow_answer q t = unfold allow in ground arith

      retry_answer :
          (q : RateLimiter) (t : ℕ)
          → (retry_after_seconds q key t).0 ≡ time_left q.window_seconds t (window_of q key)
      retry_answer q t = unfold retry_after_seconds in refl

      false≢true : call.0 ≡ true → ⊥
      false≢true e = cc (e, refused)

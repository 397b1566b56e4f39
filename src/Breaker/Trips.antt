-- ===== src/Breaker/Trips.antt =====
-- middleware/circuit_breaker.py: when the breaker is open, over all interleavings.
use bhiv_masterdb_ingestion.Prelude.{
  ℕ, ◌+◌, ◌-◌, ◌≤◌, ◌<◌, ◌≡◌, ap, refl, ◌≢◌, ◌⊎◌, inl, inr, Bool, true, false, not, ◌||◌, List, [],
  ◌∷◌, length, arith, Key, err, ltb, Bool-cases, is_some,
}
use bhiv_masterdb_ingestion.Breaker.{
  CircuitBreakerState, closed, open_state, half_open, CircuitBreaker, new_breaker, Outcome,
  returned, expected, circuit_breaker_error, last_or_zero, begin_call, handle_success,
  handle_failure, reset, call, Step, begins, succeeds, fails, resets, Reachable, start, after,
}

abbrev pub is_closed : CircuitBreakerState → Bool
is_closed closed = true
is_closed _ = false

abbrev pub is_open : CircuitBreakerState → Bool
is_open open_state = true
is_open _ = false

open_state→is_open : (s : CircuitBreakerState) → s ≢ open_state → is_open s ≡ false
open_state→is_open closed h = refl
open_state→is_open open_state h = absurd (h refl)
open_state→is_open half_open h = refl

-- The breaker is closed exactly while the failures since the last success are below the threshold;
-- once they are not, the time of the last one is known.
pub record IsTripped (threshold timeout : ℕ) (b : CircuitBreaker) : Type 0 where
  pub limits : (b.failure_threshold ≡ threshold) × (b.timeout_seconds ≡ timeout)
  pub counted : is_closed b.state ≡ ltb b.failure_count threshold
  pub timed : (is_closed b.state ≡ true) ⊎ (is_some b.last_failure_time ≡ true)

state-cases : (s : CircuitBreakerState) → (s ≡ closed) ⊎ (s ≡ open_state) ⊎ (s ≡ half_open)
state-cases closed = inl refl
state-cases open_state = inr (inl refl)
state-cases half_open = inr (inr refl)

-- The timeout since the last failure has passed.
abbrev pub is_due : CircuitBreaker → ℕ → Bool
is_due b now = ltb b.timeout_seconds (now - last_or_zero b.last_failure_time)

module _ (b : CircuitBreaker) (now : ℕ) where
  abbrev counted_call : CircuitBreaker
  counted_call = record b { total_calls = b.total_calls + 1 }

  abbrev probing : CircuitBreaker
  probing = record b { state = half_open; total_calls = b.total_calls + 1 }

  -- The three ways of the first step.
  begin-branches :
      ((begin_call b now ≡ (true, counted_call)) × (b.state ≢ open_state))
      ⊎ ((begin_call b now ≡ (true, probing)) × (b.state ≡ open_state) × (is_due b now ≡ true))
      ⊎ ((begin_call b now ≡ (false, b)) × (b.state ≡ open_state) × (is_due b now ≡ false))
  unfolding begin_call
  begin-branches = elim (state-cases b.state) [
    | inl is_closed_now ↦ inl (ground arith, λ e. cc)
    | inr (inr is_half) ↦ inl (ground arith, λ e. cc)
    | inr (inl is_open) ↦ elim (Bool-cases (is_due b now)) [
      | inl due ↦ inr (inl (ground arith, is_open, due))
      | inr early ↦ inr (inr (ground arith, is_open, early))
    ]
  ]

  pub begin-IsTripped :
      (threshold timeout : ℕ)
      → IsTripped threshold timeout b
      → IsTripped threshold timeout (begin_call b now).1
  begin-IsTripped threshold timeout h = elim begin-branches [
    | inl (shape, _) ↦ rw shape (record { limits = h.limits; counted = h.counted; timed = h.timed })
    | inr (inl (shape, is_open, due)) ↦ rw shape (record {
      limits = h.limits;
      counted = ground (arith, h.counted);
      timed = ground (arith, h.timed);
    })
    | inr (inr (shape, _, _)) ↦ rw shape h
  ]

  fail-IsTripped :
      (threshold timeout : ℕ)
      → IsTripped threshold timeout b
      → IsTripped threshold timeout (handle_failure b now)
  unfolding handle_failure
  fail-IsTripped threshold timeout h = record {
    limits = h.limits;
    counted = ground (arith, h.limits, h.counted);
    timed = inr refl;
  }

step-IsTripped :
    (threshold timeout : ℕ) {b b' : CircuitBreaker}
    → 0 < threshold
    → Step b b'
    → IsTripped threshold timeout b
    → IsTripped threshold timeout b'
unfolding handle_success reset
step-IsTripped threshold timeout pos (begins b now) h = begin-IsTripped b now threshold timeout h
step-IsTripped threshold timeout pos (succeeds b) h = record {
  limits = h.limits;
  counted = ground arith;
  timed = inl refl;
}
step-IsTripped threshold timeout pos (fails b now) h = fail-IsTripped b now threshold timeout h
step-IsTripped threshold timeout pos (resets b) h = record {
  limits = h.limits;
  counted = ground arith;
  timed = inl refl;
}

pub Reachable-IsTripped :
    (threshold timeout : ℕ) (b : CircuitBreaker)
    → 0 < threshold
    → Reachable threshold timeout b
    → IsTripped threshold timeout b
Reachable-IsTripped threshold timeout _ pos start = record {
  limits = (refl, refl);
  counted = ground arith;
  timed = inl refl;
}
Reachable-IsTripped threshold timeout _ pos (after {b} r s) =
    step-IsTripped threshold timeout pos s (Reachable-IsTripped threshold timeout b pos r)

-- A call runs its function exactly if the breaker is not open or the timeout since the last failure
-- has passed; where it does not run, the call raises CircuitBreakerError and the breaker stays as
-- it was, whatever the function would have done.
pub call_runs :
    {A : Type 0} (b : CircuitBreaker) (now later : ℕ) (outcome : Outcome A)
    → ((begin_call b now).0 ≡ (not (is_open b.state) || is_due b now))
      × ((begin_call b now).0 ≡ false → call b now later outcome ≡ (err circuit_breaker_error, b))
unfolding call
call_runs b now later outcome = elim (begin-branches b now) [
  | inl (shape, other) ↦ (rw shape (ground (arith, open_state→is_open b.state other)), λ e. cc)
  | inr (inl (shape, is_open, due)) ↦ (ground arith, λ e. cc)
  | inr (inr (shape, is_open, early)) ↦ (ground arith, λ e. ground arith)
]

-- For a reachable breaker with a positive threshold, the call that probes it half-open decides it
-- alone: if it fails the breaker is open again, and if it returns the breaker is closed with no
-- failures.
pub half_open_probe :
    {A : Type 0} (threshold timeout : ℕ) (b : CircuitBreaker) (now later : ℕ) (a : A) (e : Key)
    → 0 < threshold
    → Reachable threshold timeout b
    → b.state ≡ half_open
    → ((call {A = A} b now later (expected e)).1.state ≡ open_state)
      × ((call b now later (returned a)).1.state ≡ closed)
      × ((call b now later (returned a)).1.failure_count ≡ 0)
unfolding call handle_failure handle_success
half_open_probe threshold timeout b now later a e pos r half =
    let h = Reachable-IsTripped threshold timeout b pos r in
    elim (begin-branches b now) [
      | inl (shape, other) ↦ (ground (arith, h.counted, h.limits), ground arith, ground arith)
      | inr (inl (shape, is_open, due)) ↦ cc
      | inr (inr (shape, is_open, early)) ↦ cc
    ]

-- Calls one after the other, each failing at its time.
abbrev pub failing_calls : CircuitBreaker → List ℕ → CircuitBreaker
failing_calls b [] = b
failing_calls b (t ∷ ts) = failing_calls (call {A = Unit} b t t (expected 0)).1 ts

closed_call :
    (b : CircuitBreaker) (t : ℕ)
    → is_closed b.state ≡ true
    → (call {A = Unit} b t t (expected 0)).1 ≡ handle_failure (counted_call b t) t
unfolding call
closed_call b t h = elim (begin-branches b t) [
  | inl (shape, _) ↦ ground arith
  | inr (inl (shape, opened, due)) ↦ ground arith
  | inr (inr (shape, opened, early)) ↦ ground arith
]

failing_calls-IsTripped :
    (threshold timeout : ℕ) (b : CircuitBreaker) (ts : List ℕ)
    → IsTripped threshold timeout b
    → b.failure_count + length ts ≤ threshold
    → IsTripped threshold timeout (failing_calls b ts)
      × ((failing_calls b ts).failure_count ≡ b.failure_count + length ts)
failing_calls-IsTripped threshold timeout b [] h le = (h, omega arith)
failing_calls-IsTripped threshold timeout b (t ∷ ts) h le =
    let first = closed_call b t (ground (arith, h.counted)) in
    let next : CircuitBreaker = handle_failure (counted_call b t) t in
    let next_count : next.failure_count ≡ b.failure_count + 1 = unfold handle_failure in refl in
    let counted : IsTripped threshold timeout (counted_call b t) = record {
      limits = h.limits;
      counted = h.counted;
      timed = h.timed;
    } in
    let (trips, count) =
      failing_calls-IsTripped threshold timeout next ts
        (fail-IsTripped (counted_call b t) t threshold timeout counted) (omega arith) in
    let total : (failing_calls next ts).failure_count ≡ b.failure_count + length (t ∷ ts) =
      omega (arith, count, next_count) in
    let same : failing_calls b (t ∷ ts) ≡ failing_calls next ts =
      ap (λ x. failing_calls x ts) first in
    rw same (trips, total)

-- Calls in a row that all fail leave a new breaker closed while they are fewer than the threshold,
-- and the one that reaches it opens the breaker.
pub failing_calls-is_closed :
    (threshold timeout : ℕ) (ts : List ℕ)
    → 0 < threshold
    → length ts ≤ threshold
    → is_closed (failing_calls (new_breaker threshold timeout) ts).state ≡ ltb (length ts) threshold
failing_calls-is_closed threshold timeout ts pos le =
    let (trips, count) =
      failing_calls-IsTripped threshold timeout (new_breaker threshold timeout) ts
        (Reachable-IsTripped threshold timeout (new_breaker threshold timeout) pos start)
        (omega arith) in
    ground (arith, trips.counted, count)

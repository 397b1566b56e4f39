-- ===== src/Breaker.antt =====
-- middleware/circuit_breaker.py: `CircuitBreaker`. Its lock is held by the check before the guarded
-- function and by the count after it, and not in between, so calls of several threads interleave in
-- those two steps. Times are ticks of the clock, and the limits are set by the constructor.
pub mod Trips
mod Tests
use bhiv_masterdb_ingestion.Prelude.{
  ℕ, ◌+◌, ◌-◌, Bool, true, false, Option, none, some, Key, Result, ok, err, leb, ltb, if◌then◌else◌,
}

pub data CircuitBreakerState : Type 0 where
  closed open_state half_open : CircuitBreakerState

pub record CircuitBreaker : Type 0 where
  pub failure_threshold : ℕ
  pub timeout_seconds : ℕ
  pub state : CircuitBreakerState
  pub failure_count : ℕ
  pub last_failure_time : Option ℕ
  pub success_count : ℕ
  pub total_calls : ℕ

-- `__init__`
abbrev pub new_breaker : ℕ → ℕ → CircuitBreaker
new_breaker failure_threshold timeout_seconds = record {
  failure_threshold = failure_threshold;
  timeout_seconds = timeout_seconds;
  state = closed;
  failure_count = 0;
  last_failure_time = none;
  success_count = 0;
  total_calls = 0;
}

-- How a guarded function ends: it returns, or raises an exception of `expected_exceptions`, or
-- another.
pub data Outcome (A : Type 0) : Type 0 where
  returned : A → Outcome A
  expected unexpected : Key → Outcome A

pub data CallError : Type 0 where
  circuit_breaker_error : CallError
  raised : Key → CallError

-- `self.last_failure_time or 0`
abbrev pub last_or_zero : Option ℕ → ℕ
last_or_zero none = 0
last_or_zero (some t) = t

abbrev pub check_state : CircuitBreaker → ℕ → CircuitBreaker
check_state b now = elim b.state [
  | open_state ↦
      if ltb b.timeout_seconds (now - last_or_zero b.last_failure_time)
      then record b { state = half_open }
      else b
  | _ ↦ b
]

-- The first locked part of `call`: whether the function may run.
unfoldable pub begin_call : CircuitBreaker → ℕ → Bool × CircuitBreaker
begin_call b now =
    let b' = check_state b now in
    elim b'.state [
      | open_state ↦ (false, b')
      | _ ↦ (true, record b' { total_calls = b'.total_calls + 1 })
    ]

unfoldable pub handle_success : CircuitBreaker → CircuitBreaker
handle_success b = record b {
  success_count = b.success_count + 1;
  failure_count = 0;
  state = closed;
}

unfoldable pub handle_failure : CircuitBreaker → ℕ → CircuitBreaker
handle_failure b now = record b {
  failure_count = b.failure_count + 1;
  last_failure_time = some now;
  state = if leb b.failure_threshold (b.failure_count + 1) then open_state else b.state;
}

unfoldable pub reset : CircuitBreaker → CircuitBreaker
reset b = record b {
  state = closed;
  failure_count = 0;
  success_count = 0;
  total_calls = 0;
  last_failure_time = none;
}

abbrev pub finish_call :
    {A : Type 0} → CircuitBreaker → ℕ → Outcome A → Result CallError A × CircuitBreaker
finish_call b now (returned a) = (ok a, handle_success b)
finish_call b now (expected e) = (err (raised e), handle_failure b now)
finish_call b now (unexpected e) = (err (raised e), b)

-- `call` of one thread alone, from `now` to `later`.
unfoldable pub call :
    {A : Type 0} → CircuitBreaker → ℕ → ℕ → Outcome A → Result CallError A × CircuitBreaker
call b now later outcome =
    let (allowed, b') = begin_call b now in
    if allowed then finish_call b' later outcome else (err circuit_breaker_error, b')

-- One step of some thread.
pub data Step : CircuitBreaker → CircuitBreaker → Type 0 where
  begins : (b : CircuitBreaker) (now : ℕ) → Step b (begin_call b now).1
  succeeds : (b : CircuitBreaker) → Step b (handle_success b)
  fails : (b : CircuitBreaker) (now : ℕ) → Step b (handle_failure b now)
  resets : (b : CircuitBreaker) → Step b (reset b)

-- What a new breaker can become.
pub data Reachable (threshold timeout : ℕ) : CircuitBreaker → Type 0 where
  start : Reachable threshold timeout (new_breaker threshold timeout)
  after :
      {b b' : CircuitBreaker}
      → Reachable threshold timeout b
      → Step b b'
      → Reachable threshold timeout b'

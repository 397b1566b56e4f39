-- ===== src/Breaker/Tests.antt =====
-- middleware/circuit_breaker.py: the theorems at a breaker that opens at the second failure.
use bhiv_masterdb_ingestion.Prelude.{◌≡◌, refl}
use bhiv_masterdb_ingestion.Breaker.{
  CircuitBreaker, new_breaker, half_open, begin_call, handle_failure, Reachable, start, after,
  begins, fails,
}

abbrev tripped : CircuitBreaker
tripped = handle_failure (handle_failure (new_breaker 2 30) 100) 101

tripped-Reachable : Reachable 2 30 tripped
tripped-Reachable = after (after start (fails (new_breaker 2 30) 100)) (fails _ 101)

abbrev probing : CircuitBreaker
probing = (begin_call tripped 140).1

probing-Reachable : Reachable 2 30 probing
probing-Reachable = after tripped-Reachable (begins tripped 140)

probing_half_open : probing.state ≡ half_open
unfolding begin_call handle_failure
probing_half_open = refl

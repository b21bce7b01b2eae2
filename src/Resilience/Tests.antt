-- ===== src/Resilience/Tests.antt =====
-- The circuit breaker of src/rust/src/resilience.rs on a threshold of two failures, and its theorems
-- there.
use ores_middleware.Prelude.{◌+◌, ◌≤◌, ◌≡◌, refl, [], ◌∷◌, false, arith}
use ores_middleware.Resilience.{CircuitBreakerConfig, CircuitBreaker, CircuitState, open_since}
use ores_middleware.Resilience.Breaker.{IsValid}
use ores_middleware.Resilience.Trace.{
  ask, succeed, fail, cancel, run, run-IsValid, is_closed, room, probe_ends, probe_budget,
}

abbrev config : CircuitBreakerConfig
config = record { failure_threshold = 2; open_for = 5 }

abbrev breaker : CircuitState → CircuitBreaker
breaker s = record { config = config; state = s }

closed-IsValid : IsValid (breaker (CircuitState.closed 0))
closed-IsValid = record {
  positive = omega arith;
  fits = omega arith;
  opens = omega arith;
  below = omega arith;
}

run-IsValid_example :
    IsValid (run (fail 1 ∷ fail 2 ∷ ask 7 ∷ succeed ∷ []) (breaker (CircuitState.closed 0))).0
run-IsValid_example =
    run-IsValid (fail 1 ∷ fail 2 ∷ ask 7 ∷ succeed ∷ []) (breaker (CircuitState.closed 0))
      closed-IsValid

probe_budget_example :
    (is_closed (run (ask 7 ∷ ask 8 ∷ cancel ∷ ask 9 ∷ []) (breaker (open_since 1))).0.state ≡ false)
    × ((run (ask 7 ∷ ask 8 ∷ cancel ∷ ask 9 ∷ []) (breaker (open_since 1))).1
        ≤ room (open_since 1) + probe_ends (ask 7 ∷ ask 8 ∷ cancel ∷ ask 9 ∷ []))
probe_budget_example =
    probe_budget (ask 7 ∷ ask 8 ∷ cancel ∷ ask 9 ∷ []) (breaker (open_since 1)) refl
      (refl, (refl, (refl, (refl, tt))))

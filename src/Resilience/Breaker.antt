-- ===== src/Resilience/Breaker.antt =====
-- The states of one breaker: the invariant of `resilience.rs`, and when a call is refused.
use ores_middleware.Prelude.{ℕ, ◌≤◌, ◌<◌, ◌≡◌, ◌⊎◌, inl, inr, refl, String, arith, ◌==◌, Bool-cases}
use ores_middleware.Resilience.{
  CircuitBreakerConfig, CircuitBreaker, CircuitState, ok, err, u32_max, new, admit, record_success,
  record_failure, cancel_probe, state, CircuitStateSnapshot,
}

abbrev BelowThreshold : CircuitBreakerConfig → CircuitState → Type 0
BelowThreshold c (CircuitState.closed k) = k < c.failure_threshold
BelowThreshold c _ = Unit

-- A u32 threshold that is not 0, a positive open time, and a closed circuit below its threshold.
pub record IsValid (b : CircuitBreaker) : Type 0 where
  pub positive : 0 < b.config.failure_threshold
  pub fits : b.config.failure_threshold ≤ u32_max
  pub opens : 0 < b.config.open_for
  pub below : BelowThreshold b.config b.state

-- `new` builds a valid closed breaker from a positive u32 threshold and a positive open time, and
-- refuses every other configuration.
pub new_cases :
    (c : CircuitBreakerConfig)
    → c.failure_threshold ≤ u32_max
    → ((b : CircuitBreaker) × (new c ≡ ok b)
        × IsValid b
        × (state b ≡ CircuitStateSnapshot.closed 0))
      ⊎ ((b : String) × (new c ≡ err b) × ((c.failure_threshold ≡ 0) ⊎ (c.open_for ≡ 0)))
unfolding new state
new_cases c h = elim (Bool-cases (c.failure_threshold == 0)) [
  | inl zero_threshold ↦ inr ("circuit_failure_threshold_invalid", ground arith, ground arith)
  | inr positive ↦ elim (Bool-cases (c.open_for == 0)) [
    | inl zero_time ↦ inr ("circuit_open_duration_invalid", ground arith, ground arith)
    | inr opens ↦
        inl (record { config = c; state = CircuitState.closed 0 }, ground arith, ground arith, refl)
  ]
]

-- Every method keeps a breaker valid, at any time.
pub admit-IsValid : (now : ℕ) (b : CircuitBreaker) → IsValid b → IsValid (admit now b).0
unfolding admit
admit-IsValid now b v = ground arith

pub record_success-IsValid : (b : CircuitBreaker) → IsValid b → IsValid (record_success b)
unfolding record_success
record_success-IsValid b v = ground arith

pub record_failure-IsValid :
    (now : ℕ) (b : CircuitBreaker) → IsValid b → IsValid (record_failure now b)
unfolding record_failure
record_failure-IsValid now b v = ground arith

pub cancel_probe-IsValid : (b : CircuitBreaker) → IsValid b → IsValid (cancel_probe b)
unfolding cancel_probe
cancel_probe-IsValid b v = ground arith

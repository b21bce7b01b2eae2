-- ===== src/Resilience.antt =====
-- The circuit breaker (src/rust/src/resilience.rs). The mutex makes each method
-- atomic, so a method is a function of the state; `Instant::now()` is an argument, in nanoseconds.
pub mod Breaker
pub mod Trace
mod Tests
use ores_middleware.Prelude.{ℕ, ◌+◌, ◌-◌, Bool, true, false, ◌==◌, leb, String, if◌then◌else◌}

pub record CircuitBreakerConfig : Type 0 where
  pub failure_threshold : ℕ  -- u32
  pub open_for : ℕ

pub data Result {ℓ} (A : Type ℓ) : Type ℓ where
  ok : A → Result A
  err : String → Result A

pub data CircuitAdmission : Type 0 where
  allowed rejected : CircuitAdmission

pub data CircuitState : Type 0 where
  closed : (consecutive_failures : ℕ) → CircuitState
  open_since : (opened_at : ℕ) → CircuitState
  half_open : (probe_in_flight : Bool) → CircuitState

pub record CircuitBreaker : Type 0 where
  pub config : CircuitBreakerConfig
  pub state : CircuitState

abbrev pub u32_max : ℕ
u32_max = 4294967295

unfoldable pub new : CircuitBreakerConfig → Result CircuitBreaker
new config =
    if config.failure_threshold == 0
    then err "circuit_failure_threshold_invalid"
    else if config.open_for == 0
    then err "circuit_open_duration_invalid"
    else ok (record { config = config; state = closed 0 })

-- `opened_at.elapsed()` stops at zero, as `-` does.
admit_at : CircuitBreakerConfig → ℕ → CircuitState → CircuitState × CircuitAdmission
admit_at config now (closed k) = (closed k, allowed)
admit_at config now (open_since t) =
    if leb config.open_for (now - t) then (half_open true, allowed) else (open_since t, rejected)
admit_at config now (half_open false) = (half_open true, allowed)
admit_at config now (half_open true) = (half_open true, rejected)

pub admit : ℕ → CircuitBreaker → CircuitBreaker × CircuitAdmission
unfolding admit_at
admit now b =
    let (state, admission) = admit_at b.config now b.state in
    (record b { state = state }, admission)

pub record_success : CircuitBreaker → CircuitBreaker
record_success b = record b { state = closed 0 }

abbrev saturating_suc : ℕ → ℕ
saturating_suc k = if leb u32_max k then u32_max else k + 1

failure_at : CircuitBreakerConfig → ℕ → CircuitState → CircuitState
failure_at config now (closed k) =
    if leb config.failure_threshold (saturating_suc k)
    then open_since now
    else closed (saturating_suc k)
failure_at config now (open_since t) = open_since t
failure_at config now (half_open _) = open_since now

pub record_failure : ℕ → CircuitBreaker → CircuitBreaker
unfolding failure_at
record_failure now b = record b { state = failure_at b.config now b.state }

cancelled : CircuitState → CircuitState
cancelled (half_open _) = half_open false
cancelled (closed k) = closed k
cancelled (open_since t) = open_since t

pub cancel_probe : CircuitBreaker → CircuitBreaker
unfolding cancelled
cancel_probe b = record b { state = cancelled b.state }

pub data CircuitStateSnapshot : Type 0 where
  closed : (consecutive_failures : ℕ) → CircuitStateSnapshot
  opened : CircuitStateSnapshot
  half_opened : CircuitStateSnapshot

snapshot : CircuitState → CircuitStateSnapshot
snapshot (closed k) = CircuitStateSnapshot.closed k
snapshot (open_since _) = opened
snapshot (half_open _) = half_opened

pub state : CircuitBreaker → CircuitStateSnapshot
unfolding snapshot
state b = snapshot b.state

-- ===== src/Resilience/Trace.antt =====
-- Sequences of calls of one breaker (src/rust/src/resilience.rs), in the order of its mutex.
use native.Mathlib.Nat.{add-zero}
use ores_middleware.Prelude.{
  ℕ, suc, ◌+◌, ◌-◌, ◌≤◌, ◌<◌, ◌≡◌, refl, Bool, true, false, List, [], ◌∷◌, map, length, All, arith,
  leb, if◌then◌else◌,
}
use ores_middleware.Resilience.{
  CircuitBreaker, CircuitState, open_since, half_open, CircuitAdmission, allowed, rejected, u32_max,
  admit, record_success, record_failure, cancel_probe,
}
use ores_middleware.Resilience.Breaker.{
  IsValid, admit-IsValid, record_success-IsValid, record_failure-IsValid, cancel_probe-IsValid,
}

pub data Call : Type 0 where
  ask : (now : ℕ) → Call
  succeed : Call
  fail : (now : ℕ) → Call
  cancel : Call

abbrev count_allowed : CircuitAdmission → ℕ
count_allowed allowed = 1
count_allowed rejected = 0

-- the breaker after a call, and whether the call was an admission that was allowed
pub call : Call → CircuitBreaker → CircuitBreaker × ℕ
call (ask now) b = let (b', admission) = admit now b in (b', count_allowed admission)
call succeed b = (record_success b, 0)
call (fail now) b = (record_failure now b, 0)
call cancel b = (cancel_probe b, 0)

-- the breaker after the calls, and how many admissions were allowed
pub run : List Call → CircuitBreaker → CircuitBreaker × ℕ
run [] b = (b, 0)
run (c ∷ cs) b = let (b', here) = call c b in let (last, more) = run cs b' in (last, here + more)

call-IsValid : (c : Call) (b : CircuitBreaker) → IsValid b → IsValid (call c b).0
unfolding call
call-IsValid (ask now) b v = admit-IsValid now b v
call-IsValid succeed b v = record_success-IsValid b v
call-IsValid (fail now) b v = record_failure-IsValid now b v
call-IsValid cancel b v = cancel_probe-IsValid b v

-- A valid breaker stays valid under every sequence of calls: while it is closed, its count of
-- consecutive failures is below the threshold.
pub run-IsValid : (cs : List Call) (b : CircuitBreaker) → IsValid b → IsValid (run cs b).0
unfolding run
run-IsValid [] b v = v
run-IsValid (c ∷ cs) b v = run-IsValid cs (call c b).0 (call-IsValid c b v)

abbrev pub is_success : Call → Bool
is_success succeed = true
is_success _ = false

-- calls that end a probe without a success
abbrev pub ends_probe : Call → ℕ
ends_probe (fail _) = 1
ends_probe cancel = 1
ends_probe _ = 0

abbrev pub probe_ends : List Call → ℕ
probe_ends [] = 0
probe_ends (c ∷ cs) = ends_probe c + probe_ends cs

abbrev pub is_closed : CircuitState → Bool
is_closed (CircuitState.closed _) = true
is_closed _ = false

-- how many probes may still go out before one ends
abbrev pub room : CircuitState → ℕ
room (half_open true) = 0
room _ = 1

call_budget :
    (c : Call) (b : CircuitBreaker)
    → is_closed b.state ≡ false
    → is_success c ≡ false
    → (is_closed (call c b).0.state ≡ false)
      × ((call c b).1 + room (call c b).0.state ≤ room b.state + ends_probe c)
unfolding call admit record_success record_failure cancel_probe
call_budget c b h k = ground arith

-- While no call succeeds, a circuit that is not closed lets at most one call through (none if its
-- probe is out), and one more for each failure or cancellation.
pub probe_budget :
    (cs : List Call) (b : CircuitBreaker)
    → is_closed b.state ≡ false
    → All (λ c. is_success c ≡ false) cs
    → (is_closed (run cs b).0.state ≡ false) × ((run cs b).1 ≤ room b.state + probe_ends cs)
unfolding run
probe_budget [] b h k = ground arith
probe_budget (c ∷ cs) b h (k, ks) =
    let (still, cost) = call_budget c b h k in
    let (last, more) = probe_budget cs (call c b).0 still ks in (last, omega (arith, cost, more))

-- a call that comes before the open time is over, and is no success
abbrev pub IsEarly : ℕ → ℕ → Call → Type 0
IsEarly open_for t (ask now) = now - t < open_for
IsEarly open_for t succeed = ⊥
IsEarly open_for t _ = Unit

call_early :
    (c : Call) (b : CircuitBreaker) (t : ℕ)
    → b.state ≡ open_since t
    → IsEarly b.config.open_for t c
    → ((call c b).0.state ≡ open_since t) × ((call c b).0.config ≡ b.config) × ((call c b).1 ≡ 0)
unfolding call admit record_success record_failure cancel_probe
call_early c b t e h = ground arith

-- Until the open time is over, an open circuit stays open since the same moment and refuses every
-- call, whatever failures and cancellations are reported meanwhile.
pub open_refuses :
    (cs : List Call) (b : CircuitBreaker) (t : ℕ)
    → b.state ≡ open_since t
    → All (IsEarly b.config.open_for t) cs
    → ((run cs b).0.state ≡ open_since t) × ((run cs b).1 ≡ 0)
unfolding run
open_refuses [] b t e h = (e, refl)
open_refuses (c ∷ cs) b t e (h, hs) =
    let (still, same, refused) = call_early c b t e h in
    let (last, more) = open_refuses cs (call c b).0 t still (rw same hs) in
    (last, omega (arith, refused, more))

fail_closed :
    (now k : ℕ) (b : CircuitBreaker)
    → b.config.failure_threshold ≤ u32_max
    → b.state ≡ CircuitState.closed k
    → k < b.config.failure_threshold
    → (record_failure now b).state ≡ (
        if leb b.config.failure_threshold (k + 1)
        then open_since now
        else CircuitState.closed (k + 1))
unfolding record_failure
fail_closed now k b fits e h = ground arith

record_failure_config : (now : ℕ) (b : CircuitBreaker) → (record_failure now b).config ≡ b.config
unfolding record_failure
record_failure_config now b = refl

-- Of a circuit that has counted `k` failures in a row: as many further failures as stay below the
-- threshold are counted, and the failure after them opens the circuit, at its time, exactly if it
-- reaches the threshold.
pub failures_open :
    (ts : List ℕ) (now k : ℕ) (b : CircuitBreaker)
    → b.config.failure_threshold ≤ u32_max
    → b.state ≡ CircuitState.closed k
    → k + length ts < b.config.failure_threshold
    → let last = (run (map fail ts) b).0 in
      (last.state ≡ CircuitState.closed (k + length ts))
      × ((record_failure now last).state ≡ (
          if leb b.config.failure_threshold (k + length ts + 1)
          then open_since now
          else CircuitState.closed (k + length ts + 1)))
unfolding run call record_failure
failures_open [] now k b fits e h = rw add-zero (e, fail_closed now k b fits e (omega arith))
failures_open (t ∷ ts) now k b fits e h =
    let same : (record_failure t b).config ≡ b.config = record_failure_config t b in
    let counted : (record_failure t b).state ≡ CircuitState.closed (k + 1) =
      ground (arith, fail_closed t k b fits e (omega arith)) in
    let (stays, next) =
      failures_open ts now (k + 1) (record_failure t b) (rw same fits) counted
        (rw same (omega arith)) in
    let shift : k + 1 + length ts ≡ k + suc (length ts) = omega arith in
    rw (← shift) (stays, rw same at next)

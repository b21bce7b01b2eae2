-- ===== src/Shutdown.antt =====
-- The atomics of `ShutdownInner` (src/rust/src/shutdown.rs), the methods of `ShutdownCoordinator`
-- that one caller runs alone, and the rejection that a refused request receives.
pub mod Tasks
pub mod Counting
pub mod Drain
pub mod Safety
pub mod Alone
mod Tests
use ores_middleware.Prelude.{
  ℕ, ◌+◌, ◌-◌, ◌%◌, ◌^◌, Bool, true, false, not, Option, none, some, String, ◌==◌, leb, ltb,
  if◌then◌else◌,
}

pub data ShutdownPhase : Type 0 where
  running draining forced : ShutdownPhase

abbrev pub is_running : ShutdownPhase → Bool
is_running running = true
is_running _ = false

abbrev pub is_forced : ShutdownPhase → Bool
is_forced forced = true
is_forced _ = false

abbrev pub usize_mod : ℕ
usize_mod = 2 ^ 64

-- The shared atomics. `epoch` counts the calls of `notify_waiters` on `changed`: a `notified()`
-- future is ready once a call was made after the future was created.
pub record ShutdownInner : Type 0 where
  pub phase : ShutdownPhase
  pub active_requests : ℕ
  pub epoch : ℕ

-- `Self::with_retry_after`, after its assertion that the retry-after is positive
abbrev pub new_inner : ShutdownInner
new_inner = record { phase = running; active_requests = 0; epoch = 0 }

-- `active_requests.fetch_add(1)`
pub enter : ShutdownInner → ShutdownInner
enter m = record m { active_requests = (m.active_requests + 1) % usize_mod }

-- `release_request`: the `fetch_sub`, and whether `notify_waiters` follows it
pub release_request : ShutdownInner → ShutdownInner × Bool
release_request m = (
  record m { active_requests = (m.active_requests + usize_mod - 1) % usize_mod },
  leb m.active_requests 1,
)

-- the compare-exchange of `start_draining`, and its result
pub start_draining : ShutdownInner → ShutdownInner × Bool
start_draining m = if is_running m.phase then (record m { phase = draining }, true) else (m, false)

-- the swap of `force_shutdown`, and its result; `notify_waiters` always follows
pub force_shutdown : ShutdownInner → ShutdownInner × Bool
force_shutdown m = (record m { phase = forced }, not (is_forced m.phase))

pub notify_waiters : ShutdownInner → ShutdownInner
notify_waiters m = record m { epoch = m.epoch + 1 }

-- A `Duration`: whole seconds in a u64, and nanoseconds below 10^9.
pub record Duration : Type 0 where
  pub secs : ℕ
  pub nanos : ℕ

pub record ShutdownRejection : Type 0 where
  pub status : ℕ
  pub code : String
  -- the value of the one header, `retry-after`, as the number that is printed
  pub retry_after : ℕ

abbrev pub u64_max : ℕ
u64_max = 2 ^ 64 - 1

abbrev saturating_add : ℕ → ℕ → ℕ
saturating_add a b = if leb (a + b) u64_max then a + b else u64_max

pub rejection : Duration → ShutdownRejection
rejection retry_after =
    let fraction : ℕ = if retry_after.nanos == 0 then 0 else 1 in
    let seconds : ℕ = saturating_add retry_after.secs fraction in
    record {
      status = 429;
      code = "service_draining";
      retry_after = if ltb seconds 1 then 1 else seconds;
    }

pub data Admission : Type 0 where
  admitted : Admission
  rejected : ShutdownRejection → Admission

abbrev pub notify_if : Bool → ShutdownInner → ShutdownInner
notify_if b m = if b then notify_waiters m else m

-- `begin_request`, run with no other task in between
pub begin_request : Duration → ShutdownInner → ShutdownInner × Admission
unfolding enter release_request notify_waiters
begin_request retry_after m =
    if not (is_running m.phase)
    then (m, rejected (rejection retry_after))
    else let entered : ShutdownInner = enter m in
      if is_running entered.phase
      then (entered, admitted)
      else let (left, last) = release_request entered in
        (notify_if last left, rejected (rejection retry_after))

-- `DrainGuard::finish` and its `drop`: the `Option` is taken, so that a second call does nothing.
pub finish : Option (Unit {0}) → ShutdownInner → ShutdownInner × Option (Unit {0})
unfolding release_request notify_waiters
finish none m = (m, none)
finish (some _) m = let (left, last) = release_request m in (notify_if last left, none)

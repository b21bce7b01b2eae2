-- ===== src/Shutdown/Tasks.antt =====
-- Tasks that share one coordinator, an atomic access at a time (src/rust/src/shutdown.rs):
-- `begin_request`, the drop of a guard, `start_draining`, `force_shutdown` and `drain`.
use ores_middleware.Prelude.{
  ℕ, zero, suc, ◌+◌, ◌<◌, ◌≡◌, ◌≢◌, Bool, true, false, ◌==◌, if◌then◌else◌,
}
use ores_middleware.Shutdown.{
  running, forced, ShutdownInner, new_inner, enter, release_request, start_draining, force_shutdown,
  notify_waiters,
}

pub data DrainOutcome : Type 0 where
  drained : (active_at_start : ℕ) → DrainOutcome
  timed_out : (remaining : ℕ) → DrainOutcome
  forced_out : (remaining : ℕ) → DrainOutcome

-- What a task does after a `notify_waiters`.
pub data After : Type 0 where
  return : After  -- it leaves the method
  refuse : After  -- it returns the rejection
  measure : After  -- `drain` goes on to its first read of the count
  report : (remaining : ℕ) → After  -- `drain` returns `TimedOut`

-- Where a task stands, with the local variables that are live there. `start` is `active_at_start`,
-- `seen` the epoch at which `notified()` was called.
pub data Pc : Type 0 where
  idle : Pc
  entering : Pc  -- `begin_request` has read `Running`
  registered : Pc  -- it has counted itself, and reads the phase again
  retiring : Pc  -- the second read was not `Running`
  refused : Pc  -- `begin_request` has returned the rejection
  holding : Pc  -- it has returned the guard
  signalling : After → Pc  -- `notify_waiters` comes next
  measuring : Pc  -- `drain`, after `start_draining`
  measured : (start : ℕ) → Pc
  looping : (start : ℕ) → Pc  -- head of the loop
  loop_phase : (start : ℕ) → Pc  -- the count was not 0
  subscribing : (start : ℕ) → Pc  -- before `notified()`
  rechecking : (start seen : ℕ) → Pc
  recheck_phase : (start seen : ℕ) → Pc
  waiting : (start seen : ℕ) → Pc  -- at `changed.await`
  woken : (start : ℕ) → Pc  -- the loop has returned
  interrupted : (start : ℕ) → Pc  -- the guard of `Ok(())` failed
  expired : (start : ℕ) → Pc  -- the timeout came first
  forcing : (remaining : ℕ) → Pc
  done : DrainOutcome → Pc

abbrev pub resume : After → Pc
resume return = idle
resume refuse = refused
resume measure = measuring
resume (report r) = done (timed_out r)

-- where a task goes that may have to notify
abbrev pub signal_if : Bool → After → Pc
signal_if true a = signalling a
signal_if false a = resume a

-- One atomic access of one task.
pub data Move (m : ShutdownInner) : Pc → ShutdownInner → Pc → Type 0 where
  knock : m.phase ≡ running → Move m idle m entering
  turned_away : m.phase ≢ running → Move m idle m refused
  register : Move m entering (enter m) registered
  admit : m.phase ≡ running → Move m registered m holding
  lose_race : m.phase ≢ running → Move m registered m retiring
  retire :
      {m' : ShutdownInner} {p' : Pc}
      → m' ≡ (release_request m).0
      → p' ≡ signal_if (release_request m).1 refuse
      → Move m retiring m' p'
  finish :
      {m' : ShutdownInner} {p' : Pc}
      → m' ≡ (release_request m).0
      → p' ≡ signal_if (release_request m).1 return
      → Move m holding m' p'
  notify : {a : After} → Move m (signalling a) (notify_waiters m) (resume a)
  start :
      {m' : ShutdownInner} {p' : Pc}
      → m' ≡ (start_draining m).0
      → p' ≡ signal_if (start_draining m).1 return
      → Move m idle m' p'
  force : Move m idle (force_shutdown m).0 (signalling return)
  drain :
      {m' : ShutdownInner} {p' : Pc}
      → m' ≡ (start_draining m).0
      → p' ≡ signal_if (start_draining m).1 measure
      → Move m idle m' p'
  count : Move m measuring m (measured m.active_requests)
  drain_forced : {a : ℕ} → m.phase ≡ forced → Move m (measured a) m (done (forced_out a))
  drain_empty : {a : ℕ} → m.phase ≢ forced → a ≡ 0 → Move m (measured a) m (done (drained a))
  drain_wait : {a : ℕ} → m.phase ≢ forced → a ≢ 0 → Move m (measured a) m (looping a)
  loop_zero : {a : ℕ} → m.active_requests ≡ 0 → Move m (looping a) m (woken a)
  loop_busy : {a : ℕ} → m.active_requests ≢ 0 → Move m (looping a) m (loop_phase a)
  loop_forced : {a : ℕ} → m.phase ≡ forced → Move m (loop_phase a) m (woken a)
  loop_go : {a : ℕ} → m.phase ≢ forced → Move m (loop_phase a) m (subscribing a)
  subscribe : {a : ℕ} → Move m (subscribing a) m (rechecking a m.epoch)
  recheck_zero : {a e : ℕ} → m.active_requests ≡ 0 → Move m (rechecking a e) m (woken a)
  recheck_busy : {a e : ℕ} → m.active_requests ≢ 0 → Move m (rechecking a e) m (recheck_phase a e)
  recheck_forced : {a e : ℕ} → m.phase ≡ forced → Move m (recheck_phase a e) m (woken a)
  recheck_go : {a e : ℕ} → m.phase ≢ forced → Move m (recheck_phase a e) m (waiting a e)
  wake : {a e : ℕ} → m.epoch ≢ e → Move m (waiting a e) m (looping a)
  expire : {a e : ℕ} → m.epoch ≡ e → Move m (waiting a e) m (expired a)
  woken_zero : {a : ℕ} → m.active_requests ≡ 0 → Move m (woken a) m (done (drained a))
  woken_busy : {a : ℕ} → m.active_requests ≢ 0 → Move m (woken a) m (interrupted a)
  interrupt : {a : ℕ} → Move m (interrupted a) m (done (forced_out m.active_requests))
  remain : {a : ℕ} → Move m (expired a) m (forcing m.active_requests)
  give_up : {r : ℕ} → Move m (forcing r) (force_shutdown m).0 (signalling (report r))

-- What a move requires, for the proofs that treat several moves at once.
abbrev pub Premise : {m m' : ShutdownInner} {p p' : Pc} → Move m p m' p' → Type 0
Premise {m} (knock g) = m.phase ≡ running
Premise {m} (turned_away g) = m.phase ≢ running
Premise {m} (admit g) = m.phase ≡ running
Premise {m} (lose_race g) = m.phase ≢ running
Premise {m} {m'} {p'} (retire e f) =
    (m' ≡ (release_request m).0) × (p' ≡ signal_if (release_request m).1 refuse)
Premise {m} {m'} {p'} (finish e f) =
    (m' ≡ (release_request m).0) × (p' ≡ signal_if (release_request m).1 return)
Premise {m} {m'} {p'} (start e f) =
    (m' ≡ (start_draining m).0) × (p' ≡ signal_if (start_draining m).1 return)
Premise {m} {m'} {p'} (drain e f) =
    (m' ≡ (start_draining m).0) × (p' ≡ signal_if (start_draining m).1 measure)
Premise {m} (drain_forced g) = m.phase ≡ forced
Premise {m} (drain_empty {a} g h) = (m.phase ≢ forced) × (a ≡ 0)
Premise {m} (drain_wait {a} g h) = (m.phase ≢ forced) × (a ≢ 0)
Premise {m} (loop_zero g) = m.active_requests ≡ 0
Premise {m} (loop_busy g) = m.active_requests ≢ 0
Premise {m} (loop_forced g) = m.phase ≡ forced
Premise {m} (loop_go g) = m.phase ≢ forced
Premise {m} (recheck_zero g) = m.active_requests ≡ 0
Premise {m} (recheck_busy g) = m.active_requests ≢ 0
Premise {m} (recheck_forced g) = m.phase ≡ forced
Premise {m} (recheck_go g) = m.phase ≢ forced
Premise {m} (wake {e} g) = m.epoch ≢ e
Premise {m} (expire {e} g) = m.epoch ≡ e
Premise {m} (woken_zero g) = m.active_requests ≡ 0
Premise {m} (woken_busy g) = m.active_requests ≢ 0
Premise _ = Unit

pub premise : {m m' : ShutdownInner} {p p' : Pc} (mv : Move m p m' p') → Premise mv
premise (knock g) = g
premise (turned_away g) = g
premise (admit g) = g
premise (lose_race g) = g
premise (retire e f) = (e, f)
premise (finish e f) = (e, f)
premise (start e f) = (e, f)
premise (drain e f) = (e, f)
premise (drain_forced g) = g
premise (drain_empty g h) = (g, h)
premise (drain_wait g h) = (g, h)
premise (loop_zero g) = g
premise (loop_busy g) = g
premise (loop_forced g) = g
premise (loop_go g) = g
premise (recheck_zero g) = g
premise (recheck_busy g) = g
premise (recheck_forced g) = g
premise (recheck_go g) = g
premise (wake g) = g
premise (expire g) = g
premise (woken_zero g) = g
premise (woken_busy g) = g
premise _ = tt

abbrev pub update : (ℕ → Pc) → ℕ → Pc → ℕ → Pc
update pc i p j = if j == i then p else pc j

-- Tasks from `n` on never move.
pub record System : Type 0 where
  pub mem : ShutdownInner
  pub pc : ℕ → Pc

pub data Step (n : ℕ) (s : System) : System → Type 0 where
  pick :
      (i : ℕ) {m : ShutdownInner} {p : Pc}
      → i < n
      → Move s.mem (s.pc i) m p
      → Step n s (record { mem = m; pc = update s.pc i p })

-- The states that `n` tasks can bring about from `s`.
pub data Reach (n : ℕ) (s : System) : System → Type 0 where
  here : Reach n s s
  later : {t u : System} → Reach n s t → Step n t u → Reach n s u

abbrev pub init : System
init = record { mem = new_inner; pc = λ _. idle }

abbrev weight_in : (Pc → ℕ) → ℕ → (ℕ → Pc) → ℕ
weight_in w zero pc = 0
weight_in w (suc n) pc = w (pc n) + weight_in w n pc

abbrev pub total : (Pc → ℕ) → ℕ → (ℕ → Pc) → ℕ
total = weight_in

-- ===== src/Shutdown/Safety.antt =====
-- What the coordinator guarantees in every reachable state, with fewer than 2^64 - 1 tasks.
use ores_middleware.Prelude.{ℕ, ◌+◌, ◌<◌, ◌≡◌, ◌≢◌, ◌⊎◌, inl, inr, ◌==◌, Bool-cases, arith}
use ores_middleware.Shutdown.{
  ShutdownInner, running, forced, usize_mod, enter, release_request, start_draining, force_shutdown,
  notify_waiters,
}
use ores_middleware.Shutdown.Tasks.{
  Pc, holding, signalling, waiting, done, drained, timed_out, forced_out, After, Move, knock,
  notify, premise, System, Step, pick, Reach, here, init, total,
}
use ores_middleware.Shutdown.Counting.{in_flight, holds, signals, le-total, total_witness}
use ores_middleware.Shutdown.Drain.{Inv, Inv-init, Reach-Inv, Reach-guards}

Move-holding :
    {m m' : ShutdownInner} {p p' : Pc} → Move m p m' p' → m.phase ≢ running → p' ≢ holding
unfolding enter release_request start_draining force_shutdown notify_waiters
Move-holding (knock g) h = ground arith
Move-holding (notify {a}) h = ground arith
Move-holding mv h = ground (arith, premise mv)

Step-holding :
    {n : ℕ} {s t : System}
    → Step n s t
    → s.mem.phase ≢ running
    → (i : ℕ) → t.pc i ≡ holding
    → s.pc i ≡ holding
Step-holding (pick k lt mv) h i e = elim (Bool-cases (i == k)) [
  | inl same ↦ absurd (Move-holding mv h (ground arith))
  | inr other ↦ ground arith
]

signal_of_pos : (p : Pc) → 0 < signals p → (a : After) × (p ≡ signalling a)
signal_of_pos (signalling a) h = (a, ground arith)
signal_of_pos p h = absurd (ground arith)

module _ {n : ℕ} {s : System} (few : n + 1 < usize_mod) (r : Reach n init s) where
  inv : Inv n s.mem s.pc
  inv = Reach-Inv (Inv-init n few) r

  -- In every reachable state the atomic count is the number of the tasks below `n` that have
  -- counted themselves and not yet left: registered, retiring, or holding a guard.
  pub active_requests_lem : s.mem.active_requests ≡ total in_flight n s.pc
  active_requests_lem = inv.counted

  -- The `fetch_sub` of `release_request` never meets 0: while a task is retiring or holds a guard,
  -- the count is positive.
  pub release_no_underflow : (i : ℕ) → i < n → 0 < in_flight (s.pc i) → 0 < s.mem.active_requests
  release_no_underflow i lt pos = omega (arith, inv.counted, le-total in_flight n i s.pc lt)

  -- Once the phase is not `Running`, no request is admitted any more: whoever holds a guard in a
  -- later state held it already.
  pub admission_closed :
      {t : System}
      → s.mem.phase ≢ running
      → Reach n s t
      → (i : ℕ) → t.pc i ≡ holding
      → s.pc i ≡ holding
  admission_closed stopped here i e = e
  admission_closed stopped (Reach.later q st) i e =
      admission_closed stopped q i (Step-holding st (Reach-guards inv q stopped).0 i e)

  -- no guard is left, so none will be given out
  none_held_later :
      {t : System}
      → s.mem.phase ≢ running
      → total holds n s.pc ≡ 0
      → Reach n s t
      → (i : ℕ) → i < n
      → t.pc i ≢ holding
  none_held_later {t} stopped none_held q i lt e =
      let (still, fewer) = Reach-guards inv q stopped in ground (arith, le-total holds n i t.pc lt)

  -- When `drain` has returned `Drained`, no task holds a guard, then or in any later state.
  pub drain_drained :
      {t : System} {a : ℕ}
      → (d : ℕ) → s.pc d ≡ done (drained a)
      → Reach n s t
      → (i : ℕ) → i < n
      → t.pc i ≢ holding
  drain_drained {a} d e q i lt =
      let known = inv.local d in none_held_later (ground arith) (ground arith) q i lt

  -- When `drain` has returned `TimedOut`, the phase is `Forced`.
  pub drain_timed_out : {k : ℕ} → (d : ℕ) → s.pc d ≡ done (timed_out k) → s.mem.phase ≡ forced
  drain_timed_out d e = let known = inv.local d in ground arith

  -- When `drain` has returned `Forced`, the phase is `Forced`, or no task below `n` holds a guard.
  pub drain_forced_out :
      {k : ℕ}
      → (d : ℕ) → s.pc d ≡ done (forced_out k)
      → (i : ℕ) → i < n
      → (s.mem.phase ≡ forced) ⊎ (s.pc i ≢ holding)
  drain_forced_out d e i lt = let known = inv.local d in ground (arith, le-total holds n i s.pc lt)

  -- No wake-up is lost: while a drain waits for a notification that has not come since it
  -- subscribed, and the count is 0 or the phase is `Forced`, some task is about to notify.
  pub no_lost_wakeup :
      {a e : ℕ}
      → (d : ℕ) → s.pc d ≡ waiting a e
      → s.mem.epoch ≡ e
      → (s.mem.active_requests ≡ 0) ⊎ (s.mem.phase ≡ forced)
      → (j : ℕ) × (j < n) × (k : After) × (s.pc j ≡ signalling k)
  no_lost_wakeup d w same cause =
      let known = inv.local d in
      let (j, lt, pos) = total_witness signals n s.pc (ground arith) in
      let (k, e) = signal_of_pos (s.pc j) pos in (j, lt, k, e)

-- ===== src/Shutdown/Drain.antt =====
-- What the local variables of each task say about the shared state, and that no move breaks it.
use ores_middleware.Prelude.{
  ℕ, zero, suc, ◌+◌, ◌≤◌, ◌<◌, ◌≡◌, ◌≢◌, ◌⊎◌, inl, inr, refl, ◌==◌, Bool-cases, arith,
}
use ores_middleware.Shutdown.{
  ShutdownInner, running, forced, usize_mod, enter, release_request, start_draining, force_shutdown,
  notify_waiters,
}
use ores_middleware.Shutdown.Tasks.{
  Pc, signalling, measuring, measured, looping, loop_phase, subscribing, rechecking, recheck_phase,
  waiting, woken, interrupted, expired, done, drained, timed_out, forced_out, measure, report, Move,
  knock, notify, premise, update, total, System, Step, pick, Reach, here, later, init,
}
use ores_middleware.Shutdown.Counting.{
  in_flight, holds, signals, total-update, total-le, le-total, total_mono, in_flight-le-one,
  holds-le-in_flight, Move-counted, Effect, Move-Effect,
}

-- A notification is due if the event `p` has happened and the epoch is still `e`.
abbrev Due : ShutdownInner → ℕ → ℕ → Type 0 → Type 0
Due m s e p = m.epoch ≡ e → p → 0 < s

-- `h` is the number of guards, `s` the number of pending notifications.
abbrev pub Local : ShutdownInner → ℕ → ℕ → Pc → Type 0
Local m h s (signalling measure) = m.phase ≢ running
Local m h s (signalling (report _)) = m.phase ≡ forced
Local m h s measuring = m.phase ≢ running
Local m h s (measured a) = (m.phase ≢ running) × (a ≡ 0 → h ≡ 0)
Local m h s (looping _) = m.phase ≢ running
Local m h s (loop_phase _) = m.phase ≢ running
Local m h s (subscribing _) = m.phase ≢ running
Local m h s (rechecking _ e) = (m.phase ≢ running) × (e ≤ m.epoch)
Local m h s (recheck_phase _ e) =
    (m.phase ≢ running) × (e ≤ m.epoch) × Due m s e (m.active_requests ≡ 0)
Local m h s (waiting _ e) =
    (m.phase ≢ running)
    × (e ≤ m.epoch)
    × Due m s e (m.active_requests ≡ 0)
    × Due m s e (m.phase ≡ forced)
Local m h s (woken _) = (m.phase ≢ running) × ((h ≡ 0) ⊎ (m.phase ≡ forced))
Local m h s (interrupted _) = (m.phase ≢ running) × ((h ≡ 0) ⊎ (m.phase ≡ forced))
Local m h s (expired _) = m.phase ≢ running
Local m h s (done (drained _)) = (m.phase ≢ running) × (h ≡ 0)
Local m h s (done (timed_out _)) = m.phase ≡ forced
Local m h s (done (forced_out _)) = (m.phase ≢ running) × ((h ≡ 0) ⊎ (m.phase ≡ forced))
Local _ _ _ _ = Unit

-- Another task's move keeps what a task knows.
Local-stable :
    {m m' : ShutdownInner} {h h' s s' : ℕ}
    → Effect m m' h h' s s'
    → (q : Pc) → Local m h s q
    → Local m' h' s' q
Local-stable f (signalling measure) k = ground arith
Local-stable f q k = ground arith

-- The task that moves knows what it must at its new place.
Local-moved :
    {m m' : ShutdownInner} {p p' : Pc} (h h' s s' : ℕ)
    → Move m p m' p'
    → h' + holds p ≡ h + holds p'
    → s' + signals p ≡ s + signals p'
    → h ≤ m.active_requests
    → Local m h s p
    → Local m' h' s' p'
unfolding enter release_request start_draining force_shutdown notify_waiters
Local-moved h h' s s' (knock g) u v b k = ground arith
Local-moved h h' s s' (notify {a}) u v b k = ground arith
Local-moved h h' s s' mv u v b k = ground (arith, premise mv)

-- `n` is small enough that the count cannot wrap.
pub record Inv (n : ℕ) (m : ShutdownInner) (pc : ℕ → Pc) : Type 0 where
  pub few : n + 1 < usize_mod
  pub counted : m.active_requests ≡ total in_flight n pc
  pub local : (i : ℕ) → Local m (total holds n pc) (total signals n pc) (pc i)

-- The totals after a move of task `i`.
module _ {n : ℕ} {m : ShutdownInner} {pc : ℕ → Pc} (inv : Inv n m pc) (i : ℕ) (lt : i < n) where
  open inv use {few, counted, local}

  Inv-counted :
      {m' : ShutdownInner} {p' : Pc}
      → Move m (pc i) m' p'
      → m'.active_requests ≡ total in_flight n (update pc i p')
  Inv-counted {p'} mv =
      Move-counted mv counted (total-update in_flight n i pc p' lt) (le-total in_flight n i pc lt)
        (omega (arith, few, total-le in_flight in_flight-le-one n (update pc i p')))
        (omega (arith, few, total-le in_flight in_flight-le-one n pc))

  pub Move-local :
      {m' : ShutdownInner} {p' : Pc}
      → Move m (pc i) m' p'
      → Effect m m'
          (total holds n pc)
          (total holds n (update pc i p'))
          (total signals n pc)
          (total signals n (update pc i p'))
  Move-local {p'} mv =
      Move-Effect mv (total-update holds n i pc p' lt) (total-update signals n i pc p' lt)
        (omega (arith, counted, le-total in_flight n i pc lt))
        (omega (arith, few, counted, total-le in_flight in_flight-le-one n pc))

  Inv-Local :
      {m' : ShutdownInner} {p' : Pc}
      → Move m (pc i) m' p'
      → (j : ℕ)
      → Local m'
          (total holds n (update pc i p'))
          (total signals n (update pc i p'))
          (update pc i p' j)
  Inv-Local {m'} {p'} mv j = elim (Bool-cases (j == i)) [
    | inl same ↦ rw same (
        Local-moved (total holds n pc) (total holds n (update pc i p')) (total signals n pc)
          (total signals n (update pc i p')) mv (total-update holds n i pc p' lt)
          (total-update signals n i pc p' lt)
          (omega (arith, counted, total_mono holds in_flight holds-le-in_flight n pc)) (local i))
    | inr other ↦ rw other (Local-stable (Move-local mv) (pc j) (local j))
  ]

  pub Move-Inv : {m' : ShutdownInner} {p' : Pc} → Move m (pc i) m' p' → Inv n m' (update pc i p')
  Move-Inv mv = record { few = few; counted = Inv-counted mv; local = Inv-Local mv }

total-idle : (w : Pc → ℕ) (n : ℕ) → w Pc.idle ≡ 0 → total w n init.pc ≡ 0
total-idle w zero h = refl
total-idle w (suc n) h = omega (arith, total-idle w n h)

pub Inv-init : (n : ℕ) → n + 1 < usize_mod → Inv n init.mem init.pc
Inv-init n few = record {
  few = few;
  counted = omega (arith, total-idle in_flight n refl);
  local = λ i. tt;
}

pub Step-Inv : {n : ℕ} {s t : System} → Step n s t → Inv n s.mem s.pc → Inv n t.mem t.pc
Step-Inv (pick i lt mv) inv = Move-Inv inv i lt mv

pub Reach-Inv : {n : ℕ} {s t : System} → Inv n s.mem s.pc → Reach n s t → Inv n t.mem t.pc
Reach-Inv inv here = inv
Reach-Inv inv (later r st) = Step-Inv st (Reach-Inv inv r)

-- Once the phase is not `Running` it stays so, and guards are only given back.
pub Reach-guards :
    {n : ℕ} {s t : System}
    → Inv n s.mem s.pc
    → Reach n s t
    → s.mem.phase ≢ running
    → (t.mem.phase ≢ running) × (total holds n t.pc ≤ total holds n s.pc)
Reach-guards inv here h = (h, omega arith)
Reach-guards inv (later r (pick i lt mv)) h =
    let (still, fewer) = Reach-guards inv r h in
    let f = Move-local (Reach-Inv inv r) i lt mv in
    (f.phase_stays still, omega (arith, fewer, f.guards_shrink still))

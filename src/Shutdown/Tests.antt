-- ===== src/Shutdown/Tests.antt =====
-- Schedules of `ShutdownCoordinator` (src/rust/src/shutdown.rs) step by step, and its theorems at them.
use ores_middleware.Prelude.{ℕ, ◌+◌, ◌<◌, ◌≡◌, ◌≢◌, inl, refl, none, some, arith}
use ores_middleware.Shutdown.{
  running, draining, forced, ShutdownInner, new_inner, usize_mod, enter, release_request,
  start_draining, force_shutdown, notify_waiters, Duration, rejection, begin_request, finish,
}
use ores_middleware.Shutdown.Tasks.{
  Pc, Move, After, forced_out, System, pick, Reach, here, init, total,
}
use ores_middleware.Shutdown.Counting.{in_flight}
use ores_middleware.Shutdown.Safety.{active_requests_lem, no_lost_wakeup}
use ores_middleware.Shutdown.Alone.{finish-begin_request}
use ores_middleware.Shutdown.Tasks.{update}

shutdown : Unit {0}
unfolding enter release_request start_draining force_shutdown notify_waiters
shutdown = tt

record Run (s : System) : Type 0 where
  last : System
  reach : Reach 3 s last

abbrev begin : (s : System) → Run s
begin s = record { last = s; reach = here }

abbrev move :
    {s : System} (r : Run s) (i : ℕ)
    → i < 3
    → {m : ShutdownInner} {p : Pc} → Move r.last.mem (r.last.pc i) m p
    → Run s
move r i lt {m} {p} mv = record {
  last = record { mem = m; pc = update r.last.pc i p };
  reach = Reach.later r.reach (pick i lt mv);
}

append : {s t u : System} → Reach 3 s t → Reach 3 t u → Reach 3 s u
append r here = r
append r (Reach.later q st) = Reach.later (append r q) st

-- Task 0 is admitted.
abbrev held : Run init
unfolding shutdown
held =
    let a = move (begin init) 0 (omega arith) (Move.knock refl) in
    let b = move a 0 (omega arith) Move.register in move b 0 (omega arith) (Move.admit refl)

not_zero : ◌≢◌ {A = ℕ} 1 0
not_zero = omega arith

two_not_one : ◌≢◌ {A = ℕ} 2 1
two_not_one = omega arith

not_forced : draining ≢ forced
not_forced = ground arith

not_running : draining ≢ running
not_running = ground arith

-- Task 1 calls `drain` and waits.
abbrev before_waits : Run init
unfolding shutdown
before_waits = move held 1 (omega arith) (Move.drain refl refl)

abbrev rest_of_waits : Run before_waits.last
unfolding shutdown
rest_of_waits =
    let b = move (begin before_waits.last) 1 (omega arith) Move.notify in
    let c = move b 1 (omega arith) Move.count in
    let d = move c 1 (omega arith) (Move.drain_wait not_forced not_zero) in
    let e = move d 1 (omega arith) (Move.loop_busy not_zero) in
    let f = move e 1 (omega arith) (Move.loop_go not_forced) in
    let g = move f 1 (omega arith) Move.subscribe in
    let h = move g 1 (omega arith) (Move.recheck_busy not_zero) in
    move h 1 (omega arith) (Move.recheck_go not_forced)

abbrev waits : Run init
unfolding shutdown
waits = record { last = rest_of_waits.last; reach = append before_waits.reach rest_of_waits.reach }

-- The guard is given back, the count is 0, and the notification is still to come.
abbrev finishes : Run init
unfolding shutdown
finishes = move (waits) 0 (omega arith) (Move.finish refl refl)

-- The drain wakes up and returns `Drained`.
abbrev returns : Run finishes.last
unfolding shutdown
returns =
    let a = move (begin finishes.last) 0 (omega arith) Move.notify in
    let b = move a 1 (omega arith) (Move.wake two_not_one) in
    let c = move b 1 (omega arith) (Move.loop_zero refl) in
    move c 1 (omega arith) (Move.woken_zero refl)

-- The timeout comes first.
abbrev expires : Run init
unfolding shutdown
expires =
    let b = move waits 1 (omega arith) (Move.expire refl) in
    let c = move b 1 (omega arith) Move.remain in
    let d = move c 1 (omega arith) Move.give_up in move d 1 (omega arith) Move.notify

-- The drain sees the count 0, and a request that read `Running` before the drain counts itself
-- before the drain looks again: `Forced` is returned with one request remaining, though nobody
-- forced the shutdown and no request holds a guard.
abbrev raced : Run init
unfolding shutdown
raced =
    let a = move held 2 (omega arith) (Move.knock refl) in
    let b = move a 1 (omega arith) (Move.drain refl refl) in
    let c = move b 1 (omega arith) Move.notify in
    let d = move c 1 (omega arith) Move.count in
    let e = move d 1 (omega arith) (Move.drain_wait not_forced not_zero) in
    let f = move e 0 (omega arith) (Move.finish refl refl) in
    let g = move f 1 (omega arith) (Move.loop_zero refl) in
    let h = move g 2 (omega arith) Move.register in
    let k = move h 1 (omega arith) (Move.woken_busy not_zero) in
    move k 1 (omega arith) Move.interrupt

raced_reports_forced :
    (raced.last.pc 1 ≡ Pc.done (forced_out 1)) × (raced.last.mem.phase ≡ draining)
unfolding shutdown
raced_reports_forced = (refl, refl)

few : 3 + 1 < usize_mod
few = omega arith

active_requests_lem_example : held.last.mem.active_requests ≡ total in_flight 3 held.last.pc
active_requests_lem_example = active_requests_lem few held.reach

no_lost_wakeup_example : (j : ℕ) × (j < 3) × (k : After) × (finishes.last.pc j ≡ Pc.signalling k)
unfolding shutdown
no_lost_wakeup_example = no_lost_wakeup few finishes.reach {a = 1} {e = 1} 1 refl refl (inl refl)

abbrev stopping : ShutdownInner
stopping = record { phase = draining; active_requests = 1; epoch = 0 }

abbrev wait : Duration
wait = record { secs = 1; nanos = 501000000 }

rejection_rounds_up : (rejection wait).retry_after ≡ 2
unfolding rejection
rejection_rounds_up = refl

finish-begin_request_example :
    let (left, taken) = finish (some tt) (begin_request wait new_inner).0 in
    (left.phase ≡ running) × (left.active_requests ≡ 0) × (finish taken left ≡ (left, none))
unfolding begin_request
finish-begin_request_example = finish-begin_request wait new_inner (omega arith) refl

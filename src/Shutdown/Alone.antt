-- ===== src/Shutdown/Alone.antt =====
-- The methods that one caller runs with no other task in between: they are runs of the atomic
-- accesses, a guard is given back once, and the rejection's `retry-after` is rounded up.
use mathlib.Core.Path.{fun_ext}
use ores_middleware.Prelude.{
  ℕ, ◌+◌, ◌*◌, ◌≤◌, ◌<◌, ◌≡◌, ◌≢◌, ◌⊎◌, inl, inr, refl, none, some, ==_iff, arith,
}
use ores_middleware.Shutdown.{
  running, ShutdownInner, usize_mod, u64_max, enter, Duration, rejection, admitted, rejected,
  Admission, begin_request, finish,
}
use ores_middleware.Shutdown.Tasks.{
  Pc, idle, refused, holding, Move, knock, turned_away, register, admit, System, pick, Reach, here,
  update,
}

-- where a task is left by `begin_request`
abbrev pub admission_pc : Admission → Pc
admission_pc admitted = holding
admission_pc (rejected _) = refused

update_twice : (pc : ℕ → Pc) (i : ℕ) (p q : Pc) → update (update pc i p) i q ≡ update pc i q
update_twice pc i p q = fun_ext λ j. ground arith

update_self : (pc : ℕ → Pc) (i : ℕ) (p : Pc) → update pc i p i ≡ p
update_self pc i p = rw ((==_iff i i).1 refl)

-- The `retry-after` of the rejection is the wait in seconds, rounded up: it is at least 1, at least
-- the wait, and (for a positive wait that does not overflow the u64) less than a second above it.
pub rejection-retry_after :
    (d : Duration)
    → d.nanos < 1000000000
    → 0 < d.secs + d.nanos
    → d.secs < u64_max
    → let seconds = (rejection d).retry_after in
      (1 ≤ seconds)
      × (d.secs * 1000000000 + d.nanos ≤ seconds * 1000000000)
      × (seconds * 1000000000 < d.secs * 1000000000 + d.nanos + 1000000000)
unfolding rejection
rejection-retry_after d small pos fits = ground arith

-- While fewer than 2^64 - 1 requests are counted, `begin_request` followed by `finish` leaves the
-- phase and the count as they were, and a second `finish` of the emptied guard changes nothing.
pub finish-begin_request :
    (d : Duration) (m : ShutdownInner)
    → m.active_requests + 1 < usize_mod
    → (begin_request d m).1 ≡ admitted
    → let (left, taken) = finish (some tt) (begin_request d m).0 in
      (left.phase ≡ m.phase)
      × (left.active_requests ≡ m.active_requests)
      × (finish taken left ≡ (left, none))
unfolding begin_request finish
finish-begin_request d m small e = ground arith

-- `begin_request` alone admits exactly while the phase is `Running`; a refused request leaves the
-- coordinator as it was and receives the rejection.
pub begin_request_cases :
    (d : Duration) (m : ShutdownInner)
    → ((m.phase ≡ running) × (begin_request d m ≡ (enter m, admitted)))
      ⊎ ((m.phase ≢ running) × (begin_request d m ≡ (m, rejected (rejection d))))
unfolding begin_request enter
begin_request_cases d m = ground arith

-- the first move of task `i`, and a further one
Reach-first :
    {n : ℕ} (s : System) (i : ℕ)
    → i < n
    → {p q : Pc} {m : ShutdownInner} → s.pc i ≡ p
    → Move s.mem p m q
    → Reach n s (record { mem = m; pc = update s.pc i q })
Reach-first s i lt e mv = Reach.later here (pick i lt (rw e mv))

Reach-next :
    {n : ℕ} (s : System) (i : ℕ)
    → i < n
    → {p q : Pc} {m m' : ShutdownInner} → Reach n s (record { mem = m; pc = update s.pc i p })
    → Move m p m' q
    → Reach n s (record { mem = m'; pc = update s.pc i q })
Reach-next {n} s i lt {p} {q} {m} {m'} r mv =
    let moved : Reach n s (record { mem = m'; pc = update (update s.pc i p) i q }) =
      Reach.later r (pick i lt (rw (update_self s.pc i p) mv)) in
    rw (update_twice s.pc i p q) at moved

-- `begin_request` run alone by an idle task is a run of its atomic accesses.
pub begin_request-Reach :
    {n : ℕ} (d : Duration) (s : System) (i : ℕ)
    → i < n
    → s.pc i ≡ idle
    → Reach n s (record {
      mem = (begin_request d s.mem).0;
      pc = update s.pc i (admission_pc (begin_request d s.mem).1);
    })
unfolding enter
begin_request-Reach {n} d s i lt e = elim (begin_request_cases d s.mem) [
  | inl (run, eq) ↦ rw eq (
      Reach-next s i lt (Reach-next s i lt (Reach-first s i lt e (knock run)) register) (admit run))
  | inr (stop, eq) ↦ rw eq (Reach-first s i lt e (turned_away stop))
]

-- ===== src/Shutdown/Counting.antt =====
-- Sums over the tasks, and what one move does to the shared state and to these sums.
use ores_middleware.Prelude.{
  ℕ, zero, suc, ◌+◌, ◌≤◌, ◌<◌, ◌≡◌, ◌≢◌, ◌⊎◌, inl, inr, refl, ◌==◌, Bool-cases, arith,
}
use ores_middleware.Shutdown.{
  ShutdownInner, running, forced, usize_mod, enter, release_request, start_draining, force_shutdown,
  notify_waiters,
}
use ores_middleware.Shutdown.Tasks.{
  Pc, registered, retiring, holding, signalling, Move, knock, notify, premise, update, total,
}

-- requests that are counted in `active_requests`
abbrev pub in_flight : Pc → ℕ
in_flight registered = 1
in_flight retiring = 1
in_flight holding = 1
in_flight _ = 0

-- requests that own a guard
abbrev pub holds : Pc → ℕ
holds holding = 1
holds _ = 0

-- tasks that are about to call `notify_waiters`
abbrev pub signals : Pc → ℕ
signals (signalling _) = 1
signals _ = 0

total-update_ge :
    (w : Pc → ℕ) (n i : ℕ) (pc : ℕ → Pc) (p : Pc) → n ≤ i → total w n (update pc i p) ≡ total w n pc
total-update_ge w zero i pc p h = refl
total-update_ge w (suc n) i pc p h = ground (arith, total-update_ge w n i pc p (omega arith))

pub total-update :
    (w : Pc → ℕ) (n i : ℕ) (pc : ℕ → Pc) (p : Pc)
    → i < n
    → total w n (update pc i p) + w (pc i) ≡ total w n pc + w p
total-update w zero i pc p h = elim h [ ]
total-update w (suc n) i pc p h = elim (Bool-cases (n == i)) [
  | inl same ↦ ground (arith, total-update_ge w n i pc p)
  | inr other ↦ ground (arith, total-update w n i pc p)
]

pub total-le : (w : Pc → ℕ) → ((p : Pc) → w p ≤ 1) → (n : ℕ) (pc : ℕ → Pc) → total w n pc ≤ n
total-le w h zero pc = omega arith
total-le w h (suc n) pc = omega (arith, h (pc n), total-le w h n pc)

pub le-total : (w : Pc → ℕ) (n i : ℕ) (pc : ℕ → Pc) → i < n → w (pc i) ≤ total w n pc
le-total w zero i pc h = elim h [ ]
le-total w (suc n) i pc h = elim (Bool-cases (n == i)) [
  | inl same ↦ ground arith
  | inr other ↦ ground (arith, le-total w n i pc)
]

pub total_mono :
    (v w : Pc → ℕ) → ((p : Pc) → v p ≤ w p) → (n : ℕ) (pc : ℕ → Pc) → total v n pc ≤ total w n pc
total_mono v w h zero pc = omega arith
total_mono v w h (suc n) pc = omega (arith, h (pc n), total_mono v w h n pc)

pub total_witness :
    (w : Pc → ℕ) (n : ℕ) (pc : ℕ → Pc) → 0 < total w n pc → (i : ℕ) × (i < n) × (0 < w (pc i))
total_witness w zero pc h = absurd (omega arith)
total_witness w (suc n) pc h = elim (Bool-cases (w (pc n) == 0)) [
  | inl none_here ↦ let (i, lt, pos) = total_witness w n pc (ground arith) in (i, omega arith, pos)
  | inr here ↦ (n, omega arith, ground arith)
]

pub in_flight-le-one : (p : Pc) → in_flight p ≤ 1
in_flight-le-one p = ground arith

pub holds-le-in_flight : (p : Pc) → holds p ≤ in_flight p
holds-le-in_flight p = ground arith

-- The count of a move: what it adds to `active_requests` is what it adds to the tasks in flight.
pub Move-counted :
    {m m' : ShutdownInner} {p p' : Pc} {k k' : ℕ}
    → Move m p m' p'
    → m.active_requests ≡ k
    → k' + in_flight p ≡ k + in_flight p'
    → in_flight p ≤ k
    → k' < usize_mod
    → k < usize_mod
    → m'.active_requests ≡ k'
unfolding enter release_request start_draining force_shutdown notify_waiters
Move-counted (knock g) c u l b b' = ground arith
Move-counted (notify {a}) c u l b b' = ground arith
Move-counted mv c u l b b' = ground (arith, premise mv)

-- What a move may do to the phase, the epoch, the number `h` of guards and the number `s` of
-- pending notifications.
pub record Effect (m m' : ShutdownInner) (h h' s s' : ℕ) : Type 0 where
  pub phase_stays : m.phase ≢ running → m'.phase ≢ running
  pub forced_stays : m.phase ≡ forced → m'.phase ≡ forced
  pub guards_shrink : m.phase ≢ running → h' ≤ h
  pub epoch_grows : m.epoch ≤ m'.epoch
  pub zero_signalled :
      m'.epoch ≡ m.epoch → m'.active_requests ≡ 0 → ((m.active_requests ≡ 0) × (s ≤ s')) ⊎ (0 < s')
  pub force_signalled :
      m'.epoch ≡ m.epoch → m'.phase ≡ forced → ((m.phase ≡ forced) × (s ≤ s')) ⊎ (0 < s')

pub Move-Effect :
    {m m' : ShutdownInner} {p p' : Pc} {h h' s s' : ℕ}
    → Move m p m' p'
    → h' + holds p ≡ h + holds p'
    → s' + signals p ≡ s + signals p'
    → in_flight p ≤ m.active_requests
    → m.active_requests + 1 < usize_mod
    → Effect m m' h h' s s'
unfolding enter release_request start_draining force_shutdown notify_waiters
Move-Effect (knock g) u v l b = ground arith
Move-Effect (notify {a}) u v l b = ground arith
Move-Effect mv u v l b = ground (arith, premise mv)

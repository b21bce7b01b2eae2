-- ===== src/Registry/Safety.antt =====
-- What `CircuitBreakerRegistry` of src/rust/src/hardening.rs promises its callers.
use ores_middleware.Prelude.Maps.{
  lookup-insert_self, lookup-insert_ne, insert-IsUnique, length-insert_new, length-insert_old,
}
use ores_middleware.Prelude.{
  ℕ, ◌+◌, ◌≤◌, ◌<◌, ◌≡◌, ◌≢◌, inl, inr, refl, sym, ◌∙◌, true, [], ◌∷◌, none, some, length, arith,
  Bool-cases, Option-cases, ltb, ◌++◌, ◌==◌, ◌||◌,
}
use ores_middleware.Resilience.{CircuitBreaker, Result, ok, err}
use ores_middleware.Resilience
use ores_middleware.Registry.{
  BreakerKey, BreakerKey-discrete, RegistryEntry, CircuitBreakerRegistryConfig,
  CircuitBreakerRegistry, u64_mod, max_breaker_registry_entries, is_fresh, expire, make_room,
  get_or_insert,
}
use ores_middleware.Registry
use ores_middleware.Registry.Laws.{
  find, IsBounded, expire-IsBounded, find-expire, make_room-IsBounded, find-make_room,
  get_or_insert_hit, get_or_insert_miss,
}

new_built :
    (c : CircuitBreakerRegistryConfig) {r : CircuitBreakerRegistry}
    → 0 < c.max_entries
    → c.max_entries ≤ max_breaker_registry_entries
    → 0 < c.idle_ttl
    → (res : Result CircuitBreaker) → Resilience.new c.breaker ≡ res
    → elim res [
      | err code ↦ err code
      | ok _ ↦ ok (record { config = c; entries = []; evictions = 0; heap = [] })
    ]
      ≡ ok r
    → IsBounded r
      × (r.config.max_entries ≤ max_breaker_registry_entries)
      × (0 < r.config.idle_ttl)
      × (r.entries ≡ [])
      × ((b : CircuitBreaker) × (Resilience.new r.config.breaker ≡ ok b))
new_built c {r} pos few ttl (ok b) e h =
    let same : record { config = c; entries = []; evictions = 0; heap = [] } ≡ r = cc in
    rw (← same)
      (record { unique = tt; positive = pos; within = omega arith }, few, ttl, refl, (b, e))
new_built c pos few ttl (err x) e h = cc

-- `new` accepts a configuration only if it can build breakers from it; the registry is then empty
-- and within its bounds.
pub new-IsBounded :
    (c : CircuitBreakerRegistryConfig) {r : CircuitBreakerRegistry}
    → Registry.new c ≡ ok r
    → IsBounded r
      × (r.config.max_entries ≤ max_breaker_registry_entries)
      × (0 < r.config.idle_ttl)
      × (r.entries ≡ [])
      × ((b : CircuitBreaker) × (Resilience.new r.config.breaker ≡ ok b))
unfolding Registry.new
new-IsBounded c {r} h =
    elim (Bool-cases (c.max_entries == 0 || ltb max_breaker_registry_entries c.max_entries)) [
      | inl bad ↦ absurd (cc (rw bad at h))
      | inr good ↦ elim (Bool-cases (c.idle_ttl == 0)) [
        | inl bad ↦ absurd (cc (rw (good, bad) at h))
        | inr positive ↦
            new_built c (ground arith) (ground arith) (ground arith) (Resilience.new c.breaker) refl
              (rw (good, positive) at h)
      ]
    ]

module _ (now : ℕ) (k : BreakerKey) (r : CircuitBreakerRegistry) {b : CircuitBreaker}
    (v : IsBounded r) (built : Resilience.new r.config.breaker ≡ ok b) where
  kept-IsBounded : IsBounded (expire now r)
  kept-IsBounded = expire-IsBounded now r v

  -- what is found after a use of `k`
  pub after_hit :
      (e : RegistryEntry)
      → find k (expire now r) ≡ some e
      → (find k (get_or_insert now k r).0 ≡ some (record e { last_used = now }))
        × ((get_or_insert now k r).1 ≡ ok e.breaker)
        × ((get_or_insert now k r).0.heap ≡ (expire now r).heap)
        × ((get_or_insert now k r).0.evictions ≡ (expire now r).evictions)
        × (length (get_or_insert now k r).0.entries ≡ length (expire now r).entries)
  after_hit e live = rw (get_or_insert_hit now k r live) (
    lookup-insert_self BreakerKey-discrete k (record e { last_used = now }) (expire now r).entries,
    refl,
    refl,
    refl,
    length-insert_old BreakerKey-discrete k (record e { last_used = now }) e (expire now r).entries
        live,
  )

  pub others_hit :
      (e : RegistryEntry)
      → find k (expire now r) ≡ some e
      → (j : BreakerKey) → k ≢ j
      → find j (get_or_insert now k r).0 ≡ find j (expire now r)
  others_hit e live j other = rw (get_or_insert_hit now k r live) (
      lookup-insert_ne BreakerKey-discrete k j (record e { last_used = now }) (expire now r).entries
        other)

  dead_roomy : find k (expire now r) ≡ none → find k (make_room (expire now r)) ≡ none
  dead_roomy dead = elim (Option-cases (find k (make_room (expire now r)))) [
    | inl none_left ↦ none_left
    | inr (e, there) ↦ cc (find-make_room k (expire now r) kept-IsBounded there, dead)
  ]

  pub after_miss :
      find k (expire now r) ≡ none
      → (find k (get_or_insert now k r).0
          ≡ some (record { breaker = length (make_room (expire now r)).heap; last_used = now }))
        × ((get_or_insert now k r).1 ≡ ok (length (make_room (expire now r)).heap))
        × ((get_or_insert now k r).0.heap ≡ (make_room (expire now r)).heap ++ b ∷ [])
        × ((get_or_insert now k r).0.evictions ≡ (make_room (expire now r)).evictions)
        × (length (get_or_insert now k r).0.entries ≡ length (make_room (expire now r)).entries + 1)
  after_miss dead = rw (get_or_insert_miss now k r built dead) (
    lookup-insert_self BreakerKey-discrete k
        (record { breaker = length (make_room (expire now r)).heap; last_used = now })
        (make_room (expire now r)).entries,
    refl,
    refl,
    refl,
    length-insert_new BreakerKey-discrete k
        (record { breaker = length (make_room (expire now r)).heap; last_used = now })
        (make_room (expire now r)).entries (dead_roomy dead),
  )

  pub others_miss :
      find k (expire now r) ≡ none
      → (j : BreakerKey) → k ≢ j
      → find j (get_or_insert now k r).0 ≡ find j (make_room (expire now r))
  others_miss dead j other = rw (get_or_insert_miss now k r built dead) (
      lookup-insert_ne BreakerKey-discrete k j
        (record { breaker = length (make_room (expire now r)).heap; last_used = now })
        (make_room (expire now r)).entries other)

  -- The registry never holds a key twice or more entries than its capacity.
  pub get_or_insert-IsBounded : IsBounded (get_or_insert now k r).0
  get_or_insert-IsBounded = elim (Option-cases (find k (expire now r))) [
    | inr (e, live) ↦ rw (get_or_insert_hit now k r live) (record {
      unique =
          insert-IsUnique BreakerKey-discrete k (record e { last_used = now })
            (expire now r).entries kept-IsBounded.unique;
      positive = kept-IsBounded.positive;
      within = omega (
        arith,
        kept-IsBounded.within,
        length-insert_old BreakerKey-discrete k (record e { last_used = now }) e
            (expire now r).entries live,
      );
    })
    | inl dead ↦
        let (unique, room, same) = make_room-IsBounded (expire now r) kept-IsBounded in
        rw (get_or_insert_miss now k r built dead) (record {
          unique =
              insert-IsUnique BreakerKey-discrete k
                (record { breaker = length (make_room (expire now r)).heap; last_used = now })
                (make_room (expire now r)).entries unique;
          positive = rw same kept-IsBounded.positive;
          within = rw same (
              omega (
                arith,
                room,
                length-insert_new BreakerKey-discrete k
                    (record { breaker = length (make_room (expire now r)).heap; last_used = now })
                    (make_room (expire now r)).entries (dead_roomy dead),
              ));
        })
  ]

  -- The call returns the breaker that the key has afterwards, last used now.
  pub get_or_insert_self :
      (i : ℕ) × ((get_or_insert now k r).1 ≡ ok i)
      × (find k (get_or_insert now k r).0 ≡ some (record { breaker = i; last_used = now }))
  get_or_insert_self = elim (Option-cases (find k (expire now r))) [
    | inr (e, live) ↦ (e.breaker, (after_hit e live).1, (after_hit e live).0)
    | inl dead ↦ (length (make_room (expire now r)).heap, (after_miss dead).1, (after_miss dead).0)
  ]

  -- An entry of another key was there before the call, unchanged and not expired.
  pub get_or_insert_others :
      (j : BreakerKey) {e : RegistryEntry}
      → k ≢ j
      → find j (get_or_insert now k r).0 ≡ some e
      → (find j r ≡ some e) × (is_fresh now r.config e ≡ true)
  get_or_insert_others j {e} other h = fresh_of_kept (elim (Option-cases (find k (expire now r))) [
    | inr (f, live) ↦ sym (others_hit f live j other) ∙ h
    | inl dead ↦ find-make_room j (expire now r) kept-IsBounded (sym (others_miss dead j other) ∙ h)
  ])
    where
      fresh_of_kept :
          find j (expire now r) ≡ some e → (find j r ≡ some e) × (is_fresh now r.config e ≡ true)
      fresh_of_kept there = ground (arith, find-expire now j r v)

-- ===== src/Registry/Eviction.antt =====
-- Which entries a use of `CircuitBreakerRegistry` gives up (src/rust/src/hardening.rs), what it
-- counts, and which callers share a breaker.
use ores_middleware.Prelude.Maps.{
  All-lookup, length-remove, length-retain, some_inj, lookup-remove_ne,
}
use ores_middleware.Prelude.{
  ℕ, ◌+◌, ◌≤◌, ◌<◌, ◌≡◌, ◌≢◌, inl, inr, refl, sym, ap, ◌∙◌, true, none, some, length, arith,
  Option-cases,
}
use ores_middleware.Resilience.{CircuitBreaker, Result, ok, err}
use ores_middleware.Resilience
use ores_middleware.Registry.{
  BreakerKey, BreakerKey-discrete, RegistryEntry, CircuitBreakerRegistry, u64_mod, is_fresh, expire,
  make_room, get_or_insert,
}
use ores_middleware.Registry.Laws.{
  find, IsBounded, expire-IsBounded, find-expire, make_room_cases, find-make_room,
}
use ores_middleware.Registry.Safety.{after_hit, others_hit, after_miss, others_miss}

find-expire_fresh :
    (now : ℕ) (j : BreakerKey) (r : CircuitBreakerRegistry) {e : RegistryEntry}
    → IsBounded r
    → find j r ≡ some e
    → is_fresh now r.config e ≡ true
    → find j (expire now r) ≡ some e
find-expire_fresh now j r v h f = ground (arith, find-expire now j r v)

-- entries that `expire` drops are counted
pub expire_counts :
    (now : ℕ) (r : CircuitBreakerRegistry)
    → r.evictions + length r.entries + 1 < u64_mod
    → ((expire now r).evictions + length (expire now r).entries ≡ r.evictions + length r.entries)
      × ((expire now r).heap ≡ r.heap)
      × ((expire now r).config ≡ r.config)
unfolding expire
expire_counts now r small =
    ground (arith, length-retain BreakerKey-discrete (is_fresh now r.config) r.entries)

pub make_room_counts :
    (r : CircuitBreakerRegistry)
    → IsBounded r
    → r.evictions + length r.entries + 1 < u64_mod
    → ((make_room r).evictions + length (make_room r).entries ≡ r.evictions + length r.entries)
      × ((make_room r).heap ≡ r.heap)
make_room_counts r v small = elim (make_room_cases r v) [
  | inl (room, same) ↦ rw same (refl, refl)
  | inr (victim, e, found, crowded, least, same) ↦
      rw same
        (omega (arith, small, length-remove BreakerKey-discrete victim e r.entries found), refl)
]

-- whoever is missing after `make_room` was the oldest
missing_is_oldest :
    (j i : BreakerKey) (r : CircuitBreakerRegistry) {e f : RegistryEntry}
    → IsBounded r
    → find j r ≡ some e
    → find j (make_room r) ≡ none
    → find i r ≡ some f
    → (e.last_used ≤ f.last_used) × (r.config.max_entries ≤ length r.entries)
missing_is_oldest j i r {e} {f} v here gone other = elim (make_room_cases r v) [
  | inl (room, same) ↦ absurd (cc (ap (find j) same, gone, here))
  | inr (victim, x, found, crowded, least, same) ↦ elim (BreakerKey-discrete j victim) [
    | no kept ↦
        let still : find j r ≡ none =
          sym (lookup-remove_ne BreakerKey-discrete victim j r.entries kept) ∙ (rw same at gone) in
        absurd (cc (still, here))
    | yes it ↦
        let own : e ≡ x = some_inj (sym here ∙ ap (λ y. find y r) it ∙ found) in
        (
          rw own (
              All-lookup BreakerKey-discrete (λ y. x.last_used ≤ y.1.last_used) i f r.entries least
                other),
          crowded,
        )
  ]
]

-- one more entry, unless the key is live
abbrev pub inserted : BreakerKey → CircuitBreakerRegistry → ℕ
inserted k kept = elim (find k kept) [ none ↦ 1 | some _ ↦ 0 ]

module _ (now : ℕ) (k : BreakerKey) (r : CircuitBreakerRegistry) {b : CircuitBreaker}
    (v : IsBounded r) (built : Resilience.new r.config.breaker ≡ ok b) where
  -- A live entry of another key that a call gives up was used no later than any other entry that
  -- the call keeps, and is given up only while the registry is full of live entries.
  pub get_or_insert_victim :
      (j i : BreakerKey) {e f : RegistryEntry}
      → k ≢ j
      → k ≢ i
      → find j r ≡ some e
      → is_fresh now r.config e ≡ true
      → find j (get_or_insert now k r).0 ≡ none
      → find i (get_or_insert now k r).0 ≡ some f
      → (e.last_used ≤ f.last_used)
        × ((expire now r).config.max_entries ≤ length (expire now r).entries)
  get_or_insert_victim j i k≢j k≢i here fresh gone other =
      let live = find-expire_fresh now j r v here fresh in
      elim (Option-cases (find k (expire now r))) [
        | inr (x, hit) ↦ absurd (cc (others_hit now k r v built x hit j k≢j, gone, live))
        | inl miss ↦
            let after_j = sym (others_miss now k r v built miss j k≢j) ∙ gone in
            let after_i = sym (others_miss now k r v built miss i k≢i) ∙ other in
            let kept = expire-IsBounded now r v in
            missing_is_oldest j i (expire now r) kept live after_j
              (find-make_room i (expire now r) kept after_i)
      ]

  -- While the counter does not wrap, every entry that was ever inserted is either still there or
  -- counted as an eviction.
  pub evictions_counted :
      r.evictions + length r.entries + 1 < u64_mod
      → (get_or_insert now k r).0.evictions + length (get_or_insert now k r).0.entries
        ≡ r.evictions + length r.entries + inserted k (expire now r)
  evictions_counted small =
      let (expired, _, _) = expire_counts now r small in
      let (roomy, _) = make_room_counts (expire now r) (expire-IsBounded now r v) (omega arith) in
      elim (Option-cases (find k (expire now r))) [
        | inr (e, hit) ↦
            let (_, _, _, same, size) = after_hit now k r v built e hit in
            rw (hit, inserted) (omega (arith, same, size, expired))
        | inl miss ↦
            let (_, _, _, same, size) = after_miss now k r v built miss in
            rw (miss, inserted) (omega (arith, same, size, expired, roomy))
      ]

-- ===== src/Registry/Laws.antt =====
-- What `get_or_insert` of src/rust/src/hardening.rs does to the entries, one part at a time.
use ores_middleware.Prelude.Maps.{
  lookup, insert, remove, IsUnique, lookup-remove_ne, lookup-remove_self, lookup-retain,
  remove-IsUnique, retain-IsUnique, length-retain, length-remove,
}
use ores_middleware.Prelude.{
  ℕ, ◌+◌, ◌%◌, ◌≤◌, ◌<◌, ◌≡◌, ◌⊎◌, inl, inr, refl, sym, ap, [], ◌∷◌, Option, none, some, length,
  All, arith, Bool-cases, Option-cases, leb, ◌∙◌, if◌then◌else◌, ◌++◌,
}
use ores_middleware.Resilience.{CircuitBreaker, Result, ok, err}
use ores_middleware.Resilience
use ores_middleware.Registry.{
  BreakerKey, BreakerKey-discrete, RegistryEntry, CircuitBreakerRegistry, u64_mod, oldest, is_fresh,
  expire, make_room, get_or_insert,
}
use ores_middleware.Registry.Oldest.{oldest_lem, oldest-ne-none}

abbrev pub find : BreakerKey → CircuitBreakerRegistry → Option RegistryEntry
find k r = lookup BreakerKey-discrete k r.entries

-- No key twice, and no more entries than the capacity.
pub record IsBounded (r : CircuitBreakerRegistry) : Type 0 where
  pub unique : IsUnique BreakerKey-discrete r.entries
  pub positive : 0 < r.config.max_entries
  pub within : length r.entries ≤ r.config.max_entries

pub expire-IsBounded :
    (now : ℕ) (r : CircuitBreakerRegistry) → IsBounded r → IsBounded (expire now r)
unfolding expire
expire-IsBounded now r v = record {
  unique = retain-IsUnique BreakerKey-discrete (is_fresh now r.config) r.entries v.unique;
  positive = v.positive;
  within =
      omega (arith, v.within, length-retain BreakerKey-discrete (is_fresh now r.config) r.entries);
}

pub find-expire :
    (now : ℕ) (j : BreakerKey) (r : CircuitBreakerRegistry)
    → IsBounded r
    → find j (expire now r)
      ≡ elim (find j r) [ none ↦ none | some e ↦ if is_fresh now r.config e then some e else none ]
unfolding expire
find-expire now j r v =
    lookup-retain BreakerKey-discrete (is_fresh now r.config) j r.entries v.unique

-- Either there was room, or the oldest entry is gone and counted.
pub make_room_cases :
    (r : CircuitBreakerRegistry)
    → IsBounded r
    → ((length r.entries < r.config.max_entries) × (make_room r ≡ r))
      ⊎ ((victim : BreakerKey) × (e : RegistryEntry) × (find victim r ≡ some e)
          × (r.config.max_entries ≤ length r.entries)
          × All (λ f. e.last_used ≤ f.1.last_used) r.entries
          × (make_room r ≡ record r {
            entries = remove BreakerKey-discrete victim r.entries;
            evictions = (r.evictions + 1) % u64_mod;
          }))
unfolding make_room
make_room_cases r v = elim (Bool-cases (leb r.config.max_entries (length r.entries))) [
  | inr free ↦ inl (ground arith, ground arith)
  | inl full ↦ elim (Option-cases (oldest r.entries)) [
    | inl nobody ↦ absurd (oldest-ne-none r.entries (ground (arith, v.positive)) nobody)
    | inr (victim, chosen) ↦
        let (e, found, least) = oldest_lem victim r.entries v.unique chosen in
        inr (victim, e, found, ground arith, least, rw (full, chosen))
  ]
]

pub make_room-IsBounded :
    (r : CircuitBreakerRegistry)
    → IsBounded r
    → IsUnique BreakerKey-discrete (make_room r).entries
      × (length (make_room r).entries < r.config.max_entries)
      × ((make_room r).config ≡ r.config)
make_room-IsBounded r v = elim (make_room_cases r v) [
  | inl (room, same) ↦ rw same (v.unique, room, refl)
  | inr (victim, e, found, crowded, least, same) ↦ rw same (
    remove-IsUnique BreakerKey-discrete victim r.entries v.unique,
    omega (arith, v.within, length-remove BreakerKey-discrete victim e r.entries found),
    refl,
  )
]

pub find-make_room :
    (j : BreakerKey) (r : CircuitBreakerRegistry) {e : RegistryEntry}
    → IsBounded r
    → find j (make_room r) ≡ some e
    → find j r ≡ some e
find-make_room j r v h = elim (make_room_cases r v) [
  | inl (room, same) ↦ rw same at h
  | inr (victim, f, found, crowded, least, same) ↦ elim (BreakerKey-discrete j victim) [
    | yes it ↦
        let gone = lookup-remove_self BreakerKey-discrete victim r.entries v.unique in
        let here = (rw same at h) in
        cc (
          ap (λ x. lookup BreakerKey-discrete x (remove BreakerKey-discrete victim r.entries)) it,
          gone,
        )
    | no other ↦
        sym (lookup-remove_ne BreakerKey-discrete victim j r.entries other) ∙ (rw same at h)
  ]
]

-- What `get_or_insert` does when the key is live, and when it is not.
pub get_or_insert_hit :
    (now : ℕ) (k : BreakerKey) (r : CircuitBreakerRegistry) {e : RegistryEntry}
    → find k (expire now r) ≡ some e
    → get_or_insert now k r ≡ (
      record (expire now r) {
        entries =
            insert BreakerKey-discrete k (record e { last_used = now }) (expire now r).entries;
      },
      ok e.breaker,
    )
unfolding get_or_insert
get_or_insert_hit now k r h = rw (h, get_or_insert)

pub get_or_insert_miss :
    (now : ℕ) (k : BreakerKey) (r : CircuitBreakerRegistry) {b : CircuitBreaker}
    → Resilience.new r.config.breaker ≡ ok b
    → find k (expire now r) ≡ none
    → let roomy = make_room (expire now r) in
      get_or_insert now k r ≡ (
        record roomy {
          entries =
              insert BreakerKey-discrete k
                (record { breaker = length roomy.heap; last_used = now })
                roomy.entries;
          heap = roomy.heap ++ b ∷ [];
        },
        ok (length roomy.heap),
      )
unfolding get_or_insert
get_or_insert_miss now k r built h = rw (h, get_or_insert) (rw built)

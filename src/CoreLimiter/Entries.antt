-- ===== src/CoreLimiter/Entries.antt =====
-- The map of entries under the operations of `evaluate_at`: the sweep, the eviction and the insertion of
-- integrations/ores-rate-limit-core-rust/src/core_rate_limiter.rs.
use ores_middleware.Prelude.Maps.{
  lookup, insert, IsUnique, lookup-remove_ne, lookup-remove_self, lookup-retain, remove-IsUnique,
  retain-IsUnique, length-retain, length-insert_new, length-insert_old, length-remove, remove,
}
use ores_middleware.Prelude.{
  ℕ, ◌≤◌, ◌<◌, ◌≡◌, ◌≢◌, ◌⊎◌, inl, inr, refl, sym, ap, ◌∙◌, true, false, List, Option, none, some,
  length, arith, Option-cases, leb, if◌then◌else◌, dec_lt,
}
use ores_middleware.CoreLimiter.{
  CoreApi, StateKey, StateEntry, StateKey-discrete, is_live, next_of, oldest, live_entries,
  make_room,
}
use ores_middleware.CoreLimiter.Ratio.{u64_mod}
use ores_middleware.CoreLimiter.Oldest.{IsOldest, oldest_lem, oldest-ne-none}

pub next_of_lem : (n : ℕ) → (0 < next_of n) × (next_of n < u64_mod)
unfolding next_of
next_of_lem n = (ground arith, ground arith)

module _ (api : CoreApi) where
  abbrev Entries : Type 0
  Entries = List (StateKey api × StateEntry api)

  -- what a store holds for a key
  abbrev pub find : StateKey api → Entries → Option (StateEntry api)
  find k m = lookup (StateKey-discrete api) k m

  pub record IsBounded (max_entries : ℕ) (m : Entries) : Type 0 where
    pub unique : IsUnique (StateKey-discrete api) m
    pub within : length m ≤ max_entries

  pub live_entries-IsBounded :
      (max_entries ttl_ms now_ms : ℕ) (m : Entries)
      → IsBounded max_entries m
      → IsBounded max_entries (live_entries api ttl_ms now_ms m)
  unfolding live_entries
  live_entries-IsBounded max_entries ttl_ms now_ms m b = record {
    unique = retain-IsUnique (StateKey-discrete api) _ m b.unique;
    within = omega (
      arith,
      b.within,
      length-retain (StateKey-discrete api) (λ e. is_live now_ms ttl_ms e.last_seen_ms) m,
    );
  }

  -- The sweep keeps the live entries and no other.
  pub find-live_entries :
      (ttl_ms now_ms : ℕ) (k : StateKey api) (m : Entries)
      → IsUnique (StateKey-discrete api) m
      → find k (live_entries api ttl_ms now_ms m) ≡ elim (find k m) [
        | none ↦ none
        | some e ↦ if is_live now_ms ttl_ms e.last_seen_ms then some e else none
      ]
  unfolding live_entries
  find-live_entries ttl_ms now_ms k m u =
      lookup-retain (StateKey-discrete api) (λ e. is_live now_ms ttl_ms e.last_seen_ms) k m u

  module _ (max_entries : ℕ) (k : StateKey api) (m : Entries) where
    make_room_held : (e : StateEntry api) → find k m ≡ some e → make_room api max_entries k m ≡ m
    unfolding make_room
    make_room_held e h = rw (make_room, h) refl

    make_room_new : find k m ≡ none → length m < max_entries → make_room api max_entries k m ≡ m
    unfolding make_room
    make_room_new h few =
        let test : leb max_entries (length m) ≡ false = ground arith in rw (make_room, h, test) refl

    make_room_full :
        (victim : StateKey api)
        → find k m ≡ none
        → max_entries ≤ length m
        → oldest api m ≡ some victim
        → make_room api max_entries k m ≡ remove (StateKey-discrete api) victim m
    unfolding make_room
    make_room_full victim h full v =
        let test : leb max_entries (length m) ≡ true = ground arith in
        rw (make_room, h, test, v) refl

    -- How room is made: not at all, or by the removal of the oldest entry of a full store.
    make_room_cases :
        0 < max_entries
        → (make_room api max_entries k m ≡ m)
            × (((e : StateEntry api) × (find k m ≡ some e))
                ⊎ ((find k m ≡ none) × (length m < max_entries)))
          ⊎ ((victim : StateKey api) × (find k m ≡ none)
              × (max_entries ≤ length m)
              × (oldest api m ≡ some victim)
              × (make_room api max_entries k m ≡ remove (StateKey-discrete api) victim m))
    make_room_cases pos = elim (Option-cases (find k m)) [
      | inr (held, h) ↦ inl (make_room_held held h, inl (held, h))
      | inl new ↦ elim (dec_lt (length m) max_entries) [
        | yes few ↦ inl (make_room_new new few, inr (new, few))
        | no full ↦ elim (Option-cases (oldest api m)) [
          | inl none_left ↦ absurd (oldest-ne-none api m (omega arith) none_left)
          | inr (victim, v) ↦
              inr (victim, new, omega arith, v, make_room_full victim new (omega arith) v)
        ]
      ]
    ]

    -- what a full store gives up for a new key
    abbrev pub IsEvicted : StateEntry api → Type 0
    IsEvicted e = (find k m ≡ none) × (max_entries ≤ length m) × IsOldest api e m

    module _ (pos : 0 < max_entries) (u : IsUnique (StateKey-discrete api) m) where
      -- Making room for a key leaves every key its entry, but for the victim of a full store.
      pub find-make_room :
          (j : StateKey api)
          → (find j (make_room api max_entries k m) ≡ find j m)
            ⊎ (e : StateEntry api) × (find j m ≡ some e)
              × (find j (make_room api max_entries k m) ≡ none)
              × IsEvicted e
      find-make_room j = elim (make_room_cases pos) [
        | inl (kept, _) ↦ inl (ap (find j) kept)
        | inr (victim, new, full, v, removed) ↦ elim (StateKey-discrete api j victim) [
          | yes same ↦
              let (w, held, least) = oldest_lem api victim m u v in
              inr (
                w,
                rw same held,
                rw (removed, same) (lookup-remove_self (StateKey-discrete api) victim m u),
                (new, full, least),
              )
          | no other ↦ inl (rw removed (lookup-remove_ne (StateKey-discrete api) victim j m other))
        ]
      ]

      pub make_room-IsUnique : IsUnique (StateKey-discrete api) (make_room api max_entries k m)
      make_room-IsUnique = elim (make_room_cases pos) [
        | inl (kept, _) ↦ rw kept u
        | inr (victim, _, _, _, removed) ↦
            rw removed (remove-IsUnique (StateKey-discrete api) victim m u)
      ]

      -- A full store holds the victim, and so the key that is new is another.
      inserted_evicted :
          (victim : StateKey api) (v : StateEntry api)
          → find k m ≡ none
          → oldest api m ≡ some victim
          → length (insert (StateKey-discrete api) k v (remove (StateKey-discrete api) victim m))
            ≡ length m
      inserted_evicted victim v new is_victim =
          let (w, held, _) = oldest_lem api victim m u is_victim in
          let other : k ≢ victim = λ e. cc (sym held ∙ rw e at new) in
          let absent = lookup-remove_ne (StateKey-discrete api) victim k m other ∙ new in
          omega (
            arith,
            length-insert_new (StateKey-discrete api) k v (remove (StateKey-discrete api) victim m)
                absent,
            length-remove (StateKey-discrete api) victim w m held,
          )

      -- An insertion after making room keeps the store within its bound.
      pub inserted-within :
          (v : StateEntry api)
          → length m ≤ max_entries
          → length (insert (StateKey-discrete api) k v (make_room api max_entries k m))
            ≤ max_entries
      inserted-within v within = elim (make_room_cases pos) [
        | inl (kept, inl (held, h)) ↦
            rw kept (omega (arith, length-insert_old (StateKey-discrete api) k v held m h))
        | inl (kept, inr (new, few)) ↦
            rw kept (omega (arith, few, length-insert_new (StateKey-discrete api) k v m new))
        | inr (victim, new, full, v_is, removed) ↦
            rw removed (omega (arith, inserted_evicted victim v new v_is))
      ]

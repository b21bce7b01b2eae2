-- ===== src/CoreLimiter/Safety.antt =====
-- What `evaluate_at` of integrations/ores-rate-limit-core-rust/src/core_rate_limiter.rs promises of its
-- bounded local store.
use ores_middleware.Prelude.Maps.{IsUnique}
use ores_middleware.Prelude.{
  ℕ, ◌<◌, ◌≡◌, ◌⊎◌, inl, inr, refl, sym, ◌∙◌, ap, none, some, Option, if◌then◌else◌, Bool-cases,
  ltb, ◌-◌, ◌||◌,
}
use ores_middleware.CoreLimiter.Ratio.{u64_mod, Float}
use ores_middleware.CoreLimiter.Requests.{RateLimitRequest, Decision, map_decision}
use ores_middleware.CoreLimiter.{
  CoreApi, StateKey, StateEntry, StateStore, CoreInMemoryRateLimiter, is_live, duration_ms,
  parse_principal, core_policy, StateKey-discrete, next_of, previous_state, evaluate_at,
}
use ores_middleware.CoreLimiter.Entries.{
  find, IsBounded, live_entries-IsBounded, find-live_entries, IsEvicted, next_of_lem,
}
use ores_middleware.CoreLimiter.Evaluation.{
  swept, evaluate_at_cases, decided, store_state-IsBounded, store_state-find,
  store_state-find_other,
}

module _ (api : CoreApi) (float : Float) (limiter : CoreInMemoryRateLimiter api)
    (request : RateLimitRequest float.F) (now_ms : ℕ) (store : StateStore api) where
  swept-IsBounded :
      IsBounded api limiter.max_entries store.entries
      → IsBounded api limiter.max_entries (swept api float limiter request now_ms store).entries
  swept-IsBounded b =
      live_entries-IsBounded api limiter.max_entries (duration_ms limiter.ttl) now_ms store.entries
        b

  -- Whether the request is refused, at any point, or decided, a store within its positive capacity and
  -- without repeated keys stays so.
  pub evaluate_at-IsBounded :
      0 < limiter.max_entries
      → IsBounded api limiter.max_entries store.entries
      → IsBounded api limiter.max_entries
          (evaluate_at api float limiter request now_ms store).0.entries
  evaluate_at-IsBounded pos b = elim (evaluate_at_cases api float limiter request now_ms store) [
    | inl (code, e) ↦ rw e b
    | inr (inl (code, e)) ↦ rw e (swept-IsBounded b)
    | inr (inr (key, next, decision, e)) ↦ rw e (
        store_state-IsBounded api limiter.max_entries now_ms key next
          (swept api float limiter request now_ms store) pos (swept-IsBounded b))
  ]

  -- an entry, if it is of the future or younger than the time to live
  abbrev pub only_live : Option (StateEntry api) → Option (StateEntry api)
  only_live none = none
  only_live (some e) =
      if is_live now_ms (duration_ms limiter.ttl) e.last_seen_ms then some e else none

  abbrev state_of : Option (StateEntry api) → api.LimitState
  state_of none = api.empty_state
  state_of (some e) = e.state

  filtered :
      (o : Option (StateEntry api))
      → state_of (only_live o) ≡ elim o [
        | none ↦ api.empty_state
        | some e ↦
            if is_live now_ms (duration_ms limiter.ttl) e.last_seen_ms
            then e.state
            else api.empty_state
      ]
  filtered none = refl
  filtered (some e) = elim (Bool-cases (is_live now_ms (duration_ms limiter.ttl) e.last_seen_ms)) [
    | inl live ↦ rw live refl
    | inr expired ↦ rw expired refl
  ]

  -- The transition starts from the state of the key's entry exactly when that entry is of the future or
  -- younger than the time to live, and otherwise from the empty state.
  pub previous_state-swept :
      (key : StateKey api)
      → IsUnique (StateKey-discrete api) store.entries
      → previous_state api key (swept api float limiter request now_ms store).entries
        ≡ elim (find api key store.entries) [
          | none ↦ api.empty_state
          | some e ↦
              if ltb now_ms e.last_seen_ms
                || ltb (now_ms - e.last_seen_ms) (duration_ms limiter.ttl)
              then e.state
              else api.empty_state
        ]
  unfolding previous_state is_live
  previous_state-swept key u =
      let known = find-live_entries api (duration_ms limiter.ttl) now_ms key store.entries u in
      ap state_of known ∙ filtered (find api key store.entries)

  -- What a decision leaves of a key: the swept entry, or nothing of a live one that a full store gave up.
  abbrev pub Remains : StateKey api → StateKey api → Type 0
  Remains key j =
      let after = (evaluate_at api float limiter request now_ms store).0.entries in
      (find api j after ≡ only_live (find api j store.entries))
      ⊎ (entry : StateEntry api) × (only_live (find api j store.entries) ≡ some entry)
        × (find api j after ≡ none)
        × IsEvicted api limiter.max_entries key
            (swept api float limiter request now_ms store).entries entry

  -- A request with a valid digest and policy that the transition decides, whatever the store holds, which is
  -- within its positive capacity and without repeated keys: the answer is the mapped decision; the key's
  -- entry holds the next state and the time, with a generation that is positive and fits u64; and any other
  -- key has its entry as before if that is live and none if not, unless the store was full of live entries,
  -- the request's key had none, and the other key's entry, which is given up, is one that no live entry was
  -- seen before.
  pub evaluate_at_decided :
      (principal : api.OpaqueKey) (policy : api.LimitPolicy) (next : api.LimitState)
      (decision : Decision) (j : StateKey api)
      → 0 < limiter.max_entries
      → IsBounded api limiter.max_entries store.entries
      → parse_principal api request.principal.digest ≡ inr principal
      → core_policy api float request ≡ inr policy
      → api.transition policy
          (previous_state api
            (request.policy_id, principal)
            (swept api float limiter request now_ms store).entries)
          now_ms
          request.cost
        ≡ inr (next, decision)
      → ((evaluate_at api float limiter request now_ms store).1
          ≡ inr (map_decision request decision))
        × (find api
              (request.policy_id, principal)
              (evaluate_at api float limiter request now_ms store).0.entries
            ≡ some (record {
              state = next;
              last_seen_ms = now_ms;
              generation = next_of store.next_generation;
            }))
        × (0 < next_of store.next_generation)
        × (next_of store.next_generation < u64_mod)
        × ((j ≡ (request.policy_id, principal)) ⊎ Remains (request.policy_id, principal) j)
  evaluate_at_decided principal policy next decision j pos b p c t =
      let key : StateKey api = (request.policy_id, principal) in
      let from = swept api float limiter request now_ms store in
      let (generation_pos, generation_fits) = next_of_lem store.next_generation in
      rw (decided api float limiter request now_ms store principal policy p c next decision t) (
        refl,
        store_state-find api limiter.max_entries now_ms key next from pos,
        generation_pos,
        generation_fits,
        elim (StateKey-discrete api j key) [
          | yes same ↦ inl same
          | no other ↦
              let kept : find api j from.entries ≡ only_live (find api j store.entries) =
                find-live_entries api (duration_ms limiter.ttl) now_ms j store.entries b.unique in
              elim (store_state-find_other api limiter.max_entries now_ms key next from pos
                (swept-IsBounded b).unique j other) [
                  | inl same ↦ inr (inl (same ∙ kept))
                  | inr (entry, at, gone, evicted) ↦ inr (inr (entry, sym kept ∙ at, gone, evicted))
                ]
        ],
      )

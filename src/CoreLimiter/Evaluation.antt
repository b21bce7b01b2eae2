-- ===== src/CoreLimiter/Evaluation.antt =====
-- `evaluate_at` of integrations/ores-rate-limit-core-rust/src/core_rate_limiter.rs on every branch.
use ores_middleware.Prelude.Maps.{IsUnique, lookup-insert_self, lookup-insert_ne, insert-IsUnique}
use ores_middleware.Prelude.{
  ℕ, ◌<◌, ◌≡◌, ◌≢◌, ◌⊎◌, inl, inr, refl, sym, ◌∙◌, none, some, String, Sum-cases,
}
use ores_middleware.CoreLimiter.Ratio.{Float}
use ores_middleware.CoreLimiter.Requests.{
  RateLimitRequest, RateLimitDecision, Decision, map_decision,
}
use ores_middleware.CoreLimiter.{
  CoreApi, StateKey, StateEntry, StateStore, StateKey-discrete, CoreInMemoryRateLimiter,
  TransitionError, transition_error, duration_ms, next_of, parse_principal, core_policy,
  live_entries, previous_state, store_state, evaluate_at,
}
use ores_middleware.CoreLimiter.Entries.{
  find, IsBounded, find-make_room, make_room-IsUnique, inserted-within, IsEvicted,
}

module _ (api : CoreApi) (max_entries now_ms : ℕ) (k : StateKey api) (next : api.LimitState)
    (store : StateStore api) (pos : 0 < max_entries) where
  abbrev after : StateStore api
  after = store_state api max_entries now_ms k next store

  pub store_state-IsBounded :
      IsBounded api max_entries store.entries → IsBounded api max_entries after.entries
  unfolding store_state
  store_state-IsBounded b = record {
    unique =
        insert-IsUnique (StateKey-discrete api) k _ _
          (make_room-IsUnique api max_entries k store.entries pos b.unique);
    within = inserted-within api max_entries k store.entries pos b.unique _ b.within;
  }

  pub store_state-find :
      find api k after.entries
      ≡ some (record {
        state = next;
        last_seen_ms = now_ms;
        generation = next_of store.next_generation;
      })
  unfolding store_state
  store_state-find = lookup-insert_self (StateKey-discrete api) k _ _

  pub store_state-find_other :
      IsUnique (StateKey-discrete api) store.entries
      → (j : StateKey api) → j ≢ k
      → (find api j after.entries ≡ find api j store.entries)
        ⊎ (e : StateEntry api) × (find api j store.entries ≡ some e)
          × (find api j after.entries ≡ none)
          × IsEvicted api max_entries k store.entries e
  unfolding store_state
  store_state-find_other u j other =
      let same = lookup-insert_ne (StateKey-discrete api) k j _ _ (λ s. other (sym s)) in
      elim (find-make_room api max_entries k store.entries pos u j) [
        | inl kept ↦ inl (same ∙ kept)
        | inr (e, at, gone, evicted) ↦ inr (e, at, same ∙ gone, evicted)
      ]

module _ (api : CoreApi) (float : Float) (limiter : CoreInMemoryRateLimiter api)
    (request : RateLimitRequest float.F) (now_ms : ℕ) (store : StateStore api) where
  abbrev pub ttl_ms : ℕ
  ttl_ms = duration_ms limiter.ttl

  -- the store after the sweep of the expired entries
  abbrev pub swept : StateStore api
  swept = record store { entries = live_entries api ttl_ms now_ms store.entries }

  abbrev pub result : StateStore api × (String ⊎ RateLimitDecision)
  result = evaluate_at api float limiter request now_ms store

  -- the key, its state before and the result of the transition, for a principal and a policy
  abbrev pub transition_of :
      api.OpaqueKey → api.LimitPolicy → TransitionError ⊎ (api.LimitState × Decision)
  transition_of principal policy =
      api.transition policy (previous_state api (request.policy_id, principal) swept.entries) now_ms
        request.cost

  refused_principal :
      (code : String)
      → parse_principal api request.principal.digest ≡ inl code
      → result ≡ (store, inl code)
  unfolding evaluate_at
  refused_principal code p = rw (evaluate_at, p) refl

  refused_policy :
      (principal : api.OpaqueKey) (code : String)
      → parse_principal api request.principal.digest ≡ inr principal
      → core_policy api float request ≡ inl code
      → result ≡ (store, inl code)
  unfolding evaluate_at
  refused_policy principal code p c = rw (evaluate_at, p, c) refl

  module _ (principal : api.OpaqueKey) (policy : api.LimitPolicy)
      (p : parse_principal api request.principal.digest ≡ inr principal)
      (c : core_policy api float request ≡ inr policy) where
    refused_transition :
        (error : TransitionError)
        → transition_of principal policy ≡ inl error
        → result ≡ (swept, inl (transition_error error))
    unfolding evaluate_at
    refused_transition error t = rw (evaluate_at, p, c, t) refl

    pub decided :
        (next : api.LimitState) (decision : Decision)
        → transition_of principal policy ≡ inr (next, decision)
        → result ≡ (
          store_state api limiter.max_entries now_ms (request.policy_id, principal) next swept,
          inr (map_decision request decision),
        )
    unfolding evaluate_at
    decided next decision t = rw (evaluate_at, p, c, t) refl

  -- The two refusals that leave the store as it is, the refusal by the transition, and the decision.
  pub evaluate_at_cases :
      ((code : String) × (result ≡ (store, inl code)))
      ⊎ ((code : String) × (result ≡ (swept, inl code)))
      ⊎ ((key : StateKey api) × (next : api.LimitState) × (decision : Decision) × (result ≡ (
        store_state api limiter.max_entries now_ms key next swept,
        inr (map_decision request decision),
      )))
  evaluate_at_cases = elim (Sum-cases (parse_principal api request.principal.digest)) [
    | inl (code, p) ↦ inl (code, refused_principal code p)
    | inr (principal, p) ↦ elim (Sum-cases (core_policy api float request)) [
      | inl (code, c) ↦ inl (code, refused_policy principal code p c)
      | inr (policy, c) ↦ elim (Sum-cases (transition_of principal policy)) [
        | inl (error, t) ↦
            inr (inl (transition_error error, refused_transition principal policy p c error t))
        | inr ((next, decision), t) ↦ inr (
            inr (
              (request.policy_id, principal),
              next,
              decision,
              decided principal policy p c next decision t,
            ))
      ]
    ]
  ]

-- ===== src/CoreLimiter.antt =====
-- The local rate limiter of integrations/ores-rate-limit-core-rust/src/core_rate_limiter.rs. The state
-- machines of ores-rl-lib-core are the record `CoreApi`, the numbers of type f64 the record `Float`.
-- A method is a function of the store, which the mutex guards, and of the time.
pub mod Ratio
pub mod Requests
mod Oldest
mod Evaluation
mod Safety
mod Entries
pub mod Counter
mod Tests
use ores_middleware.Prelude.Bytes.{Bytes, Bytes-discrete, is_ascii_digit}
use ores_middleware.Prelude.Maps.{lookup, insert, remove, retain}
use ores_middleware.Prelude.{
  ℕ, ◌+◌, ◌-◌, ◌/◌, ◌%◌, ◌⊎◌, inl, inr, Bool, true, false, not, ◌&&◌, ◌||◌, List, [], ◌∷◌, Option,
  none, some, String, ◌==◌, leb, ltb, length, all, if◌then◌else◌, ℕ_discrete,
}
use ores_middleware.CoreLimiter.Ratio.{u64_mod, u64_max, Float, rational_refill}
use ores_middleware.CoreLimiter.Requests.{
  RateLimitAlgorithm, token_bucket, sliding_window_counter, fixed_window, concurrency,
  RateLimitRequest, RateLimitDecision, Decision, map_decision,
}

pub data TransitionError : Type 0 where
  invalid_policy zero_cost cost_exceeds_capacity : TransitionError
  clock_moved_backwards state_algorithm_mismatch : TransitionError

abbrev pub transition_error : TransitionError → String
transition_error invalid_policy = "rate_limit_core_policy_invalid"
transition_error zero_cost = "rate_limit_core_zero_cost"
transition_error cost_exceeds_capacity = "rate_limit_core_cost_exceeds_capacity"
transition_error clock_moved_backwards = "rate_limit_core_clock_moved_backwards"
transition_error state_algorithm_mismatch = "rate_limit_core_state_algorithm_mismatch"

-- What the adapter uses of ores-rl-lib-core.
pub record CoreApi : Type 1 where
  pub OpaqueKey : Type 0
  pub OpaqueKey-discrete : Discrete OpaqueKey
  pub parse_key : Bytes → Option OpaqueKey
  pub LimitPolicy : Type 0
  pub token_bucket_policy : (capacity tokens interval_ms : ℕ) → LimitPolicy
  pub sliding_window_policy : (capacity window_ms : ℕ) → LimitPolicy
  pub fixed_window_policy : (capacity window_ms : ℕ) → LimitPolicy
  pub enforced : LimitPolicy → LimitPolicy
  pub validate : LimitPolicy → Option LimitPolicy
  pub LimitState : Type 0
  pub empty_state : LimitState
  pub transition :
      LimitPolicy → LimitState → (now_ms cost : ℕ) → TransitionError ⊎ (LimitState × Decision)

-- `matches!(byte, b'0'..=b'9' | b'a'..=b'f')`
unfoldable pub is_hex : ℕ → Bool
is_hex b = is_ascii_digit b || leb b'a' b && leb b b'f'

-- the test of `parse_principal` before the digest is decoded
unfoldable pub is_digest : Bytes → Bool
is_digest digest = length digest == 64 && all is_hex digest

-- A `Duration` is its number of nanoseconds, of which `as_millis` keeps the whole milliseconds.
abbrev as_millis : ℕ → ℕ
as_millis value = value / 1000000

abbrev pub duration_ms : ℕ → ℕ
duration_ms value = if ltb u64_max (as_millis value) then u64_max else as_millis value

-- Whether the store keeps an entry that was last seen then.
unfoldable pub is_live : (now_ms ttl_ms last_seen_ms : ℕ) → Bool
is_live now_ms ttl_ms last_seen_ms = ltb now_ms last_seen_ms || ltb (now_ms - last_seen_ms) ttl_ms

-- `wrapping_add(1)`, and 1 in place of 0
unfoldable pub next_of : ℕ → ℕ
next_of generation = let next : ℕ = (generation + 1) % u64_mod in if next == 0 then 1 else next

module _ (api : CoreApi) where
  open api use {
    OpaqueKey, OpaqueKey-discrete, parse_key, LimitPolicy, token_bucket_policy,
    sliding_window_policy, fixed_window_policy, enforced, validate, LimitState, empty_state,
    transition,
  }

  abbrev pub StateKey : Type 0
  StateKey = Bytes × OpaqueKey

  pub record StateEntry : Type 0 where
    pub state : LimitState
    pub last_seen_ms : ℕ
    pub generation : ℕ

  pub record StateStore : Type 0 where
    pub entries : List (StateKey × StateEntry)
    pub next_generation : ℕ

  pub record CoreInMemoryRateLimiter : Type 0 where
    pub max_entries : ℕ
    pub ttl : ℕ

  unfoldable pub with_bounds : ℕ → ℕ → String ⊎ (CoreInMemoryRateLimiter × StateStore)
  with_bounds max_entries ttl =
      if max_entries == 0 || ttl == 0
      then inl "rate_limit_core_bounds_invalid"
      else inr (
        record { max_entries = max_entries; ttl = ttl },
        record { entries = []; next_generation = 0 },
      )

  pub StateKey-discrete : Discrete StateKey
  StateKey-discrete = hlevel (Bytes-discrete, OpaqueKey-discrete)

  unfoldable pub parse_principal : Bytes → String ⊎ OpaqueKey
  parse_principal digest =
      if not (is_digest digest)
      then inl "rate_limit_core_principal_invalid"
      else elim (parse_key digest) [
        | none ↦ inl "rate_limit_core_principal_invalid"
        | some key ↦ inr key
      ]

  -- `min_by_key` of the time and the generation: the first entry with the least pair
  abbrev pub seen_before : StateKey × StateEntry → StateKey × StateEntry → Bool
  seen_before a b =
      ltb a.1.last_seen_ms b.1.last_seen_ms
      || a.1.last_seen_ms == b.1.last_seen_ms && ltb a.1.generation b.1.generation

  unfoldable pub oldest_from : StateKey × StateEntry → List (StateKey × StateEntry) → StateKey
  oldest_from best [] = best.0
  oldest_from best (e ∷ m) = if seen_before e best then oldest_from e m else oldest_from best m

  unfoldable pub oldest : List (StateKey × StateEntry) → Option StateKey
  oldest [] = none
  oldest (e ∷ m) = some (oldest_from e m)

  -- what the sweep of the expired entries leaves
  unfoldable pub live_entries :
      (ttl_ms now_ms : ℕ) → List (StateKey × StateEntry) → List (StateKey × StateEntry)
  unfolding retain
  live_entries ttl_ms now_ms entries =
      retain StateKey-discrete (λ entry. is_live now_ms ttl_ms entry.last_seen_ms) entries

  -- the state that the transition starts from
  unfoldable pub previous_state : StateKey → List (StateKey × StateEntry) → LimitState
  unfolding lookup
  previous_state key entries = elim (lookup StateKey-discrete key entries) [
    | none ↦ empty_state
    | some entry ↦ entry.state
  ]

  -- a full store gives up its oldest entry for a new key
  unfoldable pub make_room :
      (max_entries : ℕ) → StateKey → List (StateKey × StateEntry) → List (StateKey × StateEntry)
  unfolding lookup remove oldest
  make_room max_entries key entries = elim (lookup StateKey-discrete key entries) [
    | some _ ↦ entries
    | none ↦
        if leb max_entries (length entries)
        then elim (oldest entries) [
          | none ↦ entries
          | some victim ↦ remove StateKey-discrete victim entries
        ]
        else entries
  ]

  -- what the rest of `evaluate_at` does to the swept store after the transition
  unfoldable pub store_state :
      (max_entries now_ms : ℕ) → StateKey → LimitState → StateStore → StateStore
  unfolding make_room insert
  store_state max_entries now_ms key next store =
      let generation : ℕ = next_of store.next_generation in
      record {
        entries =
            insert StateKey-discrete key
              (record { state = next; last_seen_ms = now_ms; generation = generation })
              (make_room max_entries key store.entries);
        next_generation = generation;
      }

  module _ (float : Float) where
    unfoldable pub algorithm_policy : RateLimitRequest float.F → String ⊎ LimitPolicy
    unfolding rational_refill
    algorithm_policy request = elim request.algorithm [
      | token_bucket ↦ elim (rational_refill float request.refill_per_second) [
        | inl code ↦ inl code
        | inr ratio ↦ inr (token_bucket_policy request.capacity ratio.0 ratio.1)
      ]
      | sliding_window_counter ↦ inr (sliding_window_policy request.capacity request.window_ms)
      | fixed_window ↦ inr (fixed_window_policy request.capacity request.window_ms)
      | concurrency ↦ inl "rate_limit_core_concurrency_unsupported"
    ]

    unfoldable pub core_policy : RateLimitRequest float.F → String ⊎ LimitPolicy
    unfolding algorithm_policy
    core_policy request = elim (algorithm_policy request) [
      | inl code ↦ inl code
      | inr policy ↦ elim (validate (enforced policy)) [
        | none ↦ inl "rate_limit_core_policy_invalid"
        | some valid ↦ inr valid
      ]
    ]

    -- The store under the lock, and the result.
    unfoldable pub evaluate_at :
        CoreInMemoryRateLimiter
        → RateLimitRequest float.F
        → ℕ
        → StateStore
        → StateStore × (String ⊎ RateLimitDecision)
    unfolding parse_principal core_policy live_entries previous_state store_state map_decision
    evaluate_at limiter request now_ms store = elim (parse_principal request.principal.digest) [
      | inl code ↦ (store, inl code)
      | inr principal ↦ elim (core_policy request) [
        | inl code ↦ (store, inl code)
        | inr policy ↦
            let key : StateKey = (request.policy_id, principal) in
            let swept : StateStore = record store {
              entries = live_entries (duration_ms limiter.ttl) now_ms store.entries;
            } in
            elim (transition policy (previous_state key swept.entries) now_ms request.cost) [
              | inl error ↦ (swept, inl (transition_error error))
              | inr (next, decision) ↦ (
                store_state limiter.max_entries now_ms key next swept,
                inr (map_decision request decision),
              )
            ]
      ]
    ]

-- ===== src/CoreLimiter/Tests.antt =====
-- A concrete limiter for the theorems on the local store.
use Prim.Native.Nat.{◌∣◌}
use ores_middleware.CoreLimiter.Counter.{counter_api, millionths}
use ores_middleware.Prelude.Bytes.{Bytes, Bytes-discrete, codes}
use ores_middleware.Prelude.Maps.{lookup}
use ores_middleware.Prelude.{
  ◌↔◌, ℕ, ◌*◌, ◌≤◌, ◌<◌, ◌≡◌, ◌⊎◌, inr, refl, false, [], ◌∷◌, some, arith, ℕ_discrete,
}
use ores_middleware.CoreLimiter.Ratio.{
  greatest_common_divisor, rational_refill, precision, u64_mod, rational_refill_lem,
  greatest_common_divisor_lem,
}
use ores_middleware.CoreLimiter.Requests.{RateLimitRequest, map_decision, allow, fixed_window}
use ores_middleware.CoreLimiter.{
  StateKey, StateEntry, StateStore, CoreInMemoryRateLimiter, evaluate_at, with_bounds,
  parse_principal, core_policy, live_entries, is_live, is_digest, is_hex, StateKey-discrete,
  previous_state, next_of,
}
use ores_middleware.Policy.Posture.{application}
use ores_middleware.CoreLimiter.Entries.{IsBounded, find}
use ores_middleware.CoreLimiter.Safety.{evaluate_at-IsBounded, evaluate_at_decided, Remains}

greatest_common_divisor_lem_example :
    (500000 ∣ greatest_common_divisor 2500000 1000000) ↔ ((500000 ∣ 2500000) × (500000 ∣ 1000000))
greatest_common_divisor_lem_example = greatest_common_divisor_lem 2500000 1000000 500000

-- two and a half tokens for each second
rational_refill_lem_example :
    (tokens interval_ms : ℕ) × (rational_refill millionths 2500000 ≡ inr (tokens, interval_ms))
    × (0 < tokens)
    × (0 < interval_ms)
    × (interval_ms ≤ 1000 * precision)
    × (tokens * (1000 * precision) ≡ 2500000 * interval_ms)
rational_refill_lem_example =
    rational_refill_lem millionths 2500000 refl refl refl refl refl (omega arith)

refill_run : rational_refill millionths 2500000 ≡ inr (5, 2000)
unfolding rational_refill greatest_common_divisor
refill_run = refl

abbrev digest_a : Bytes
digest_a = codes "aaaaaaaaaaaaaaaaaaaaaaaaaaaaaaaaaaaaaaaaaaaaaaaaaaaaaaaaaaaaaaaa"

abbrev digest_b : Bytes
digest_b = codes "bbbbbbbbbbbbbbbbbbbbbbbbbbbbbbbbbbbbbbbbbbbbbbbbbbbbbbbbbbbbbbbb"

abbrev request : RateLimitRequest ℕ
request = record {
  principal = record { digest = digest_a; key_version = codes "v1" };
  policy_id = codes "p";
  algorithm = fixed_window;
  layer = application;
  capacity = 2;
  refill_per_second = 1000000;
  window_ms = 1000;
  cost = 1;
}

abbrev limiter : CoreInMemoryRateLimiter counter_api
limiter = record { max_entries = 2; ttl = 30000000000 }

abbrev entry_b : StateEntry counter_api
entry_b = record { state = 1; last_seen_ms = 5; generation = 1 }

abbrev store : StateStore counter_api
store = record { entries = ((codes "", digest_b), entry_b) ∷ []; next_generation = 1 }

store-IsBounded : IsBounded counter_api 2 store.entries
store-IsBounded = record { unique = (tt, tt); within = omega arith }

evaluate_at-IsBounded_example :
    IsBounded counter_api 2 (evaluate_at counter_api millionths limiter request 10 store).0.entries
evaluate_at-IsBounded_example =
    evaluate_at-IsBounded counter_api millionths limiter request 10 store (omega arith)
      store-IsBounded

abbrev key_a : StateKey counter_api
key_a = (codes "p", digest_a)

abbrev key_b : StateKey counter_api
key_b = (codes "", digest_b)

evaluate_at_decided_example :
    ((evaluate_at counter_api millionths limiter request 10 store).1
      ≡ inr (map_decision request (allow 1 1000 false)))
    × (find counter_api key_a
          (evaluate_at counter_api millionths limiter request 10 store).0.entries
        ≡ some (record { state = 1; last_seen_ms = 10; generation = next_of 1 }))
    × (0 < next_of 1)
    × (next_of 1 < u64_mod)
    × ((key_b ≡ key_a) ⊎ Remains counter_api millionths limiter request 10 store key_a key_b)
unfolding parse_principal core_policy previous_state live_entries is_live is_digest is_hex lookup
    StateKey-discrete Bytes-discrete ℕ_discrete
evaluate_at_decided_example =
    evaluate_at_decided counter_api millionths limiter request 10 store digest_a 2 1
      (allow 1 1000 false) key_b (omega arith) store-IsBounded refl refl refl

-- a limiter whose time to live is shorter than a millisecond
sub_millisecond_run :
    with_bounds counter_api 2 1
    ≡ inr (record { max_entries = 2; ttl = 1 }, record { entries = []; next_generation = 0 })
unfolding with_bounds
sub_millisecond_run = refl

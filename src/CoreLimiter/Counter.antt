-- ===== src/CoreLimiter/Counter.antt =====
-- A concrete instance of what integrations/ores-rate-limit-core-rust takes from elsewhere: for
-- ores-rl-lib-core a counter for each key, for the type f64 a number of millionths.
use ores_middleware.Prelude.Bytes.{Bytes, Bytes-discrete}
use ores_middleware.Prelude.{ℕ, ◌+◌, ◌-◌, inr, true, false, none, some, ltb, if◌then◌else◌, ◌==◌}
use ores_middleware.CoreLimiter.Ratio.{Float, u64_max}
use ores_middleware.CoreLimiter.Requests.{allow, deny, limit_exceeded}
use ores_middleware.CoreLimiter.{CoreApi}

abbrev pub counter_api : CoreApi
counter_api = record {
  OpaqueKey = Bytes;
  OpaqueKey-discrete = Bytes-discrete;
  parse_key = λ digest. some digest;
  LimitPolicy = ℕ;
  token_bucket_policy = λ capacity tokens interval_ms. capacity;
  sliding_window_policy = λ capacity window_ms. capacity;
  fixed_window_policy = λ capacity window_ms. capacity;
  enforced = λ policy. policy;
  validate = λ policy. if policy == 0 then none else some policy;
  LimitState = ℕ;
  empty_state = 0;
  transition = λ policy used now_ms cost.
      if ltb used policy
      then inr (used + 1, allow (policy - used - 1) 1000 false)
      else inr (used, deny 1000 limit_exceeded);
}

abbrev pub millionths : Float
millionths = record {
  F = ℕ;
  is_finite = λ x. true;
  is_positive = λ x. ltb 0 x;
  scaled = λ x. x;
  below_one = λ x. ltb x 1;
  above_u64 = λ x. ltb u64_max x;
  rounded = λ x. x;
}

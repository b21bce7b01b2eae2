-- ===== src/CoreLimiter/Requests.antt =====
-- The requests and decisions of src/rust/src/rate_limit.rs, and `map_decision` and `deny_reason` of
-- integrations/ores-rate-limit-core-rust/src/core_rate_limiter.rs. The decision of ores-rl-lib-core has
-- the constructors that the code matches on; its duration is in milliseconds.
use ores_middleware.Prelude.Bytes.{Bytes}
use ores_middleware.Prelude.{
  ℕ, ◌-◌, ◌^◌, Bool, true, false, Option, none, some, String, ltb, if◌then◌else◌,
}
use ores_middleware.Policy.Posture.{RateLimitLayer}
use ores_middleware.Principal.Derivation.{RateLimitPrincipal}

pub data RateLimitAlgorithm : Type 0 where
  token_bucket sliding_window_counter fixed_window concurrency : RateLimitAlgorithm

pub data RateLimitDecisionKind : Type 0 where
  allowed denied degraded_allowed degraded_denied : RateLimitDecisionKind

abbrev pub kind_is_allowed : RateLimitDecisionKind → Bool
kind_is_allowed allowed = true
kind_is_allowed degraded_allowed = true
kind_is_allowed denied = false
kind_is_allowed degraded_denied = false

pub data RateLimitDecisionSource : Type 0 where
  local_memory redis cloudflare_cache kubernetes_ingress service_mesh : RateLimitDecisionSource
  authorization unknown : RateLimitDecisionSource

pub record RateLimitRequest (F : Type 0) : Type 0 where
  pub principal : RateLimitPrincipal
  pub policy_id : Bytes
  pub algorithm : RateLimitAlgorithm
  pub layer : RateLimitLayer
  pub capacity : ℕ
  pub refill_per_second : F
  pub window_ms : ℕ
  pub cost : ℕ

pub record RateLimitDecision : Type 0 where
  pub kind : RateLimitDecisionKind
  pub source : RateLimitDecisionSource
  pub policy_id : Bytes
  pub layer : RateLimitLayer
  pub algorithm : RateLimitAlgorithm
  pub limit : ℕ
  pub remaining : ℕ
  pub retry_after_ms : Option ℕ
  pub reset_after_ms : Option ℕ
  pub reason_code : Option String

abbrev pub is_allowed : RateLimitDecision → Bool
is_allowed decision = kind_is_allowed decision.kind

pub data DenyReason : Type 0 where
  limit_exceeded backend_unavailable locally_blocked : DenyReason

pub data Decision : Type 0 where
  bypass : String → Decision
  allow : (remaining reset_after_ms : ℕ) (observed_only : Bool) → Decision
  deny : (retry_after_ms : ℕ) → DenyReason → Decision

abbrev pub deny_reason : DenyReason → String
deny_reason limit_exceeded = "limit-exceeded"
deny_reason backend_unavailable = "backend-unavailable"
deny_reason locally_blocked = "locally-blocked"

abbrev pub u32_max : ℕ
u32_max = 2 ^ 32 - 1

-- `u32::try_from(n).unwrap_or(u32::MAX)`
abbrev pub to_u32 : ℕ → ℕ
to_u32 n = if ltb u32_max n then u32_max else n

module _ {F : Type 0} where
  -- the fields that every decision of the adapter takes from the request
  abbrev local_decision :
      RateLimitRequest F
      → RateLimitDecisionKind
      → ℕ
      → Option ℕ
      → Option ℕ
      → Option String
      → RateLimitDecision
  local_decision request kind remaining retry_after_ms reset_after_ms reason_code = record {
    kind = kind;
    source = local_memory;
    policy_id = request.policy_id;
    layer = request.layer;
    algorithm = request.algorithm;
    limit = request.capacity;
    remaining = remaining;
    retry_after_ms = retry_after_ms;
    reset_after_ms = reset_after_ms;
    reason_code = reason_code;
  }

  unfoldable pub map_decision : RateLimitRequest F → Decision → RateLimitDecision
  map_decision request (bypass reason) =
      local_decision request allowed request.capacity none none (some reason)
  map_decision request (allow remaining reset_after_ms observed_only) =
      local_decision request (if observed_only then degraded_allowed else allowed)
        (to_u32 remaining) none (some reset_after_ms)
        (if observed_only then some "observe-only-overage" else none)
  map_decision request (deny retry_after_ms reason) =
      local_decision request denied 0 (some retry_after_ms) (some retry_after_ms)
        (some (deny_reason reason))

  -- `RateLimitDecision::legacy`
  unfoldable pub legacy : RateLimitRequest F → Bool → RateLimitDecisionSource → RateLimitDecision
  legacy request accepted source = record {
    kind = if accepted then allowed else denied;
    source = source;
    policy_id = request.policy_id;
    layer = request.layer;
    algorithm = request.algorithm;
    limit = request.capacity;
    remaining = if accepted then request.capacity - request.cost else 0;
    retry_after_ms = if accepted then none else some 1000;
    reset_after_ms = none;
    reason_code = none;
  }

  -- `RateLimitDecision::degraded`
  unfoldable pub degraded :
      RateLimitRequest F → Bool → RateLimitDecisionSource → String → RateLimitDecision
  degraded request accepted source reason_code = record {
    kind = if accepted then degraded_allowed else degraded_denied;
    source = source;
    policy_id = request.policy_id;
    layer = request.layer;
    algorithm = request.algorithm;
    limit = request.capacity;
    remaining = 0;
    retry_after_ms = if accepted then none else some 1000;
    reset_after_ms = none;
    reason_code = some reason_code;
  }

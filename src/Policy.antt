-- ===== src/Policy.antt =====
-- `RateLimitPolicyV2` of src/rust/src/rate_limit_v2.rs: the policy of an audit and the validator.
pub mod Posture
mod Soundness
mod Algorithms
mod Tests
use ores_middleware.Prelude.Bytes.{Bytes, codes, is_empty, is_ascii_alphanumeric}
use ores_middleware.Prelude.{
  ℕ, ◌*◌, Bool, true, false, not, ◌&&◌, ◌||◌, List, [], ◌∷◌, ◌++◌, Option, none, some, String, ◌==◌,
  ltb, leb, length, all, if◌then◌else◌,
}
use ores_middleware.Policy.Posture.{
  RateLimitConsistency, strict, bounded, advisory, RateLimitFailureMode, RateLimitLayer,
  application, OperationClass, health_read, public_read, auth_attempt, auth_recovery, mutation,
  payment_or_ledger_write, job_admission, rate_limit_posture, is_strict, fails_closed,
  is_authorization, is_edge,
}

abbrev pub max_capacity : ℕ
max_capacity = 1000000000

abbrev pub max_window_ms : ℕ
max_window_ms = 31 * 24 * 60 * 60 * 1000

abbrev pub max_local_deny_cache_entries : ℕ
max_local_deny_cache_entries = 10000

pub data RateLimitAlgorithmV2 : Type 0 where
  token_bucket sliding_window_counter fixed_window gcra concurrency : RateLimitAlgorithmV2

pub data RateLimitEnforcementMode : Type 0 where
  disabled audit enforce : RateLimitEnforcementMode

abbrev pub enforces : RateLimitEnforcementMode → Bool
enforces enforce = true
enforces _ = false

pub record RateLimitPolicyV2 : Type 0 where
  pub policy_id : Bytes
  pub operation_class : OperationClass
  pub algorithm : RateLimitAlgorithmV2
  pub consistency : RateLimitConsistency
  pub enforcement_mode : RateLimitEnforcementMode
  pub failure_mode : RateLimitFailureMode
  pub layer : RateLimitLayer
  pub capacity : ℕ
  pub window_ms : Option ℕ
  pub refill_tokens : Option ℕ
  pub refill_interval_ms : Option ℕ
  pub maximum_overshoot : ℕ
  pub local_deny_cache_entries : ℕ
  pub coordinator_required : Bool
  pub key_version : Bytes

pub record RateLimitPolicyViolation : Type 0 where
  pub code : String
  pub path : String
  pub message : String

-- `format!("{:?}-audit-v2", operation_class).to_ascii_lowercase()`
abbrev pub audit_id : OperationClass → Bytes
audit_id health_read = codes "healthread-audit-v2"
audit_id public_read = codes "publicread-audit-v2"
audit_id auth_attempt = codes "authattempt-audit-v2"
audit_id auth_recovery = codes "authrecovery-audit-v2"
audit_id mutation = codes "mutation-audit-v2"
audit_id payment_or_ledger_write = codes "paymentorledgerwrite-audit-v2"
audit_id job_admission = codes "jobadmission-audit-v2"

unfoldable pub audit_for : OperationClass → RateLimitPolicyV2
audit_for class =
    let needs_strict : Bool = is_strict (rate_limit_posture class).consistency in
    record {
      policy_id = audit_id class;
      operation_class = class;
      algorithm = if needs_strict then gcra else token_bucket;
      consistency = (rate_limit_posture class).consistency;
      enforcement_mode = audit;
      failure_mode = (rate_limit_posture class).failure_mode;
      layer = application;
      capacity = if needs_strict then 20 else 120;
      window_ms = if needs_strict then some 60000 else none;
      refill_tokens = if needs_strict then none else some 120;
      refill_interval_ms = if needs_strict then none else some 60000;
      maximum_overshoot = if needs_strict then 0 else 8;
      local_deny_cache_entries = max_local_deny_cache_entries;
      coordinator_required = (rate_limit_posture class).coordinator_required;
      key_version = codes "v1";
    }

unfoldable pub valid_identifier : Bytes → Bool
valid_identifier value =
    not (is_empty value)
    && leb (length value) 128
    && all (λ c. is_ascii_alphanumeric c || (c == b'-' || c == b'_' || c == b'.')) value

-- a violation that is pushed when the test holds
abbrev pub push_if : Bool → String → String → String → List RateLimitPolicyViolation
push_if b code path message =
    if b then record { code = code; path = path; message = message } ∷ [] else []

-- `is_some_and` of a value that is positive and at most the limit
abbrev pub is_positive_within : ℕ → Option ℕ → Bool
is_positive_within limit none = false
is_positive_within limit (some value) = ltb 0 value && leb value limit

abbrev pub is_present : Option ℕ → Bool
is_present none = false
is_present (some _) = true

unfoldable pub require_positive : Option ℕ → String → String → List RateLimitPolicyViolation
require_positive value path code =
    push_if (not (is_positive_within max_capacity value)) code path
      "field is required and must be a positive bounded integer"

unfoldable pub require_bounded_duration : Option ℕ → String → String → List RateLimitPolicyViolation
require_bounded_duration value path code =
    push_if (not (is_positive_within max_window_ms value)) code path
      "duration is required and must be between 1 millisecond and 31 days"

unfoldable pub forbid : Option ℕ → String → String → List RateLimitPolicyViolation
forbid value path code =
    push_if (is_present value) code path "field is not valid for the selected algorithm"

unfoldable pub window_violations : RateLimitPolicyV2 → List RateLimitPolicyViolation
unfolding require_bounded_duration forbid
window_violations p =
    require_bounded_duration p.window_ms "windowMs" "window-required"
    ++ forbid p.refill_tokens "refillTokens" "window-refill-tokens-forbidden"
    ++ forbid p.refill_interval_ms "refillIntervalMs" "window-refill-interval-forbidden"

unfoldable pub algorithm_violations : RateLimitPolicyV2 → List RateLimitPolicyViolation
unfolding require_positive require_bounded_duration forbid window_violations
algorithm_violations p = elim p.algorithm [
  | token_bucket ↦
      require_positive p.refill_tokens "refillTokens" "token-bucket-refill-tokens-required"
      ++ require_bounded_duration p.refill_interval_ms "refillIntervalMs"
          "token-bucket-refill-interval-required"
      ++ forbid p.window_ms "windowMs" "token-bucket-window-forbidden"
  | concurrency ↦
      forbid p.window_ms "windowMs" "concurrency-window-forbidden"
      ++ forbid p.refill_tokens "refillTokens" "concurrency-refill-tokens-forbidden"
      ++ forbid p.refill_interval_ms "refillIntervalMs" "concurrency-refill-interval-forbidden"
  | _ ↦ window_violations p
]

unfoldable pub consistency_violations : RateLimitPolicyV2 → List RateLimitPolicyViolation
consistency_violations p = elim p.consistency [
  | strict ↦
      push_if (not (fails_closed p.failure_mode)) "strict-must-fail-closed" "failureMode"
        "strict consistency requires fail-closed backend behavior"
      ++ push_if (not p.coordinator_required) "strict-requires-coordinator" "coordinatorRequired"
          "strict consistency requires one atomic coordinator"
      ++ push_if (not (p.maximum_overshoot == 0)) "strict-overshoot-must-be-zero" "maximumOvershoot"
          "strict consistency cannot declare local overshoot"
  | bounded ↦
      push_if (p.maximum_overshoot == 0) "bounded-overshoot-required" "maximumOvershoot"
        "bounded consistency requires an explicit positive overshoot bound"
      ++ push_if (p.local_deny_cache_entries == 0) "bounded-cache-required" "localDenyCacheEntries"
          "bounded consistency requires a finite local denial cache"
  | advisory ↦
      push_if p.coordinator_required "advisory-coordinator-forbidden" "coordinatorRequired"
        "advisory policy cannot claim an authoritative coordinator"
      ++ push_if (fails_closed p.failure_mode) "advisory-fail-closed-misleading" "failureMode"
          "advisory policy must not present backend failure as global denial"
]

unfoldable pub operation_violations : RateLimitPolicyV2 → List RateLimitPolicyViolation
operation_violations p =
    if is_strict (rate_limit_posture p.operation_class).consistency
    then push_if (not (is_strict p.consistency)) "operation-requires-strict-consistency"
        "consistency" "security-sensitive operation class requires strict consistency"
      ++ push_if (not (fails_closed p.failure_mode)) "operation-requires-fail-closed" "failureMode"
          "security-sensitive operation class requires fail-closed behavior"
      ++ push_if (not p.coordinator_required) "operation-requires-coordinator" "coordinatorRequired"
          "security-sensitive operation class requires an atomic coordinator"
    else []

unfoldable pub boundary_violations : RateLimitPolicyV2 → List RateLimitPolicyViolation
boundary_violations p =
    push_if
      (is_authorization p.layer
        && (not (is_strict p.consistency)
            || not (fails_closed p.failure_mode)
            || not p.coordinator_required))
      "authorization-boundary-must-be-strict" "layer"
      "authorization-layer limiting must be strict, coordinated, and fail closed"
    ++ push_if
        (is_edge p.layer
          && enforces p.enforcement_mode
          && not (rate_limit_posture p.operation_class).edge_may_deny)
        "edge-denial-forbidden-for-operation" "enforcementMode"
        "edge may observe this operation class but cannot own its denial decision"

unfoldable pub field_violations : RateLimitPolicyV2 → List RateLimitPolicyViolation
unfolding valid_identifier
field_violations p =
    push_if (not (valid_identifier p.policy_id)) "policy-id-invalid" "policyId"
      "policyId must be a non-empty ASCII token no longer than 128 bytes"
    ++ push_if (not (valid_identifier p.key_version)) "key-version-invalid" "keyVersion"
        "keyVersion must be a non-empty ASCII token no longer than 128 bytes"
    ++ push_if (p.capacity == 0 || ltb max_capacity p.capacity) "capacity-out-of-range" "capacity"
        "capacity must be between 1 and 1,000,000,000"
    ++ push_if (ltb max_local_deny_cache_entries p.local_deny_cache_entries) "local-cache-too-large"
        "localDenyCacheEntries" "local denial cache must not exceed 10,000 entries"

unfoldable pub validate : RateLimitPolicyV2 → List RateLimitPolicyViolation
unfolding field_violations algorithm_violations consistency_violations operation_violations
    boundary_violations
validate p =
    field_violations p
    ++ algorithm_violations p
    ++ consistency_violations p
    ++ operation_violations p
    ++ boundary_violations p

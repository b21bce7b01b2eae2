-- ===== src/Policy/Posture.antt =====
-- The rate limit posture of an operation class: `rate_limit_posture` of
-- src/rust/src/middleware_order.rs, with the enumerations of src/rust/src/rate_limit.rs.
use ores_middleware.Prelude.{Bool, true, false}

pub data RateLimitConsistency : Type 0 where
  strict bounded advisory : RateLimitConsistency

pub data RateLimitFailureMode : Type 0 where
  fail_open fail_closed local_only : RateLimitFailureMode

pub data RateLimitLayer : Type 0 where
  cloudflare_edge kubernetes_ingress service_mesh application authorization : RateLimitLayer

pub data OperationClass : Type 0 where
  health_read public_read auth_attempt auth_recovery mutation : OperationClass
  payment_or_ledger_write job_admission : OperationClass

pub record RateLimitPosture : Type 0 where
  pub consistency : RateLimitConsistency
  pub failure_mode : RateLimitFailureMode
  pub edge_may_deny : Bool
  pub coordinator_required : Bool

abbrev coordinated : RateLimitPosture
coordinated = record {
  consistency = strict;
  failure_mode = fail_closed;
  edge_may_deny = false;
  coordinator_required = true;
}

abbrev pub rate_limit_posture : OperationClass → RateLimitPosture
rate_limit_posture health_read = record {
  consistency = advisory;
  failure_mode = fail_open;
  edge_may_deny = false;
  coordinator_required = false;
}
rate_limit_posture public_read = record {
  consistency = bounded;
  failure_mode = local_only;
  edge_may_deny = true;
  coordinator_required = false;
}
rate_limit_posture auth_attempt = record coordinated { edge_may_deny = true }
rate_limit_posture auth_recovery = coordinated
rate_limit_posture mutation = coordinated
rate_limit_posture payment_or_ledger_write = coordinated
rate_limit_posture job_admission = coordinated

-- `==` with one member of an enumeration
abbrev pub is_strict : RateLimitConsistency → Bool
is_strict strict = true
is_strict _ = false

abbrev pub fails_closed : RateLimitFailureMode → Bool
fails_closed fail_closed = true
fails_closed _ = false

abbrev pub is_authorization : RateLimitLayer → Bool
is_authorization authorization = true
is_authorization _ = false

abbrev pub is_edge : RateLimitLayer → Bool
is_edge cloudflare_edge = true
is_edge _ = false

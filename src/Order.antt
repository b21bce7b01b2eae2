-- ===== src/Order.antt =====
-- The reviewed middleware profiles of src/rust/src/middleware_order.rs: the stages, the two
-- orders, the rules between stages, and the two validators.
pub mod Stages
mod Chain
mod Reports
mod Profiles
mod Tests
use mathlib.Core.List.{filter_map}
use ores_middleware.Prelude.{
  ℕ, suc, Bool, true, false, not, ◌||◌, List, [], ◌∷◌, ◌++◌, Option, none, some, String, ltb,
  if◌then◌else◌,
}
use ores_middleware.Order.Stages.{
  MiddlewareStage, panic_boundary, deadline, request_id, trace_context, trusted_proxy,
  transport_security, payload_limit, anonymous_flood_guard, authentication, principal_rate_limit,
  authorization, idempotency, quota_admission, handler, response_compression, security_headers,
  telemetry_finalize, same_stage,
}

abbrev pub default_middleware_order : List MiddlewareStage
default_middleware_order =
    panic_boundary ∷ deadline ∷ request_id ∷ trace_context ∷ trusted_proxy ∷ transport_security
    ∷ payload_limit ∷ anonymous_flood_guard ∷ authentication ∷ principal_rate_limit ∷ authorization
    ∷ idempotency ∷ handler ∷ response_compression ∷ security_headers ∷ telemetry_finalize ∷ []

abbrev pub billable_quota_middleware_order : List MiddlewareStage
billable_quota_middleware_order =
    panic_boundary ∷ deadline ∷ request_id ∷ trace_context ∷ trusted_proxy ∷ transport_security
    ∷ payload_limit ∷ anonymous_flood_guard ∷ authentication ∷ principal_rate_limit ∷ authorization
    ∷ idempotency ∷ quota_admission ∷ handler ∷ response_compression ∷ security_headers
    ∷ telemetry_finalize ∷ []

pub record OrderViolation : Type 0 where
  pub code : String
  pub message : String

pub record OrderRule : Type 0 where
  pub first : MiddlewareStage
  pub second : MiddlewareStage
  pub code : String

abbrev pub order_rules : List OrderRule
order_rules =
    record { first = request_id; second = trace_context; code = "request-id-before-trace" }
    ∷ record { first = trace_context; second = trusted_proxy; code = "trace-before-proxy-policy" }
    ∷ record {
      first = trusted_proxy;
      second = transport_security;
      code = "proxy-before-transport-policy";
    }
    ∷ record {
      first = trusted_proxy;
      second = anonymous_flood_guard;
      code = "trusted-proxy-before-anonymous-identity";
    }
    ∷ record {
      first = payload_limit;
      second = authentication;
      code = "payload-limit-before-authentication";
    }
    ∷ record {
      first = anonymous_flood_guard;
      second = authentication;
      code = "anonymous-guard-before-authentication";
    }
    ∷ record {
      first = authentication;
      second = principal_rate_limit;
      code = "authentication-before-principal-rate-limit";
    }
    ∷ record {
      first = principal_rate_limit;
      second = authorization;
      code = "principal-rate-limit-before-authorization";
    }
    ∷ record { first = authorization; second = handler; code = "authorization-before-handler" }
    ∷ record {
      first = handler;
      second = response_compression;
      code = "handler-before-response-compression";
    }
    ∷ record {
      first = security_headers;
      second = telemetry_finalize;
      code = "security-headers-before-telemetry-finalize";
    }
    ∷ []

abbrev pub quota_order_rules : List OrderRule
quota_order_rules =
    record {
      first = authorization;
      second = idempotency;
      code = "authorization-before-idempotency";
    }
    ∷ record {
      first = idempotency;
      second = quota_admission;
      code = "idempotency-before-quota-admission";
    }
    ∷ record { first = quota_admission; second = handler; code = "quota-admission-before-handler" }
    ∷ []

-- `contains` of a slice
unfoldable pub contains : MiddlewareStage → List MiddlewareStage → Bool
unfolding same_stage
contains s [] = false
contains s (x ∷ xs) = same_stage x s || contains s xs

-- `iter().position(|stage| *stage == s)`
unfoldable pub position : MiddlewareStage → List MiddlewareStage → Option ℕ
unfolding same_stage
position s [] = none
position s (x ∷ xs) =
    let rest = position s xs in
    if same_stage x s then some 0 else elim rest [ none ↦ none | some i ↦ some (suc i) ]

unfoldable pub precedes : List MiddlewareStage → MiddlewareStage → MiddlewareStage → Bool
unfolding position
precedes stages first second = elim (position first stages) [
  | none ↦ false
  | some left ↦ elim (position second stages) [ none ↦ false | some right ↦ ltb left right ]
]

unfoldable pub require_before :
    List MiddlewareStage → MiddlewareStage → MiddlewareStage → String → Option OrderViolation
unfolding precedes
require_before stages first second code =
    if precedes stages first second
    then none
    else some
        (record { code = code; message = "required middleware stages are missing or out of order" })

-- whether `first()` of the slice is `Some(expected)`
abbrev pub is_first : List MiddlewareStage → MiddlewareStage → Bool
is_first [] expected = false
is_first (x ∷ xs) expected = same_stage x expected

-- the violation as a list, as `into_iter` of the `Option` gives it
unfoldable pub require_first : List MiddlewareStage → MiddlewareStage → String → List OrderViolation
unfolding same_stage
require_first stages expected code =
    if is_first stages expected
    then []
    else record {
      code = code;
      message = "the outer panic boundary must observe every downstream failure";
    }
      ∷ []

-- the loop of `duplicates`; `before` is `stages[..index]`
unfoldable pub duplicates_from : List MiddlewareStage → List MiddlewareStage → List OrderViolation
unfolding contains
duplicates_from before [] = []
duplicates_from before (s ∷ stages) =
    let rest = duplicates_from (before ++ s ∷ []) stages in
    if contains s before
    then record { code = "duplicate-stage"; message = "middleware stages must occur exactly once" }
      ∷ rest
    else rest

unfoldable pub missing : String → List MiddlewareStage → List MiddlewareStage → List OrderViolation
unfolding contains
missing message stages [] = []
missing message stages (expected ∷ order) =
    let rest = missing message stages order in
    if contains expected stages
    then rest
    else record { code = "missing-stage"; message = message } ∷ rest

unfoldable pub declared_rules : List MiddlewareStage → List OrderRule → List OrderViolation
unfolding require_before filter_map
declared_rules stages = filter_map (λ rule. require_before stages rule.first rule.second rule.code)

-- `windows(2)`
abbrev pub windows : List MiddlewareStage → List (MiddlewareStage × MiddlewareStage)
windows (x ∷ y ∷ xs) = (x, y) ∷ windows (y ∷ xs)
windows _ = []

unfoldable pub reviewed_order : List MiddlewareStage → List MiddlewareStage → List OrderViolation
unfolding require_before filter_map
reviewed_order stages order =
    filter_map (λ pair. require_before stages pair.0 pair.1 "reviewed-stage-order") (windows order)

unfoldable pub validate_middleware_order : List MiddlewareStage → List OrderViolation
unfolding duplicates_from missing require_first declared_rules reviewed_order
validate_middleware_order stages =
    duplicates_from [] stages
    ++ missing "every reviewed middleware stage must be present exactly once" stages
        default_middleware_order
    ++ require_first stages panic_boundary "panic-boundary-must-be-first"
    ++ declared_rules stages order_rules
    ++ reviewed_order stages default_middleware_order

unfoldable pub validate_billable_quota_middleware_order : List MiddlewareStage → List OrderViolation
unfolding duplicates_from missing require_first declared_rules reviewed_order
validate_billable_quota_middleware_order stages =
    duplicates_from [] stages
    ++ missing "every reviewed billable-quota middleware stage must be present exactly once" stages
        billable_quota_middleware_order
    ++ require_first stages panic_boundary "panic-boundary-must-be-first"
    ++ declared_rules stages order_rules
    ++ declared_rules stages quota_order_rules
    ++ reviewed_order stages billable_quota_middleware_order

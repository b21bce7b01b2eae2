-- ===== src/Order/Tests.antt =====
-- The validators of src/rust/src/middleware_order.rs at the reviewed orders.
use ores_middleware.Prelude.{◌≡◌, ◌↔◌, refl, ◌++◌, [], ◌∷◌}
use ores_middleware.Order.Stages.{quota_admission}
use ores_middleware.Order.{
  default_middleware_order, billable_quota_middleware_order, validate_middleware_order,
  validate_billable_quota_middleware_order,
}
use ores_middleware.Order.Profiles.{validate_billable_quota_middleware_order_iff}

validate_billable_quota_middleware_order_iff_example :
    (validate_billable_quota_middleware_order default_middleware_order ≡ [])
    ↔ (default_middleware_order ≡ billable_quota_middleware_order)
validate_billable_quota_middleware_order_iff_example =
    validate_billable_quota_middleware_order_iff default_middleware_order

-- a quota admission after the handler and the response stages is not seen by the compatibility
-- validator
late_quota_accepted :
    validate_middleware_order (default_middleware_order ++ quota_admission ∷ []) ≡ []
unfolding validate_middleware_order
late_quota_accepted = refl

-- ===== src/Order/Profiles.antt =====
-- What the two validators of src/rust/src/middleware_order.rs accept.
use mathlib.Core.Path.{subst}
use ores_middleware.Prelude.{
  append-eq_nil, ◌≡◌, ◌↔◌, refl, sym, true, false, List, [], ◌∷◌, ◌++◌, String, All,
}
use ores_middleware.Order.Stages.{
  MiddlewareStage, panic_boundary, deadline, request_id, trace_context, trusted_proxy,
  transport_security, payload_limit, anonymous_flood_guard, authentication, principal_rate_limit,
  authorization, idempotency, quota_admission, handler, response_compression, security_headers,
  telemetry_finalize, same_stage,
}
use ores_middleware.Order.Chain.{IsUnique, chain}
use ores_middleware.Order.{
  default_middleware_order, billable_quota_middleware_order, order_rules, quota_order_rules,
  contains, require_first, duplicates_from, missing, declared_rules, reviewed_order,
  validate_middleware_order, validate_billable_quota_middleware_order,
}
use ores_middleware.Order.Reports.{
  All-map, duplicates_from-IsUnique, absent-All, missing-All, reviewed_order-precedes,
}

in_billable : (s : MiddlewareStage) → contains s billable_quota_middleware_order ≡ true
unfolding contains
in_billable panic_boundary = refl
in_billable deadline = refl
in_billable request_id = refl
in_billable trace_context = refl
in_billable trusted_proxy = refl
in_billable transport_security = refl
in_billable payload_limit = refl
in_billable anonymous_flood_guard = refl
in_billable authentication = refl
in_billable principal_rate_limit = refl
in_billable authorization = refl
in_billable idempotency = refl
in_billable quota_admission = refl
in_billable handler = refl
in_billable response_compression = refl
in_billable security_headers = refl
in_billable telemetry_finalize = refl

in_default :
    (s : MiddlewareStage)
    → same_stage s quota_admission ≡ false
    → contains s default_middleware_order ≡ true
unfolding contains same_stage
in_default panic_boundary n = refl
in_default deadline n = refl
in_default request_id n = refl
in_default trace_context n = refl
in_default trusted_proxy n = refl
in_default transport_security n = refl
in_default payload_limit n = refl
in_default anonymous_flood_guard n = refl
in_default authentication n = refl
in_default principal_rate_limit n = refl
in_default authorization n = refl
in_default idempotency n = refl
in_default quota_admission n = absurd (cc n)
in_default handler n = refl
in_default response_compression n = refl
in_default security_headers n = refl
in_default telemetry_finalize n = refl

All-total :
    (P : MiddlewareStage → Type 0) (xs : List MiddlewareStage)
    → ((s : MiddlewareStage) → P s)
    → All P xs
All-total P [] f = tt
All-total P (x ∷ xs) f = (f x, All-total P xs f)

default-IsUnique : IsUnique default_middleware_order
unfolding duplicates_from
default-IsUnique = (duplicates_from-IsUnique [] default_middleware_order refl).1

billable-IsUnique : IsUnique billable_quota_middleware_order
unfolding duplicates_from
billable-IsUnique = (duplicates_from-IsUnique [] billable_quota_middleware_order refl).1

-- the parts of a report without violations that force the order
parts_nil :
    {A : Type 0} (dup mis first rules order : List A)
    → dup ++ mis ++ first ++ rules ++ order ≡ []
    → (dup ≡ []) × (mis ≡ []) × (order ≡ [])
parts_nil dup mis first rules order h =
    let (h1, o) = append-eq_nil (dup ++ mis ++ first ++ rules) order h in
    let (h2, _) = append-eq_nil (dup ++ mis ++ first) rules h1 in
    let (h3, _) = append-eq_nil (dup ++ mis) first h2 in
    let (d, m) = append-eq_nil dup mis h3 in (d, m, o)

forced :
    (message : String) (stages order : List MiddlewareStage)
    → IsUnique order
    → All (λ s. contains s order ≡ true) stages
    → (duplicates_from [] stages ≡ [])
      × (missing message stages order ≡ [])
      × (reviewed_order stages order ≡ [])
    → stages ≡ order
forced message stages order unique members (dup, mis, before) =
    chain order stages unique (duplicates_from-IsUnique [] stages dup).1 members
      (missing-All message stages order mis) (reviewed_order-precedes stages order before)

-- The billable profile is complete: its validator accepts the reviewed order of the seventeen
-- stages and nothing else.
pub validate_billable_quota_middleware_order_iff :
    (stages : List MiddlewareStage)
    → (validate_billable_quota_middleware_order stages ≡ [])
      ↔ (stages ≡ billable_quota_middleware_order)
unfolding validate_billable_quota_middleware_order
validate_billable_quota_middleware_order_iff stages = (
  λ h.
      forced _ stages billable_quota_middleware_order billable-IsUnique
        (All-total _ stages in_billable)
        (let (rules, o) =
            append-eq_nil _ (reviewed_order stages billable_quota_middleware_order) h in
          let (d, m, _) =
            parts_nil (duplicates_from [] stages)
              (missing "every reviewed billable-quota middleware stage must be present exactly once"
                stages billable_quota_middleware_order)
              (require_first stages panic_boundary "panic-boundary-must-be-first")
              (declared_rules stages order_rules) (declared_rules stages quota_order_rules) rules in
          (d, m, o)),
  λ e. subst (λ l. validate_billable_quota_middleware_order l ≡ []) (sym e) refl,
)

-- On lists without quota admission the compatibility profile is complete in the same way: its
-- validator accepts the reviewed order of the sixteen stages and nothing else.
pub validate_middleware_order_iff :
    (stages : List MiddlewareStage)
    → contains quota_admission stages ≡ false
    → (validate_middleware_order stages ≡ []) ↔ (stages ≡ default_middleware_order)
unfolding validate_middleware_order
validate_middleware_order_iff stages without = (
  λ h.
      forced _ stages default_middleware_order default-IsUnique
        (All-map stages in_default (absent-All quota_admission stages without))
        (parts_nil (duplicates_from [] stages)
          (missing "every reviewed middleware stage must be present exactly once" stages
            default_middleware_order)
          (require_first stages panic_boundary "panic-boundary-must-be-first")
          (declared_rules stages order_rules) (reviewed_order stages default_middleware_order) h),
  λ e. subst (λ l. validate_middleware_order l ≡ []) (sym e) refl,
)

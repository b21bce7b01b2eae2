-- ===== src/Composition/Tests.antt =====
-- Runs of src/rust/src/composition.rs, and the theorems at concrete inputs. Texts are shown as they are,
-- and lists of texts one after the other.
use ores_middleware.Prelude.Bytes.{Bytes, Bytes-discrete, codes, one_of}
use ores_middleware.Prelude.Text.{trim}
use ores_middleware.Routes.Validation.{sort, lists_eq}
use ores_middleware.Composition.Shape.{valid_order_rule, is_blank}
use ores_middleware.Prelude.{
  ◌≡◌, ◌↔◌, refl, List, [], ◌∷◌, ◌++◌, Option, none, some, ℕ_discrete, map,
}
use ores_middleware.Composition.{
  MiddlewareOrderPolicy, MiddlewareCompositionPlan, MiddlewareOrderIssue, rule_before, new_policy,
  require, forbid, only_once, require_first, with_rule, new_plan, with_stage, with_policy,
}
use ores_middleware.Composition.Cycle.{active_order_cycle_issue}
use ores_middleware.Composition.Validation.{
  validate_consumer_middleware_order, validate_declared_middleware_plan,
  validate_runtime_middleware_plan,
}
use ores_middleware.Composition.Sound.{HasOrder, active_order_cycle_issue_lem}
use ores_middleware.Composition.WellFormed.{IsWellFormed}
use ores_middleware.Composition.Valid.{IsFollowed, validate_consumer_middleware_order_iff}
use ores_middleware.Composition.Plans.{validate_runtime-declared}

abbrev shown : List Bytes → Bytes
shown [] = []
shown (x ∷ xs) = x ++ shown xs

abbrev plain : Bytes → Bytes
plain text = text

-- a < b and b < a
abbrev both_ways : MiddlewareOrderPolicy
both_ways =
    with_rule (rule_before (codes "b") (codes "a") (codes "ba") (codes "b first"))
      (with_rule (rule_before (codes "a") (codes "b") (codes "ab") (codes "a first")) new_policy)

-- authentication before the limit, which stands once
abbrev limited : MiddlewareOrderPolicy
limited =
    with_rule
      (rule_before (codes "auth") (codes "limit") (codes "auth-first") (codes "who is limited"))
      (only_once (codes "limit") (require (codes "auth") new_policy))

abbrev in_order : List Bytes
in_order = codes "id" ∷ codes "auth" ∷ codes "auth" ∷ codes "limit" ∷ []

abbrev plan : MiddlewareCompositionPlan
plan = with_policy limited (with_stage (codes "limit") (with_stage (codes "auth") new_plan))

abbrev codes_of : Option (List MiddlewareOrderIssue) → Option (List Bytes)
codes_of none = none
codes_of (some issues) = some (map (λ issue. issue.code) issues)

-- a cycle is reported beside the rule that the order breaks
cycle_found :
    codes_of (validate_consumer_middleware_order plain shown (codes "a" ∷ codes "b" ∷ []) both_ways)
    ≡ some (codes "ba" ∷ codes "consumer-order-cycle" ∷ [])
unfolding validate_consumer_middleware_order Bytes-discrete ℕ_discrete valid_order_rule is_blank
    trim one_of sort lists_eq
cycle_found = refl

-- rules on stages that are not there are not active
cycle_inactive :
    codes_of (validate_consumer_middleware_order plain shown (codes "a" ∷ []) both_ways) ≡ some []
unfolding validate_consumer_middleware_order Bytes-discrete ℕ_discrete valid_order_rule is_blank
    trim one_of sort lists_eq
cycle_inactive = refl

limited_interleaved :
    codes_of (
      validate_consumer_middleware_order plain shown
        (codes "auth" ∷ codes "limit" ∷ codes "auth" ∷ codes "limit" ∷ [])
        limited)
    ≡ some (codes "consumer-unique-stage-duplicated" ∷ codes "auth-first" ∷ [])
unfolding validate_consumer_middleware_order Bytes-discrete ℕ_discrete valid_order_rule is_blank
    trim one_of sort lists_eq
limited_interleaved = refl

limited-in_order :
    codes_of (validate_consumer_middleware_order plain shown in_order limited) ≡ some []
unfolding validate_consumer_middleware_order Bytes-discrete ℕ_discrete valid_order_rule is_blank
    trim one_of sort lists_eq
limited-in_order = refl

contradiction_found :
    codes_of (
      validate_consumer_middleware_order plain shown
        (codes "x" ∷ [])
        (require_first (codes "x") (forbid (codes "x") new_policy)))
    ≡ some (codes "contradictory-stage-policy" ∷ codes "forbidden-stage-present" ∷ [])
unfolding validate_consumer_middleware_order Bytes-discrete ℕ_discrete valid_order_rule is_blank
    trim one_of sort lists_eq
contradiction_found = refl

drift_found :
    codes_of (validate_runtime_middleware_plan plain shown (codes "limit" ∷ codes "auth" ∷ []) plan)
    ≡ some (codes "auth-first" ∷ codes "runtime-stage-plan-mismatch" ∷ [])
unfolding validate_runtime_middleware_plan Bytes-discrete ℕ_discrete valid_order_rule is_blank trim
    one_of sort lists_eq
drift_found = refl

active_order_cycle_issue_lem_example :
    (report : Option MiddlewareOrderIssue) × (active_order_cycle_issue shown in_order limited
      ≡ some report)
    × ((report ≡ none) ↔ HasOrder in_order limited)
active_order_cycle_issue_lem_example = active_order_cycle_issue_lem shown in_order limited

validate_consumer_middleware_order_iff_example :
    (issues : List MiddlewareOrderIssue) × (validate_consumer_middleware_order plain shown in_order
        limited
      ≡ some issues)
    × ((issues ≡ []) ↔ (IsWellFormed limited × IsFollowed limited in_order))
validate_consumer_middleware_order_iff_example =
    validate_consumer_middleware_order_iff plain shown in_order limited

validate_runtime-declared_example :
    (validate_runtime_middleware_plan plain shown (codes "auth" ∷ codes "limit" ∷ []) plan
      ≡ some [])
    ↔ ((validate_declared_middleware_plan plain shown plan ≡ some [])
        × (codes "auth" ∷ codes "limit" ∷ [] ≡ plan.stages))
validate_runtime-declared_example =
    validate_runtime-declared plain shown (codes "auth" ∷ codes "limit" ∷ []) plan

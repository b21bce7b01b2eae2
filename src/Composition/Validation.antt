-- ===== src/Composition/Validation.antt =====
-- The validation of src/rust/src/composition.rs: of a sequence of stages against a policy, and of a
-- declared and a running plan. `none` stands for a run that the cycle check does not bring to an end.
use mathlib.Core.Option
use ores_middleware.Prelude.Bytes.{Bytes, codes, bytes_eq, one_of}
use ores_middleware.Prelude.{
  ℕ, ◌+◌, Bool, false, not, List, [], ◌∷◌, ◌++◌, Option, none, some, ltb, length, if◌then◌else◌,
}
use ores_middleware.Routes.Validation.{lists_eq}
use ores_middleware.Composition.{
  MiddlewareOrderingRule, MiddlewareOrderPolicy, MiddlewareOrderIssue, MiddlewareCompositionPlan,
  error,
}
use ores_middleware.Composition.Shape.{
  is_blank, named, valid_order_rule, issues_of, keep_if, of_option, validate_policy_shape,
}
use ores_middleware.Composition.Cycle.{entries, push_entry, active_order_cycle_issue}

-- the fold over the names with their indexes
unfoldable pub positions_from : ℕ → List Bytes → List (Bytes × List ℕ) → List (Bytes × List ℕ)
unfolding push_entry
positions_from index [] m = m
positions_from index (name ∷ names) m = positions_from (index + 1) names (push_entry name index m)

-- `first` and `last` of a slice
unfoldable pub first_of : {A : Type 0} → List A → Option A
first_of [] = none
first_of (x ∷ xs) = some x

unfoldable pub last_of : {A : Type 0} → List A → Option A
last_of [] = none
last_of (x ∷ []) = some x
last_of (x ∷ y ∷ xs) = last_of (y ∷ xs)

unfoldable pub starts_at : List Bytes → Bytes → Bool
unfolding bytes_eq
starts_at [] stage = false
starts_at (name ∷ _) stage = bytes_eq name stage

abbrev pub rule_issue : MiddlewareOrderingRule → MiddlewareOrderIssue
rule_issue rule = record {
  code = rule.code;
  message = rule.message;
  severity = rule.severity;
  stage = none;
}

-- whether two positions violate a rule
unfoldable pub breaks : Bool → Option ℕ → Option ℕ → Bool
breaks require_both (some left) (some right) = not (ltb left right)
breaks require_both (some left) none = require_both
breaks require_both none right = require_both

unfoldable pub rule_breaks : List (Bytes × List ℕ) → MiddlewareOrderingRule → Bool
unfolding entries first_of last_of breaks
rule_breaks positions rule =
    breaks rule.require_both (last_of (entries rule.before positions))
      (first_of (entries rule.after positions))

module _ (debug_name : Bytes → Bytes) (debug_names : List Bytes → Bytes) where
  abbrev pub missing_issue : Bytes → MiddlewareOrderIssue
  missing_issue stage = record {
    code = codes "required-stage-missing";
    message = codes "consumer policy requires middleware stage " ++ debug_name stage;
    severity = error;
    stage = some stage;
  }

  abbrev pub forbidden_issue : Bytes → MiddlewareOrderIssue
  forbidden_issue stage = record {
    code = codes "forbidden-stage-present";
    message = codes "consumer policy forbids middleware stage " ++ debug_name stage;
    severity = error;
    stage = some stage;
  }

  abbrev pub duplicated_issue : Bytes → MiddlewareOrderIssue
  duplicated_issue stage = record {
    code = codes "consumer-unique-stage-duplicated";
    message =
        codes "consumer policy requires stage "
        ++ debug_name stage
        ++ codes " to occur at most once";
    severity = error;
    stage = some stage;
  }

  abbrev pub first_issue : Bytes → MiddlewareOrderIssue
  first_issue stage = record {
    code = codes "consumer-first-stage-mismatch";
    message =
        codes "consumer policy requires " ++ debug_name stage ++ codes " to be the first stage";
    severity = error;
    stage = some stage;
  }

  -- the issues that stand before that of a cycle
  unfoldable pub direct_issues : List Bytes → MiddlewareOrderPolicy → List MiddlewareOrderIssue
  unfolding positions_from validate_policy_shape issues_of keep_if of_option starts_at rule_breaks
  direct_issues names policy =
      let positions = positions_from 0 names [] in
      validate_policy_shape debug_name policy
      ++ issues_of (λ stage. not (one_of stage names)) missing_issue (keep_if named policy.required)
      ++ issues_of (λ stage. one_of stage names) forbidden_issue (keep_if named policy.forbidden)
      ++ issues_of (λ stage. ltb 1 (length (entries stage positions))) duplicated_issue
          (keep_if named policy.unique)
      ++ issues_of (λ stage. not (starts_at names stage)) first_issue
          (keep_if named (of_option policy.first))
      ++ issues_of (rule_breaks positions) rule_issue (keep_if valid_order_rule policy.rules)

  abbrev pub with_cycle :
      List MiddlewareOrderIssue → Option MiddlewareOrderIssue → List MiddlewareOrderIssue
  with_cycle issues none = issues
  with_cycle issues (some issue) = issues ++ issue ∷ []

  unfoldable pub validate_consumer_middleware_order :
      List Bytes → MiddlewareOrderPolicy → Option (List MiddlewareOrderIssue)
  unfolding direct_issues active_order_cycle_issue
  validate_consumer_middleware_order names policy =
      Option.map (with_cycle (direct_issues names policy))
        (active_order_cycle_issue debug_names names policy)

  abbrev pub blank_stage_issue : Bytes → MiddlewareOrderIssue
  blank_stage_issue stage = record {
    code = codes "blank-stage-name";
    message = codes "middleware stage names must not be blank";
    severity = error;
    stage = some stage;
  }

  unfoldable pub validate_plan_shape : MiddlewareCompositionPlan → List MiddlewareOrderIssue
  unfolding issues_of
  validate_plan_shape plan = issues_of is_blank blank_stage_issue plan.stages

  unfoldable pub validate_declared_middleware_plan :
      MiddlewareCompositionPlan → Option (List MiddlewareOrderIssue)
  unfolding validate_plan_shape validate_consumer_middleware_order
  validate_declared_middleware_plan plan =
      Option.map (λ issues. validate_plan_shape plan ++ issues)
        (validate_consumer_middleware_order plan.stages plan.policy)

  abbrev pub drift_issue : List Bytes → List Bytes → MiddlewareOrderIssue
  drift_issue actual declared = record {
    code = codes "runtime-stage-plan-mismatch";
    message =
        codes "runtime middleware stages "
        ++ debug_names actual
        ++ codes " do not match declared stages "
        ++ debug_names declared;
    severity = error;
    stage = none;
  }

  unfoldable pub drift : List Bytes → List Bytes → List MiddlewareOrderIssue
  unfolding lists_eq
  drift actual declared = if lists_eq actual declared then [] else drift_issue actual declared ∷ []

  unfoldable pub validate_runtime_middleware_plan :
      List Bytes → MiddlewareCompositionPlan → Option (List MiddlewareOrderIssue)
  unfolding validate_plan_shape validate_consumer_middleware_order drift
  validate_runtime_middleware_plan actual plan =
      Option.map (λ issues. validate_plan_shape plan ++ issues ++ drift actual plan.stages)
        (validate_consumer_middleware_order actual plan.policy)

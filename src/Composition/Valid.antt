-- ===== src/Composition/Valid.antt =====
-- When the validation of src/rust/src/composition.rs finds nothing: of a sequence, of a declared plan and
-- of a running one.
use ores_middleware.Prelude.Bytes.{Bytes, bytes_eq, bytes_eq_iff, one_of}
use ores_middleware.Prelude.Maps.{lookup}
use ores_middleware.Prelude.{
  ◌≤◌, ◌≡◌, ◌≢◌, ◌↔◌, refl, sym, ap, ◌∙◌, inl, inr, Bool, true, false, not, ◌&&◌, List, [], ◌∷◌,
  ◌++◌, Option, none, some, ltb, length, All, append-eq_nil, six_nil, arith, Bool-cases, All-iff,
  All-map, not-false_iff,
}
use ores_middleware.Composition.{
  MiddlewareOrderingRule, MiddlewareOrderPolicy, MiddlewareOrderIssue,
}
use ores_middleware.Composition.Shape.{
  valid_order_rule, issues_of, of_option, validate_policy_shape,
}
use ores_middleware.Composition.Cycle.{entries}
use ores_middleware.Composition.Validation.{
  positions_from, starts_at, rule_breaks, missing_issue, forbidden_issue, duplicated_issue,
  first_issue, rule_issue, direct_issues, with_cycle, validate_consumer_middleware_order,
}
use ores_middleware.Composition.Kahn.{count}
use ores_middleware.Composition.Positions.{entries-positions_from, length-places}
use ores_middleware.Composition.Filters.{issues_of_iff, keep_if-All}
use ores_middleware.Composition.Cut.{Holds, rule_breaks_iff, index_of, index_of-lt}
use ores_middleware.Composition.WellFormed.{keep_if-named, IsWellFormed, validate_policy_shape_iff}
use ores_middleware.Composition.Sound.{Follows, HasOrder, active_order_cycle_issue_lem}

-- What a policy asks of a sequence of stages.
pub record IsFollowed (policy : MiddlewareOrderPolicy) (names : List Bytes) : Type 0 where
  pub required : All (λ stage. one_of stage names ≡ true) policy.required
  pub forbidden : All (λ stage. one_of stage names ≡ false) policy.forbidden
  pub unique : All (λ stage. count stage names ≤ 1) policy.unique
  pub first : All (λ stage. starts_at names stage ≡ true) (of_option policy.first)
  pub rules : All (Holds names) policy.rules

valid_order_rule-ne :
    (rule : MiddlewareOrderingRule) → valid_order_rule rule ≡ true → rule.before ≢ rule.after
unfolding valid_order_rule
valid_order_rule-ne rule h e =
    let same : bytes_eq rule.before rule.after ≡ true = (bytes_eq_iff rule.before rule.after).1 e in
    ground (arith, h, same)

-- the test of a unique stage
unique_iff :
    (names : List Bytes) (stage : Bytes)
    → (ltb 1 (length (entries stage (positions_from 0 names []))) ≡ false) ↔ (count stage names ≤ 1)
unique_iff names stage =
    let size : length (entries stage (positions_from 0 names [])) ≡ count stage names =
      ap length (entries-positions_from 0 stage names [])
      ∙ unfold entries lookup in length-places 0 stage names in
    rw size (λ e. ground (arith, e), λ le. ground (arith, le))

rules_iff :
    (names : List Bytes) (rules : List MiddlewareOrderingRule)
    → All (λ rule. valid_order_rule rule ≡ true) rules
    → All (λ rule. rule_breaks (positions_from 0 names []) rule ≡ false) rules
      ↔ All (Holds names) rules
rules_iff names [] v = (λ a. tt, λ a. tt)
rules_iff names (rule ∷ rules) (v, vs) =
    let one = rule_breaks_iff names rule (valid_order_rule-ne rule v) in
    let rest = rules_iff names rules vs in
    (λ a. (one.0 a.0, rest.0 a.1), λ a. (one.1 a.0, rest.1 a.1))

inactive : (v b a : Bool) → b ≡ false → v && (b && a) ≡ false
inactive v b a h = ground (arith, h)

-- Rules that hold number the stages by their first occurrences.
Holds-Follows :
    (names : List Bytes) (rule : MiddlewareOrderingRule)
    → Holds names rule
    → Follows (λ stage. index_of stage names) names rule
Holds-Follows names rule h = elim (Bool-cases (one_of rule.before names)) [
  | inl at ↦ inr (index_of-lt rule.before rule.after names h.0 at)
  | inr out ↦
      inl
        (inactive (valid_order_rule rule) (one_of rule.before names) (one_of rule.after names) out)
]

IsFollowed-HasOrder :
    (names : List Bytes) (policy : MiddlewareOrderPolicy)
    → IsFollowed policy names
    → HasOrder names policy
IsFollowed-HasOrder names policy f = (
  λ stage. index_of stage names,
  All-map (Holds names) (Follows (λ stage. index_of stage names) names) (Holds-Follows names)
      policy.rules f.rules,
)

head_nil {ℓ} : {A : Type ℓ} (a b c d e f : List A) → a ++ b ++ c ++ d ++ e ++ f ≡ [] → a ≡ []
head_nil a b c d e f h = let parts = (six_nil a b c d e f).0 h in parts.0

module _ (debug_name : Bytes → Bytes) (debug_names : List Bytes → Bytes) where
  -- the issues of a well formed policy, with no entry filtered out
  abbrev plain_issues : List Bytes → MiddlewareOrderPolicy → List MiddlewareOrderIssue
  plain_issues names policy =
      let positions = positions_from 0 names [] in
      validate_policy_shape debug_name policy
      ++ issues_of (λ stage. not (one_of stage names)) (missing_issue debug_name debug_names)
          policy.required
      ++ issues_of (λ stage. one_of stage names) (forbidden_issue debug_name debug_names)
          policy.forbidden
      ++ issues_of (λ stage. ltb 1 (length (entries stage positions)))
          (duplicated_issue debug_name debug_names) policy.unique
      ++ issues_of (λ stage. not (starts_at names stage)) (first_issue debug_name debug_names)
          (of_option policy.first)
      ++ issues_of (rule_breaks positions) rule_issue policy.rules

  direct-plain :
      (names : List Bytes) (policy : MiddlewareOrderPolicy)
      → IsWellFormed policy
      → direct_issues debug_name debug_names names policy ≡ plain_issues names policy
  unfolding direct_issues
  direct-plain names policy w = λ i.
      validate_policy_shape debug_name policy
      ++ issues_of (λ stage. not (one_of stage names)) (missing_issue debug_name debug_names)
          (keep_if-named policy.required w.required i)
      ++ issues_of (λ stage. one_of stage names) (forbidden_issue debug_name debug_names)
          (keep_if-named policy.forbidden w.forbidden i)
      ++ issues_of (λ stage. ltb 1 (length (entries stage (positions_from 0 names []))))
          (duplicated_issue debug_name debug_names) (keep_if-named policy.unique w.unique i)
      ++ issues_of (λ stage. not (starts_at names stage)) (first_issue debug_name debug_names)
          (keep_if-named (of_option policy.first) w.first i)
      ++ issues_of (rule_breaks (positions_from 0 names [])) rule_issue
          (keep_if-All valid_order_rule policy.rules w.rules i)

  direct_iff :
      (names : List Bytes) (policy : MiddlewareOrderPolicy)
      → IsWellFormed policy
      → (direct_issues debug_name debug_names names policy ≡ []) ↔ IsFollowed policy names
  direct_iff names policy w =
      let positions = positions_from 0 names [] in
      let shape = (validate_policy_shape_iff debug_name policy).1 w in
      let missing =
        issues_of_iff (λ stage. not (one_of stage names)) (missing_issue debug_name debug_names)
          policy.required in
      let there =
        All-iff (λ stage. not (one_of stage names) ≡ false) (λ stage. one_of stage names ≡ true)
          (λ stage. not-false_iff (one_of stage names)) policy.required in
      let forbidden =
        issues_of_iff (λ stage. one_of stage names) (forbidden_issue debug_name debug_names)
          policy.forbidden in
      let duplicated =
        issues_of_iff (λ stage. ltb 1 (length (entries stage positions)))
          (duplicated_issue debug_name debug_names) policy.unique in
      let once =
        All-iff (λ stage. ltb 1 (length (entries stage positions)) ≡ false)
          (λ stage. count stage names ≤ 1) (unique_iff names) policy.unique in
      let misplaced =
        issues_of_iff (λ stage. not (starts_at names stage)) (first_issue debug_name debug_names)
          (of_option policy.first) in
      let placed =
        All-iff (λ stage. not (starts_at names stage) ≡ false)
          (λ stage. starts_at names stage ≡ true) (λ stage. not-false_iff (starts_at names stage))
          (of_option policy.first) in
      let broken = issues_of_iff (rule_breaks positions) rule_issue policy.rules in
      let kept = rules_iff names policy.rules w.rules in
      let parts =
        six_nil (validate_policy_shape debug_name policy)
          (issues_of (λ stage. not (one_of stage names)) (missing_issue debug_name debug_names)
            policy.required)
          (issues_of (λ stage. one_of stage names) (forbidden_issue debug_name debug_names)
            policy.forbidden)
          (issues_of (λ stage. ltb 1 (length (entries stage positions)))
            (duplicated_issue debug_name debug_names) policy.unique)
          (issues_of (λ stage. not (starts_at names stage)) (first_issue debug_name debug_names)
            (of_option policy.first))
          (issues_of (rule_breaks positions) rule_issue policy.rules) in
      let same = direct-plain names policy w in
      (
        λ e.
            let (_, a, b, c, d, r) = parts.0 (sym same ∙ e) in
            record {
              required = there.0 (missing.0 a);
              forbidden = forbidden.0 b;
              unique = once.0 (duplicated.0 c);
              first = placed.0 (misplaced.0 d);
              rules = kept.0 (broken.0 r);
            },
        λ f.
            same
            ∙ parts.1 (
              shape,
              missing.1 (there.1 f.required),
              forbidden.1 f.forbidden,
              duplicated.1 (once.1 f.unique),
              misplaced.1 (placed.1 f.first),
              broken.1 (kept.1 f.rules),
            ),
      )

  shape_of_direct :
      (names : List Bytes) (policy : MiddlewareOrderPolicy)
      → direct_issues debug_name debug_names names policy ≡ []
      → IsWellFormed policy
  unfolding direct_issues
  shape_of_direct names policy e =
      (validate_policy_shape_iff debug_name policy).0 (head_nil _ _ _ _ _ _ e)

  with_cycle_nil :
      (issues : List MiddlewareOrderIssue) (found : Option MiddlewareOrderIssue)
      → with_cycle debug_name debug_names issues found ≡ []
      → (issues ≡ []) × (found ≡ none)
  with_cycle_nil issues none e = (e, refl)
  with_cycle_nil issues (some issue) e = absurd (cc (append-eq_nil issues (issue ∷ []) e).1)

  -- The validation of a sequence of stages comes to an end. It finds nothing exactly when the policy is
  -- well formed and the sequence follows it: required stages are there and forbidden ones are not,
  -- stages that are to be unique stand at most once, the first stage is the one that is asked for, and
  -- every rule holds.
  pub validate_consumer_middleware_order_iff :
      (names : List Bytes) (policy : MiddlewareOrderPolicy)
      → (issues : List MiddlewareOrderIssue) × (validate_consumer_middleware_order debug_name
            debug_names names policy
          ≡ some issues)
        × ((issues ≡ []) ↔ (IsWellFormed policy × IsFollowed policy names))
  unfolding validate_consumer_middleware_order
  validate_consumer_middleware_order_iff names policy =
      let (report, e, found) = active_order_cycle_issue_lem debug_names names policy in
      let direct = direct_issues debug_name debug_names names policy in
      (
        with_cycle debug_name debug_names direct report,
        rw e refl,
        (
          λ h.
              let (none_direct, _) = with_cycle_nil direct report h in
              let w = shape_of_direct names policy none_direct in
              (w, (direct_iff names policy w).0 none_direct),
          λ a.
              let none_direct = (direct_iff names policy a.0).1 a.1 in
              let no_cycle = found.1 (IsFollowed-HasOrder names policy a.1) in
              rw (no_cycle, none_direct) refl,
        ),
      )

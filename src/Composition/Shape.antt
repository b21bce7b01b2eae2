-- ===== src/Composition/Shape.antt =====
-- The checks of src/rust/src/composition.rs that read a policy alone. `debug_name` stands for `{:?}` of
-- a text. A `HashSet` is the list of its members in the order of insertion.
use ores_middleware.Prelude.Bytes.{Bytes, codes, is_empty, bytes_eq, one_of}
use ores_middleware.Prelude.Text.{trim}
use ores_middleware.Prelude.{
  Bool, not, ◌&&◌, List, [], ◌∷◌, ◌++◌, map, Option, none, some, if◌then◌else◌,
}
use ores_middleware.Routes.Validation.{sort}
use ores_middleware.Composition.{
  MiddlewareOrderingRule, MiddlewareOrderPolicy, MiddlewareOrderIssue, error,
}

-- `trim().is_empty()`
unfoldable pub is_blank : Bytes → Bool
is_blank text = is_empty (trim text)

unfoldable pub valid_order_rule : MiddlewareOrderingRule → Bool
valid_order_rule rule =
    not (is_blank rule.before)
    && (not (is_blank rule.after)
        && (not (is_blank rule.code)
            && (not (is_blank rule.message) && not (bytes_eq rule.before rule.after))))

-- `filter_map(|x| test(x).then_some(issue(x)))`
unfoldable pub issues_of {ℓ} :
    {A : Type ℓ} → (A → Bool) → (A → MiddlewareOrderIssue) → List A → List MiddlewareOrderIssue
issues_of test issue [] = []
issues_of test issue (x ∷ xs) =
    let rest = issues_of test issue xs in if test x then issue x ∷ rest else rest

-- `filter` by a Boolean test
unfoldable pub keep_if {ℓ} : {A : Type ℓ} → (A → Bool) → List A → List A
keep_if test [] = []
keep_if test (x ∷ xs) = let rest = keep_if test xs in if test x then x ∷ rest else rest

-- the value of an optional stage as a list of one or none
unfoldable pub of_option : Option Bytes → List Bytes
of_option none = []
of_option (some stage) = stage ∷ []

-- `HashSet::insert`, and `collect` into one
unfoldable pub set_insert : Bytes → List Bytes → List Bytes
set_insert x set = if one_of x set then set else set ++ x ∷ []

unfoldable pub to_set : List Bytes → List Bytes
unfolding set_insert
to_set [] = []
to_set (x ∷ xs) = set_insert x (to_set xs)

abbrev pub blank_selector_issue : Bytes → MiddlewareOrderIssue
blank_selector_issue stage = record {
  code = codes "blank-policy-stage-name";
  message = codes "consumer middleware policy stage names must not be blank";
  severity = error;
  stage = some stage;
}

abbrev pub blank_first_issue : Bytes → MiddlewareOrderIssue
blank_first_issue stage = record {
  code = codes "blank-policy-stage-name";
  message = codes "consumer middleware policy first-stage name must not be blank";
  severity = error;
  stage = some stage;
}

abbrev pub malformed_rule_issue : MiddlewareOrderingRule → MiddlewareOrderIssue
malformed_rule_issue rule = record {
  code = codes "invalid-order-rule";
  message =
      codes
        "order rules require non-empty, distinct before/after names, a non-empty code, and a non-empty message";
  severity = error;
  stage = none;
}

abbrev pub named : Bytes → Bool
named stage = not (is_blank stage)

unfoldable pub insert_first : List Bytes → List Bytes → List Bytes
unfolding set_insert
insert_first [] set = set
insert_first (stage ∷ _) set = set_insert stage set

-- the stages that are required or placed first, and forbidden
unfoldable pub contradictory : MiddlewareOrderPolicy → List Bytes
unfolding keep_if of_option to_set insert_first
contradictory policy =
    let required : List Bytes = to_set (keep_if named policy.required) in
    let forbidden : List Bytes = to_set (keep_if named policy.forbidden) in
    let both : List Bytes = keep_if (λ stage. one_of stage forbidden) required in
    insert_first (keep_if (λ stage. named stage && one_of stage forbidden) (of_option policy.first))
      both

module _ (debug_name : Bytes → Bytes) where
  abbrev pub contradiction_issue : Bytes → MiddlewareOrderIssue
  contradiction_issue stage = record {
    code = codes "contradictory-stage-policy";
    message =
        codes "consumer middleware policy both requires/places and forbids stage "
        ++ debug_name stage;
    severity = error;
    stage = some stage;
  }

  unfoldable pub validate_policy_shape : MiddlewareOrderPolicy → List MiddlewareOrderIssue
  unfolding issues_of of_option contradictory
  validate_policy_shape policy =
      issues_of is_blank blank_selector_issue
        ((policy.required ++ policy.forbidden) ++ policy.unique)
      ++ issues_of is_blank blank_first_issue (of_option policy.first)
      ++ issues_of (λ rule. not (valid_order_rule rule)) malformed_rule_issue policy.rules
      ++ map contradiction_issue (sort (contradictory policy))

-- ===== src/Composition/WellFormed.antt =====
-- When the checks of a policy alone in src/rust/src/composition.rs find nothing.
use ores_middleware.Prelude.Bytes.{Bytes, one_of}
use ores_middleware.Prelude.{
  ◌≡◌, ◌↔◌, refl, sym, ◌∙◌, true, false, not, ◌&&◌, List, [], ◌∷◌, ◌++◌, map, All, All-append_iff,
  All-iff, not_iff, not-false_iff, six_nil,
}
use ores_middleware.Routes.Validation.{sort}
use ores_middleware.Composition.{MiddlewareOrderPolicy}
use ores_middleware.Composition.Shape.{
  is_blank, named, valid_order_rule, issues_of, keep_if, of_option, to_set, contradictory,
  validate_policy_shape, blank_selector_issue, blank_first_issue, malformed_rule_issue,
  contradiction_issue,
}
use ores_middleware.Routes.Validity.{map-nil_iff}
use ores_middleware.Composition.Filters.{
  issues_of_iff, keep_if-All, keep_if_none, one_of-to_set, All-to_set, sort_nil, insert_first_nil,
}

-- no blank name
abbrev pub AreNamed : List Bytes → Type 0
AreNamed = All (λ stage. is_blank stage ≡ false)

pub keep_if-named : (xs : List Bytes) → AreNamed xs → keep_if named xs ≡ xs
keep_if-named xs a = keep_if-All named xs (
    (All-iff (λ stage. is_blank stage ≡ false) (λ stage. named stage ≡ true)
        (λ stage. ((not_iff (is_blank stage)).1, (not_iff (is_blank stage)).0)) xs).0
      a)

-- Names are not blank, rules are well formed, and no stage is both wanted and forbidden.
pub record IsWellFormed (policy : MiddlewareOrderPolicy) : Type 0 where
  pub required : AreNamed policy.required
  pub forbidden : AreNamed policy.forbidden
  pub unique : AreNamed policy.unique
  pub first : AreNamed (of_option policy.first)
  pub rules : All (λ rule. valid_order_rule rule ≡ true) policy.rules
  pub not_required : All (λ stage. one_of stage policy.forbidden ≡ false) policy.required
  pub not_first : All (λ stage. one_of stage policy.forbidden ≡ false) (of_option policy.first)

-- the names and the rules alone
abbrev IsSpelled : MiddlewareOrderPolicy → Type 0
IsSpelled policy =
    AreNamed policy.required
    × AreNamed policy.forbidden
    × AreNamed policy.unique
    × AreNamed (of_option policy.first)
    × All (λ rule. valid_order_rule rule ≡ true) policy.rules

first_test :
    (xs : List Bytes) (set : List Bytes)
    → AreNamed xs
    → All (λ stage. (named stage && one_of stage set) ≡ false) xs
      ↔ All (λ stage. one_of stage set ≡ false) xs
first_test [] set a = (λ h. tt, λ h. tt)
first_test (x ∷ xs) set (n, a) =
    let rest = first_test xs set a in rw n (λ h. (h.0, rest.0 h.1), λ h. (h.0, rest.1 h.1))

contradictory_iff :
    (policy : MiddlewareOrderPolicy)
    → IsSpelled policy
    → (contradictory policy ≡ []) ↔ (
        All (λ stage. one_of stage policy.forbidden ≡ false) policy.required
        × All (λ stage. one_of stage policy.forbidden ≡ false) (of_option policy.first))
unfolding contradictory
contradictory_iff policy (r, f, u, first, rules) =
    let set : List Bytes = to_set policy.forbidden in
    let in_set = λ (stage : Bytes). one_of-to_set stage policy.forbidden in
    let out = λ (xs : List Bytes).
      All-iff (λ stage. one_of stage set ≡ false) (λ stage. one_of stage policy.forbidden ≡ false)
        (λ stage. (λ e. sym (in_set stage) ∙ e, λ e. in_set stage ∙ e)) xs in
    let firsts = keep_if (λ stage. named stage && one_of stage set) (of_option policy.first) in
    let both = keep_if (λ stage. one_of stage set) (to_set policy.required) in
    let nothing = insert_first_nil firsts both in
    let no_first =
      keep_if_none (λ stage. named stage && one_of stage set) (of_option policy.first) in
    let no_both = keep_if_none (λ stage. one_of stage set) (to_set policy.required) in
    let plain = All-to_set (λ stage. one_of stage set ≡ false) policy.required in
    let tested = first_test (of_option policy.first) set first in
    rw (keep_if-named policy.required r, keep_if-named policy.forbidden f)
      (
        λ e.
            let (a, b) = nothing.0 e in
            (
              (out policy.required).0 (plain.0 (no_both.0 b)),
              (out (of_option policy.first)).0 (tested.0 (no_first.0 a)),
            ),
        λ a. nothing.1 (
          no_first.1 (tested.1 ((out (of_option policy.first)).1 a.1)),
          no_both.1 (plain.1 ((out policy.required).1 a.0)),
        ),
      )

module _ (debug_name : Bytes → Bytes) where
  -- The checks of a policy alone find nothing exactly when no name is blank, every rule is well formed and
  -- no required or first stage is forbidden.
  pub validate_policy_shape_iff :
      (policy : MiddlewareOrderPolicy)
      → (validate_policy_shape debug_name policy ≡ []) ↔ IsWellFormed policy
  unfolding validate_policy_shape
  validate_policy_shape_iff policy =
      let names : List Bytes = (policy.required ++ policy.forbidden) ++ policy.unique in
      let blank = issues_of_iff is_blank blank_selector_issue names in
      let blank_first = issues_of_iff is_blank blank_first_issue (of_option policy.first) in
      let malformed =
        issues_of_iff (λ rule. not (valid_order_rule rule)) malformed_rule_issue policy.rules in
      let good =
        All-iff (λ rule. not (valid_order_rule rule) ≡ false) (λ rule. valid_order_rule rule ≡ true)
          (λ rule. not-false_iff (valid_order_rule rule)) policy.rules in
      let outer =
        All-append_iff (λ stage. is_blank stage ≡ false) (policy.required ++ policy.forbidden)
          policy.unique in
      let inner =
        All-append_iff (λ stage. is_blank stage ≡ false) policy.required policy.forbidden in
      let parts =
        six_nil [] [] (issues_of is_blank blank_selector_issue names)
          (issues_of is_blank blank_first_issue (of_option policy.first))
          (issues_of (λ rule. not (valid_order_rule rule)) malformed_rule_issue policy.rules)
          (map (contradiction_issue debug_name) (sort (contradictory policy))) in
      let mapped = map-nil_iff (contradiction_issue debug_name) (sort (contradictory policy)) in
      let sorted = sort_nil (contradictory policy) in
      (
        λ e.
            let (_, _, a, b, c, d) = parts.0 e in
            let (rf, u) = outer.0 (blank.0 a) in
            let (r, f) = inner.0 rf in
            let spelled : IsSpelled policy = (r, f, u, blank_first.0 b, good.0 (malformed.0 c)) in
            let (x, y) = (contradictory_iff policy spelled).0 (sorted.0 (mapped.0 d)) in
            record {
              required = r;
              forbidden = f;
              unique = u;
              first = blank_first.0 b;
              rules = good.0 (malformed.0 c);
              not_required = x;
              not_first = y;
            },
        λ w.
            let spelled : IsSpelled policy =
              (w.required, w.forbidden, w.unique, w.first, w.rules) in
            parts.1 (
              refl,
              refl,
              blank.1 (outer.1 (inner.1 (w.required, w.forbidden), w.unique)),
              blank_first.1 w.first,
              malformed.1 (good.1 w.rules),
              mapped.1
                  (sorted.1 ((contradictory_iff policy spelled).1 (w.not_required, w.not_first))),
            ),
      )

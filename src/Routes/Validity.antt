-- ===== src/Routes/Validity.antt =====
-- What the validation of src/rust/src/rate_limit_routes.rs accepts.
use ores_middleware.Prelude.Bytes.{Bytes, codes, bytes_eq_iff}
use ores_middleware.Prelude.{
  ℕ, ◌+◌, ◌≡◌, ◌≢◌, ◌↔◌, inl, inr, refl, sym, ap, ◌∙◌, Bool, true, false, ◌||◌, List, [], ◌∷◌, ◌++◌,
  map, Option, none, some, All, arith, Bool-cases, append-eq_nil,
}
use ores_middleware.Prelude.Maps.{some_inj}
use ores_middleware.Policy
use ores_middleware.Policy.{RateLimitPolicyV2}
use ores_middleware.Routes.{
  RouteRateLimitRule, RouteRateLimitTable, RouteRateLimitViolation, option_eq,
}
use ores_middleware.Routes.Validation.{
  report, Key, key_eq, lists_eq, seen_key, canonical_selector_key, validate_selector,
  policy_violations, prefix_path, rule_violations, default_violations, validate_table,
}

report_iff : (b : Bool) (v : RouteRateLimitViolation) → (report b v ≡ []) ↔ (b ≡ false)
report_iff true v = (λ e. absurd (cc e), λ e. absurd (cc e))
report_iff false v = (λ e. refl, λ e. refl)

pub map-nil_iff {ℓ} : {A B : Type ℓ} (f : A → B) (xs : List A) → (map f xs ≡ []) ↔ (xs ≡ [])
map-nil_iff f [] = (λ e. refl, λ e. refl)
map-nil_iff f (x ∷ xs) = (λ e. absurd (cc e), λ e. absurd (cc e))

pub lists_eq_iff : (xs ys : List Bytes) → (lists_eq xs ys ≡ true) ↔ (xs ≡ ys)
unfolding lists_eq
lists_eq_iff [] [] = ground arith
lists_eq_iff (x ∷ xs) (y ∷ ys) = ground (arith, lists_eq_iff xs ys, bytes_eq_iff x y)
lists_eq_iff [] (y ∷ ys) = ground arith
lists_eq_iff (x ∷ xs) [] = ground arith

option_eq_iff : (a b : Option Bytes) → (option_eq a b ≡ true) ↔ (a ≡ b)
unfolding option_eq
option_eq_iff none none = (λ e. refl, λ e. refl)
option_eq_iff (some a) (some b) =
    (λ e. ap some ((bytes_eq_iff a b).0 e), λ e. (bytes_eq_iff a b).1 (some_inj e))
option_eq_iff none (some b) = (λ e. absurd (cc e), λ e. absurd (cc e))
option_eq_iff (some a) none = (λ e. absurd (cc e), λ e. absurd (cc e))

key_eq_iff : (a b : Key) → (key_eq a b ≡ true) ↔ (a ≡ b)
key_eq_iff (m, p, o) (m', p', o') = (
  λ e.
      let first : m ≡ m' = (lists_eq_iff m m').0 (ground (arith, e)) in
      let second : p ≡ p' = (option_eq_iff p p').0 (ground (arith, e)) in
      let third : o ≡ o' = (option_eq_iff o o').0 (ground (arith, e)) in cc,
  λ e.
      rw
        (
          (lists_eq_iff m m').1 (ap (λ k. k.0) e),
          (option_eq_iff p p').1 (ap (λ k. k.1) e),
          (option_eq_iff o o').1 (ap (λ k. k.2) e),
        )
        refl,
)

or_right : (a b : Bool) → a || b ≡ false → b ≡ false
or_right true b h = absurd (cc h)
or_right false b h = h

or_left : (a b : Bool) → a || b ≡ false → a ≡ false
or_left true b h = h
or_left false b h = refl

or_false : (a b : Bool) → a ≡ false → b ≡ false → a || b ≡ false
or_false a b h k = rw (h, k) refl

pub seen_key_iff :
    (key : Key) (seen : List Key) → (seen_key key seen ≡ false) ↔ All (λ other. key ≢ other) seen
unfolding seen_key
seen_key_iff key [] = (λ e. tt, λ a. refl)
seen_key_iff key (other ∷ seen) = (
  λ e. (
    λ same.
        cc (sym ((key_eq_iff key other).1 same) ∙ or_left (key_eq key other) (seen_key key seen) e),
    (seen_key_iff key seen).0 (or_right (key_eq key other) (seen_key key seen) e),
  ),
  λ a. elim (Bool-cases (key_eq key other)) [
    | inl same ↦ absurd (a.0 ((key_eq_iff key other).0 same))
    | inr different ↦
        or_false (key_eq key other) (seen_key key seen) different ((seen_key_iff key seen).1 a.1)
  ],
)

module _ (show : ℕ → Bytes) where
  -- A rule whose selector and policy pass their own validation.
  abbrev pub IsValidRule : RouteRateLimitRule → Type 0
  IsValidRule rule =
      (validate_selector show rule.selector ≡ []) × (Policy.validate rule.policy ≡ [])

  abbrev pub key_of : RouteRateLimitRule → Key
  key_of rule = canonical_selector_key rule.selector

  -- No two rules have the same canonical selector.
  abbrev pub IsDistinct : List RouteRateLimitRule → Type 0
  IsDistinct [] = Unit
  IsDistinct (rule ∷ rules) = All (λ later. key_of later ≢ key_of rule) rules × IsDistinct rules

  abbrev AreNew : List Key → List RouteRateLimitRule → Type 0
  AreNew seen rules = All (λ rule. All (λ other. key_of rule ≢ other) seen) rules

  append_iff : (xs ys : List RouteRateLimitViolation) → (xs ++ ys ≡ []) ↔ ((xs ≡ []) × (ys ≡ []))
  append_iff xs ys = (append-eq_nil xs ys, λ e. rw (e.0, e.1) refl)

  four_iff :
      (a b c d : List RouteRateLimitViolation)
      → (a ++ b ++ c ++ d ≡ []) ↔ ((a ≡ []) × (b ≡ []) × (c ≡ []) × (d ≡ []))
  four_iff a b c d = (
    λ e.
        let (abc, dd) = append-eq_nil (a ++ b ++ c) d e in
        let (ab, cc') = append-eq_nil (a ++ b) c abc in
        let (aa, bb) = append-eq_nil a b ab in (aa, bb, cc', dd),
    λ e. rw (e.0, e.1, e.2, e.3) refl,
  )

  policy_violations_iff :
      (prefix : Bytes) (policy : RateLimitPolicyV2)
      → (policy_violations show prefix (Policy.validate policy) ≡ [])
        ↔ (Policy.validate policy ≡ [])
  unfolding policy_violations
  policy_violations_iff prefix policy = map-nil_iff _ (Policy.validate policy)

  rule_parts :
      (f : RouteRateLimitViolation → RouteRateLimitViolation) (prefix : Bytes)
      (v : RouteRateLimitViolation) (vs rest : List RouteRateLimitViolation)
      (policy : RateLimitPolicyV2) (k : Bool)
      → (map f vs ++ policy_violations show prefix (Policy.validate policy) ++ report k v ++ rest
          ≡ [])
        ↔ ((vs ≡ []) × (Policy.validate policy ≡ []) × (k ≡ false) × (rest ≡ []))
  rule_parts f prefix v vs rest policy k =
      let parts =
        four_iff (map f vs) (policy_violations show prefix (Policy.validate policy)) (report k v)
          rest in
      (
        λ e.
            let (s, p, r, t) = parts.0 e in
            (
              (map-nil_iff f vs).0 s,
              (policy_violations_iff prefix policy).0 p,
              (report_iff k v).0 r,
              t,
            ),
        λ a. parts.1 (
          (map-nil_iff f vs).1 a.0,
          (policy_violations_iff prefix policy).1 a.1,
          (report_iff k v).1 a.2,
          a.3,
        ),
      )

  -- the violations of one rule and of those after it
  rule_violations_cons :
      (index : ℕ) (seen : List Key) (rule : RouteRateLimitRule) (rules : List RouteRateLimitRule)
      → (rule_violations show index seen (rule ∷ rules) ≡ []) ↔ (
          (validate_selector show rule.selector ≡ [])
          × (Policy.validate rule.policy ≡ [])
          × (seen_key (key_of rule) seen ≡ false)
          × (rule_violations show (index + 1) (key_of rule ∷ seen) rules ≡ []))
  unfolding rule_violations
  rule_violations_cons index seen rule rules =
      let prefix : Bytes = codes "routes[" ++ show index ++ codes "]" in
      rule_parts (prefix_path show prefix) (prefix ++ codes ".policy")
        (record {
          code = "duplicate-route-selector";
          path = prefix ++ codes ".selector";
          message = "identical route selectors are ambiguous and must be combined";
        })
        (validate_selector show rule.selector)
        (rule_violations show (index + 1) (key_of rule ∷ seen) rules) rule.policy
        (seen_key (key_of rule) seen)

  AreNew-cons :
      (key : Key) (seen : List Key) (rules : List RouteRateLimitRule)
      → AreNew (key ∷ seen) rules ↔ (All (λ later. key_of later ≢ key) rules × AreNew seen rules)
  AreNew-cons key seen [] = (λ a. (tt, tt), λ a. tt)
  AreNew-cons key seen (rule ∷ rules) = (
    λ a. let rest = (AreNew-cons key seen rules).0 a.1 in ((a.0.0, rest.0), (a.0.1, rest.1)),
    λ a. ((a.0.0, a.1.0), (AreNew-cons key seen rules).1 (a.0.1, a.1.1)),
  )

  rule_violations_iff :
      (index : ℕ) (seen : List Key) (rules : List RouteRateLimitRule)
      → (rule_violations show index seen rules ≡ [])
        ↔ (All IsValidRule rules × AreNew seen rules × IsDistinct rules)
  unfolding rule_violations
  rule_violations_iff index seen [] = (λ e. (tt, tt, tt), λ a. refl)
  rule_violations_iff index seen (rule ∷ rules) =
      let parts = rule_violations_cons index seen rule rules in
      let later = rule_violations_iff (index + 1) (key_of rule ∷ seen) rules in
      let split = AreNew-cons (key_of rule) seen rules in
      (
        λ e.
            let (s, p, k, r) = parts.0 e in
            let (valid, new, distinct) = later.0 r in
            let (other, rest) = split.0 new in
            (((s, p), valid), ((seen_key_iff (key_of rule) seen).0 k, rest), (other, distinct)),
        λ a. parts.1 (
          a.0.0.0,
          a.0.0.1,
          (seen_key_iff (key_of rule) seen).1 a.1.0,
          later.1 (a.0.1, split.1 (a.2.0, a.1.1), a.2.1),
        ),
      )

  AreNew-nil : (rules : List RouteRateLimitRule) → AreNew [] rules
  AreNew-nil [] = tt
  AreNew-nil (rule ∷ rules) = (tt, AreNew-nil rules)

  abbrev pub IsValidDefault : Option RateLimitPolicyV2 → Type 0
  IsValidDefault none = Unit
  IsValidDefault (some policy) = Policy.validate policy ≡ []

  default_iff :
      (policy : Option RateLimitPolicyV2)
      → (default_violations show policy ≡ []) ↔ IsValidDefault policy
  unfolding default_violations
  default_iff none = (λ e. tt, λ a. refl)
  default_iff (some policy) = policy_violations_iff (codes "default_policy") policy

  -- A table passes the validation exactly when its default policy, if any, passes that of policies, every
  -- rule has a valid selector and policy, and no two rules have the same canonical selector.
  pub validate_table_iff :
      (table : RouteRateLimitTable)
      → (validate_table show table ≡ []) ↔ (
          IsValidDefault table.default_policy
          × All IsValidRule table.routes
          × IsDistinct table.routes)
  unfolding validate_table
  validate_table_iff table =
      let first = default_iff table.default_policy in
      let later = rule_violations_iff 0 [] table.routes in
      (
        λ e.
            let (d, r) =
              append-eq_nil (default_violations show table.default_policy)
                (rule_violations show 0 [] table.routes) e in
            let (valid, _, distinct) = later.0 r in (first.0 d, valid, distinct),
        λ a. rw (first.1 a.0, later.1 (a.1, AreNew-nil table.routes, a.2)) refl,
      )

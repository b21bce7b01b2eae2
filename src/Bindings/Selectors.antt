-- ===== src/Bindings/Selectors.antt =====
-- When the validation of a selector of src/rust/src/rate_limit_bindings.rs finds nothing.
use ores_middleware.Prelude.Bytes.{Bytes, codes, bytes_eq, bytes_eq_iff, one_of}
use ores_middleware.Prelude.{
  ℕ, ◌+◌, ◌≤◌, ◌≡◌, ◌≢◌, ◌↔◌, refl, sym, ◌∙◌, inl, inr, Bool, true, false, not, ◌&&◌, List, [], ◌∷◌,
  ◌++◌, Option, none, some, String, ltb, length, All, six_nil, arith, Bool-cases, not-false_iff,
}
use ores_middleware.Bindings.Paths.{valid_http_method, valid_operation_id, validate_path_template}
use ores_middleware.Bindings.{
  RouteRateLimitBindingSelector, report, max_route_methods, invalid_option, is_none, no_methods,
  template_report, template_violations, method_violations, validate_selector,
}

pub report_iff :
    (b : Bool) (code : String) (path : Bytes) (message : String)
    → (report b code path message ≡ []) ↔ (b ≡ false)
report_iff true code path message = (λ e. absurd (cc e), λ e. absurd (cc e))
report_iff false code path message = (λ e. refl, λ e. refl)

-- a test that is reported unless it holds
pub test_iff :
    (b : Bool) (code : String) (path : Bytes) (message : String)
    → (report (not b) code path message ≡ []) ↔ (b ≡ true)
test_iff b code path message = (
  λ e. (not-false_iff b).0 ((report_iff (not b) code path message).0 e),
  λ e. (report_iff (not b) code path message).1 ((not-false_iff b).1 e),
)

pub one_of_iff :
    (x : Bytes) (seen : List Bytes) → (one_of x seen ≡ false) ↔ All (λ other. x ≢ other) seen
unfolding one_of
one_of_iff x [] = (λ e. tt, λ a. refl)
one_of_iff x (y ∷ seen) =
    let rest = one_of_iff x seen in
    elim (Bool-cases (bytes_eq x y)) [
      | inl same ↦ rw same (λ e. absurd (cc e), λ a. absurd (a.0 ((bytes_eq_iff x y).0 same)))
      | inr other ↦
          rw other
            (λ e. (λ same. cc (sym other ∙ (bytes_eq_iff x y).1 same), rest.0 e), λ a. rest.1 a.1)
    ]

-- no value of a function twice in a list
module _ {A K : Type 0} (f : A → K) where
  abbrev pub IsDistinctBy : List A → Type 0
  IsDistinctBy [] = Unit
  IsDistinctBy (x ∷ xs) = All (λ later. f later ≢ f x) xs × IsDistinctBy xs

  -- none of the values seen so far
  abbrev pub AreNew : List K → List A → Type 0
  AreNew seen xs = All (λ x. All (λ other. f x ≢ other) seen) xs

  pub AreNew-cons :
      (key : K) (seen : List K) (xs : List A)
      → AreNew (key ∷ seen) xs ↔ (All (λ later. f later ≢ key) xs × AreNew seen xs)
  AreNew-cons key seen [] = (λ a. (tt, tt), λ a. tt)
  AreNew-cons key seen (x ∷ xs) = (
    λ a. let rest = (AreNew-cons key seen xs).0 a.1 in ((a.0.0, rest.0), (a.0.1, rest.1)),
    λ a. ((a.0.0, a.1.0), (AreNew-cons key seen xs).1 (a.0.1, a.1.1)),
  )

  pub AreNew-nil : (xs : List A) → AreNew [] xs
  AreNew-nil [] = tt
  AreNew-nil (x ∷ xs) = (tt, AreNew-nil xs)

-- `is_some_and` of a negated test
abbrev pub IsValidOption : (Bytes → Bool) → Option Bytes → Type 0
IsValidOption valid none = Unit
IsValidOption valid (some value) = valid value ≡ true

pub invalid_option_iff :
    (valid : Bytes → Bool) (value : Option Bytes)
    → (invalid_option valid value ≡ false) ↔ IsValidOption valid value
invalid_option_iff valid none = (λ e. tt, λ a. refl)
invalid_option_iff valid (some value) = not-false_iff (valid value)

abbrev pub IsValidTemplate : Option Bytes → Type 0
IsValidTemplate none = Unit
IsValidTemplate (some template) = validate_path_template template ≡ none

report_none : (code : Option String) → (template_report code ≡ []) ↔ (code ≡ none)
report_none none = (λ e. refl, λ e. refl)
report_none (some code) = (λ e. absurd (cc e), λ e. absurd (cc e))

template_iff :
    (template : Option Bytes) → (template_violations template ≡ []) ↔ IsValidTemplate template
template_iff none = (λ e. tt, λ a. refl)
template_iff (some template) = report_none (validate_path_template template)

module _ (show : ℕ → Bytes) where
  methods_iff :
      (index : ℕ) (seen methods : List Bytes)
      → (method_violations show index seen methods ≡ []) ↔ (
          All (λ method. valid_http_method method ≡ true) methods
          × AreNew (λ method. method) seen methods
          × IsDistinctBy (λ method. method) methods)
  unfolding method_violations
  methods_iff index seen [] = (λ e. (tt, tt, tt), λ a. refl)
  methods_iff index seen (method ∷ methods) =
      let path : Bytes = codes "selector.methods[" ++ show index ++ codes "]" in
      let valid =
        test_iff (valid_http_method method) "invalid-http-method" path
          "HTTP methods must be bounded canonical uppercase ASCII tokens" in
      let once =
        report_iff (one_of method seen) "duplicate-http-method" path
          "HTTP method may appear only once in a selector" in
      let new = one_of_iff method seen in
      let rest = methods_iff (index + 1) (method ∷ seen) methods in
      let split = AreNew-cons (λ m. m) method seen methods in
      let parts =
        six_nil [] [] []
          (report (not (valid_http_method method)) "invalid-http-method" path
            "HTTP methods must be bounded canonical uppercase ASCII tokens")
          (report (one_of method seen) "duplicate-http-method" path
            "HTTP method may appear only once in a selector")
          (method_violations show (index + 1) (method ∷ seen) methods) in
      (
        λ e.
            let (_, _, _, v, o, r) = parts.0 e in
            let (vs, ns, ds) = rest.0 r in
            let (d, n) = split.0 ns in ((valid.0 v, vs), (new.0 (once.0 o), n), (d, ds)),
        λ (vs, ns, ds). parts.1 (
          refl,
          refl,
          refl,
          valid.1 vs.0,
          once.1 (new.1 ns.0),
          rest.1 (vs.1, split.1 (ds.0, ns.1), ds.1),
        ),
      )

-- A selector constrains something, by at most eight different methods and by a template and an operation
-- identifier that are well formed.
pub record IsValidSelector (selector : RouteRateLimitBindingSelector) : Type 0 where
  pub constrains :
      (no_methods selector.methods
        && (is_none selector.path_template && is_none selector.operation_id))
      ≡ false
  pub few : length selector.methods ≤ max_route_methods
  pub methods : All (λ method. valid_http_method method ≡ true) selector.methods
  pub distinct : IsDistinctBy (λ method. method) selector.methods
  pub template : IsValidTemplate selector.path_template
  pub operation : IsValidOption valid_operation_id selector.operation_id

pub le_iff : (a b : ℕ) → (ltb b a ≡ false) ↔ (a ≤ b)
le_iff a b = (λ e. ground (arith, e), λ e. ground (arith, e))

module _ (show : ℕ → Bytes) where
  pub validate_selector_iff :
      (selector : RouteRateLimitBindingSelector)
      → (validate_selector show selector ≡ []) ↔ IsValidSelector selector
  unfolding validate_selector
  validate_selector_iff selector =
      let empty =
        no_methods selector.methods
        && (is_none selector.path_template && is_none selector.operation_id) in
      let constrains =
        report_iff empty "empty-route-selector" (codes "selector")
          "route selector must constrain method, path_template, or operation_id" in
      let few =
        report_iff (ltb max_route_methods (length selector.methods)) "too-many-http-methods"
          (codes "selector.methods") "route selector exceeds the bounded HTTP method count" in
      let bounded = le_iff (length selector.methods) max_route_methods in
      let methods = methods_iff show 0 [] selector.methods in
      let template = template_iff selector.path_template in
      let reported =
        report_iff (invalid_option valid_operation_id selector.operation_id) "invalid-operation-id"
          (codes "selector.operation_id")
          "operation_id must be a bounded stable ASCII identifier" in
      let operation = invalid_option_iff valid_operation_id selector.operation_id in
      let parts =
        six_nil []
          (report empty "empty-route-selector" (codes "selector")
            "route selector must constrain method, path_template, or operation_id")
          (report (ltb max_route_methods (length selector.methods)) "too-many-http-methods"
            (codes "selector.methods") "route selector exceeds the bounded HTTP method count")
          (method_violations show 0 [] selector.methods)
          (template_violations selector.path_template)
          (report (invalid_option valid_operation_id selector.operation_id) "invalid-operation-id"
            (codes "selector.operation_id")
            "operation_id must be a bounded stable ASCII identifier") in
      (
        λ e.
            let (_, a, b, c, d, o) = parts.0 e in
            let (valid, _, distinct) = methods.0 c in
            record {
              constrains = constrains.0 a;
              few = bounded.0 (few.0 b);
              methods = valid;
              distinct = distinct;
              template = template.0 d;
              operation = operation.0 (reported.0 o);
            },
        λ v. parts.1 (
          refl,
          constrains.1 v.constrains,
          few.1 (bounded.1 v.few),
          methods.1 (v.methods, AreNew-nil (λ m. m) selector.methods, v.distinct),
          template.1 v.template,
          reported.1 (operation.1 v.operation),
        ),
      )

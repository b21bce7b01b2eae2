-- ===== src/Bindings.antt =====
-- The rate limit bindings of routes of src/rust/src/rate_limit_bindings.rs. `show` stands for the decimal
-- digits of an index, the set of a `BTreeSet` is the list of what was inserted.
pub mod Paths
pub mod Resolve
mod Identifiers
mod Selectors
mod Valid
mod Decided
mod Short
mod Ordered
mod Specificity
mod Tests
use ores_middleware.Prelude.Bytes.{Bytes, codes, is_empty, bytes_eq, one_of, starts_with}
use ores_middleware.Prelude.{
  ℕ, suc, ◌+◌, Bool, true, false, not, ◌&&◌, ◌||◌, List, [], ◌∷◌, ◌++◌, map, Option, none, some,
  String, ◌==◌, ltb, leb, length, any, if◌then◌else◌,
}
use ores_middleware.Routes.Paths.{before_query}
use ores_middleware.Routes.Validation.{Key, sort, seen_key}
use ores_middleware.Bindings.Paths.{
  path_segments, path_template_matches, valid_request_http_method, valid_http_method,
  valid_operation_id, valid_route_class_id, valid_policy_id, validate_path_template,
}

abbrev pub route_rate_limit_binding_schema : Bytes
route_rate_limit_binding_schema = codes "ores.middleware.route-rate-limit-bindings/v1"

abbrev pub max_route_rate_limit_bindings : ℕ
max_route_rate_limit_bindings = 128

abbrev pub max_route_methods : ℕ
max_route_methods = 8

abbrev pub max_route_rate_limit_request_path_length : ℕ
max_route_rate_limit_request_path_length = 4096

pub record RouteRateLimitBindingSelector : Type 0 where
  pub methods : List Bytes
  pub path_template : Option Bytes
  pub operation_id : Option Bytes

pub record RouteRateLimitBinding : Type 0 where
  pub route_class_id : Bytes
  pub policy_id : Bytes
  pub selector : RouteRateLimitBindingSelector

pub record RouteRateLimitBindingTable : Type 0 where
  pub schema : Bytes
  pub default_policy_id : Option Bytes
  pub routes : List RouteRateLimitBinding

pub record RouteRateLimitBindingRequest : Type 0 where
  pub method : Bytes
  pub path : Bytes
  pub route_template : Option Bytes
  pub operation_id : Option Bytes

pub record RouteRateLimitBindingViolation : Type 0 where
  pub code : String
  pub path : Bytes
  pub message : String

abbrev pub default_table : RouteRateLimitBindingTable
default_table = record {
  schema = route_rate_limit_binding_schema;
  default_policy_id = none;
  routes = [];
}

abbrev pub Violations : Type 0
Violations = List RouteRateLimitBindingViolation

-- one violation, if the test fails
abbrev pub report : Bool → String → Bytes → String → Violations
report true code path message = record { code = code; path = path; message = message } ∷ []
report false code path message = []

-- `chars().count()`: the bytes that start a character
unfoldable pub count_chars : Bytes → ℕ
count_chars [] = 0
count_chars (b ∷ s) = let rest = count_chars s in if leb 128 b && leb b 191 then rest else suc rest

unfoldable pub basic_path_valid : Bytes → Bool
unfolding count_chars starts_with
basic_path_valid path =
    ltb 0 (count_chars path)
    && (leb (count_chars path) max_route_rate_limit_request_path_length
        && (starts_with path (codes "/")
            && not (any (λ ch. ch == b'#' || (ch == 13 || (ch == 10 || ch == 0))) path)))

-- `contains("//")`
unfoldable pub repeats_slash : Bytes → Bool
unfolding starts_with
repeats_slash [] = false
repeats_slash (c ∷ s) = starts_with (c ∷ s) (codes "//") || repeats_slash s

abbrev pub is_dots : Bytes → Bool
is_dots segment = bytes_eq segment (codes ".") || bytes_eq segment (codes "..")

unfoldable pub path_violations : Bytes → Violations
unfolding repeats_slash path_segments before_query bytes_eq basic_path_valid
path_violations path =
    let request_path = before_query path in
    if basic_path_valid path
    then report (repeats_slash request_path) "repeated-request-path-separator" (codes "path")
        "request path must not contain repeated slash separators"
      ++ report (any is_dots (path_segments request_path)) "dot-request-path-segment" (codes "path")
          "request path must not contain literal dot segments"
    else report true "invalid-request-path" (codes "path")
        "request path must be bounded, absolute, and free of fragments/control separators"

abbrev pub is_err : Option String → Bool
is_err none = false
is_err (some code) = true

unfoldable pub route_template_violations : Option Bytes → Bytes → Violations
unfolding validate_path_template basic_path_valid path_template_matches
route_template_violations none path = []
route_template_violations (some route_template) path =
    if is_err (validate_path_template route_template)
    then report true "invalid-request-route-template" (codes "route_template")
        "request route_template must use the canonical configured-template grammar"
    else report (basic_path_valid path && not (path_template_matches route_template path))
        "route-template-path-mismatch" (codes "route_template")
        "trusted route_template must describe the concrete request path"

-- `is_some_and` of a test that is negated
abbrev pub invalid_option : (Bytes → Bool) → Option Bytes → Bool
invalid_option valid none = false
invalid_option valid (some value) = not (valid value)

unfoldable pub validate_request : RouteRateLimitBindingRequest → Violations
unfolding valid_request_http_method path_violations route_template_violations valid_operation_id
validate_request request =
    report (not (valid_request_http_method request.method)) "invalid-request-method"
      (codes "method") "request method must be a bounded ASCII HTTP token"
    ++ path_violations request.path
    ++ route_template_violations request.route_template request.path
    ++ report (invalid_option valid_operation_id request.operation_id)
        "invalid-request-operation-id" (codes "operation_id")
        "request operation_id must be a bounded stable ASCII identifier"

abbrev pub is_none : Option Bytes → Bool
is_none none = true
is_none (some value) = false

abbrev pub no_methods : List Bytes → Bool
no_methods [] = true
no_methods (_ ∷ _) = false

abbrev pub template_report : Option String → Violations
template_report none = []
template_report (some code) =
    report true code (codes "selector.path_template")
      "path_template must be a bounded normalized absolute route template"

abbrev pub template_violations : Option Bytes → Violations
template_violations none = []
template_violations (some template) = template_report (validate_path_template template)

unfoldable pub canonical_selector_key : RouteRateLimitBindingSelector → Key
unfolding sort
canonical_selector_key selector =
    (sort selector.methods, selector.path_template, selector.operation_id)

module _ (show : ℕ → Bytes) where
  -- the loop over the methods, from an index on and with those seen so far
  unfoldable pub method_violations : ℕ → List Bytes → List Bytes → Violations
  unfolding valid_http_method one_of
  method_violations index seen [] = []
  method_violations index seen (method ∷ methods) =
      report (not (valid_http_method method)) "invalid-http-method"
        (codes "selector.methods[" ++ show index ++ codes "]")
        "HTTP methods must be bounded canonical uppercase ASCII tokens"
      ++ report (one_of method seen) "duplicate-http-method"
          (codes "selector.methods[" ++ show index ++ codes "]")
          "HTTP method may appear only once in a selector"
      ++ method_violations (index + 1) (method ∷ seen) methods

  unfoldable pub validate_selector : RouteRateLimitBindingSelector → Violations
  unfolding method_violations validate_path_template valid_operation_id
  validate_selector selector =
      report
        (no_methods selector.methods
          && (is_none selector.path_template && is_none selector.operation_id))
        "empty-route-selector" (codes "selector")
        "route selector must constrain method, path_template, or operation_id"
      ++ report (ltb max_route_methods (length selector.methods)) "too-many-http-methods"
          (codes "selector.methods") "route selector exceeds the bounded HTTP method count"
      ++ method_violations 0 [] selector.methods
      ++ template_violations selector.path_template
      ++ report (invalid_option valid_operation_id selector.operation_id) "invalid-operation-id"
          (codes "selector.operation_id") "operation_id must be a bounded stable ASCII identifier"

  abbrev pub with_prefix : Bytes → RouteRateLimitBindingViolation → RouteRateLimitBindingViolation
  with_prefix prefix violation = record violation { path = prefix ++ codes "." ++ violation.path }

  -- the loop over the routes, with the class identifiers and the selectors seen so far
  unfoldable pub route_violations :
      ℕ → List Bytes → List Key → List RouteRateLimitBinding → Violations
  unfolding valid_route_class_id valid_policy_id validate_selector seen_key canonical_selector_key
      one_of
  route_violations index classes keys [] = []
  route_violations index classes keys (route ∷ routes) =
      let prefix : Bytes = codes "routes[" ++ show index ++ codes "]" in
      report (not (valid_route_class_id route.route_class_id)) "invalid-route-class-id"
        (prefix ++ codes ".route_class_id")
        "route_class_id must be a bounded stable lowercase identifier"
      ++ report (one_of route.route_class_id classes) "duplicate-route-class-id"
          (prefix ++ codes ".route_class_id") "route_class_id must be unique within a binding table"
      ++ report (not (valid_policy_id route.policy_id)) "invalid-policy-id"
          (prefix ++ codes ".policy_id") "policy_id must be a bounded stable policy identifier"
      ++ map (with_prefix prefix) (validate_selector route.selector)
      ++ report (seen_key (canonical_selector_key route.selector) keys) "duplicate-route-selector"
          (prefix ++ codes ".selector")
          "identical route selectors are ambiguous and must be combined"
      ++ route_violations (index + 1) (route.route_class_id ∷ classes)
          (canonical_selector_key route.selector ∷ keys) routes

  unfoldable pub validate_table : RouteRateLimitBindingTable → Violations
  unfolding route_violations valid_policy_id bytes_eq
  validate_table table =
      report (not (bytes_eq table.schema route_rate_limit_binding_schema)) "invalid-binding-schema"
        (codes "schema") "route binding schema identifier is not supported"
      ++ report (ltb max_route_rate_limit_bindings (length table.routes)) "too-many-route-bindings"
          (codes "routes") "route binding table exceeds its bounded route count"
      ++ report (invalid_option valid_policy_id table.default_policy_id) "invalid-policy-id"
          (codes "default_policy_id") "default_policy_id must be a bounded stable policy identifier"
      ++ route_violations 0 [] [] table.routes

-- ===== src/Routes/Validation.antt =====
-- The validation of selectors and tables of src/rust/src/rate_limit_routes.rs. `show` stands for the
-- decimal digits of an index, the set of a `BTreeSet` is the list of what was inserted.
use ores_middleware.Prelude.Bytes.{
  Bytes, codes, is_empty, is_ascii_uppercase, is_ascii_alphanumeric, bytes_eq, one_of,
}
use ores_middleware.Prelude.{
  ℕ, ◌+◌, Bool, true, false, not, ◌&&◌, ◌||◌, List, [], ◌∷◌, ◌++◌, map, Option, none, some, ◌==◌,
  ltb, length, all, if◌then◌else◌,
}
use ores_middleware.Policy.{RateLimitPolicyV2, RateLimitPolicyViolation}
use ores_middleware.Policy
use ores_middleware.Routes.Paths.{validate_path_template}
use ores_middleware.Routes.{
  RateLimitRouteSelector, RouteRateLimitRule, RouteRateLimitTable, RouteRateLimitViolation,
  option_eq,
}

abbrev pub method_byte : ℕ → Bool
method_byte byte = is_ascii_uppercase byte || byte == b'-'

unfoldable pub invalid_method : Bytes → Bool
invalid_method method = is_empty method || not (all method_byte method)

operation_byte : ℕ → Bool
operation_byte byte =
    is_ascii_alphanumeric byte
    || (byte == b'-' || byte == b'_' || byte == b'.' || byte == b':' || byte == b'/')

unfoldable pub invalid_operation_id : Option Bytes → Bool
unfolding operation_byte
invalid_operation_id none = false
invalid_operation_id (some value) =
    is_empty value || ltb 160 (length value) || not (all operation_byte value)

unfoldable pub empty_selector : RateLimitRouteSelector → Bool
empty_selector selector = elim selector.methods [
  | _ ∷ _ ↦ false
  | [] ↦ elim selector.path_template [
    | some _ ↦ false
    | none ↦ elim selector.operation_id [ some _ ↦ false | none ↦ true ]
  ]
]

-- one entry of the violations, if the test fails
abbrev pub report : Bool → RouteRateLimitViolation → List RouteRateLimitViolation
report true violation = violation ∷ []
report false violation = []

-- The order of texts by their bytes, and `sort`.
unfoldable pub bytes_leb : Bytes → Bytes → Bool
bytes_leb [] ys = true
bytes_leb (x ∷ xs) [] = false
bytes_leb (x ∷ xs) (y ∷ ys) = ltb x y || x == y && bytes_leb xs ys

unfoldable pub insert_sorted : Bytes → List Bytes → List Bytes
unfolding bytes_leb
insert_sorted x [] = x ∷ []
insert_sorted x (y ∷ ys) =
    let rest = insert_sorted x ys in if bytes_leb x y then x ∷ y ∷ ys else y ∷ rest

unfoldable pub sort : List Bytes → List Bytes
unfolding insert_sorted
sort [] = []
sort (x ∷ xs) = insert_sorted x (sort xs)

unfoldable pub canonical_selector_key :
    RateLimitRouteSelector → List Bytes × Option Bytes × Option Bytes
unfolding sort
canonical_selector_key selector =
    (sort selector.methods, selector.path_template, selector.operation_id)

unfoldable pub lists_eq : List Bytes → List Bytes → Bool
unfolding bytes_eq
lists_eq [] [] = true
lists_eq (x ∷ xs) (y ∷ ys) = bytes_eq x y && lists_eq xs ys
lists_eq _ _ = false

abbrev pub Key : Type 0
Key = List Bytes × Option Bytes × Option Bytes

abbrev pub key_eq : Key → Key → Bool
key_eq a b = lists_eq a.0 b.0 && option_eq a.1 b.1 && option_eq a.2 b.2

unfoldable pub seen_key : Key → List Key → Bool
unfolding lists_eq option_eq
seen_key key [] = false
seen_key key (other ∷ keys) = key_eq key other || seen_key key keys

module _ (show : ℕ → Bytes) where
  -- the loop over the methods, from an index on and with those seen so far
  unfoldable pub method_violations : ℕ → List Bytes → List Bytes → List RouteRateLimitViolation
  unfolding invalid_method one_of
  method_violations index seen [] = []
  method_violations index seen (method ∷ methods) =
      let path : Bytes = codes "selector.methods[" ++ show index ++ codes "]" in
      report (invalid_method method) (record {
        code = "invalid-http-method";
        path = path;
        message = "HTTP methods must be canonical uppercase ASCII tokens";
      })
      ++ report (one_of method seen) (record {
        code = "duplicate-http-method";
        path = path;
        message = "HTTP method may appear only once in a selector";
      })
      ++ method_violations (index + 1) (method ∷ seen) methods

  unfoldable pub validate_selector : RateLimitRouteSelector → List RouteRateLimitViolation
  unfolding empty_selector method_violations validate_path_template invalid_operation_id
  validate_selector selector =
      report (empty_selector selector) (record {
        code = "empty-route-selector";
        path = codes "selector";
        message = "route selector must constrain method, path_template, or operation_id";
      })
      ++ method_violations 0 [] selector.methods
      ++ (elim selector.path_template [
        | none ↦ []
        | some template ↦ elim (validate_path_template template) [
          | none ↦ []
          | some code ↦
              record {
                code = code;
                path = codes "selector.path_template";
                message = "path_template must be an absolute normalized route template";
              }
              ∷ []
        ]
      ])
      ++ report (invalid_operation_id selector.operation_id) (record {
        code = "invalid-operation-id";
        path = codes "selector.operation_id";
        message = "operation_id must be a bounded stable ASCII identifier";
      })

  -- `append_policy_violations`, of what it appends
  unfoldable pub policy_violations :
      Bytes → List RateLimitPolicyViolation → List RouteRateLimitViolation
  policy_violations prefix = map (λ violation. record {
    code = violation.code;
    path = prefix ++ codes "." ++ codes violation.path;
    message = violation.message;
  })

  abbrev pub prefix_path : Bytes → RouteRateLimitViolation → RouteRateLimitViolation
  prefix_path prefix violation = record violation { path = prefix ++ codes "." ++ violation.path }

  unfoldable pub rule_violations :
      ℕ → List Key → List RouteRateLimitRule → List RouteRateLimitViolation
  unfolding validate_selector policy_violations Policy.validate seen_key canonical_selector_key
  rule_violations index seen [] = []
  rule_violations index seen (rule ∷ rules) =
      let prefix : Bytes = codes "routes[" ++ show index ++ codes "]" in
      let key : Key = canonical_selector_key rule.selector in
      map (prefix_path prefix) (validate_selector rule.selector)
      ++ policy_violations (prefix ++ codes ".policy") (Policy.validate rule.policy)
      ++ report (seen_key key seen) (record {
        code = "duplicate-route-selector";
        path = prefix ++ codes ".selector";
        message = "identical route selectors are ambiguous and must be combined";
      })
      ++ rule_violations (index + 1) (key ∷ seen) rules

  unfoldable pub default_violations : Option RateLimitPolicyV2 → List RouteRateLimitViolation
  unfolding policy_violations Policy.validate
  default_violations none = []
  default_violations (some policy) =
      policy_violations (codes "default_policy") (Policy.validate policy)

  unfoldable pub validate_table : RouteRateLimitTable → List RouteRateLimitViolation
  unfolding default_violations rule_violations
  validate_table table =
      default_violations table.default_policy ++ rule_violations 0 [] table.routes

-- ===== src/Bindings/Valid.antt =====
-- When the validation of a table of src/rust/src/rate_limit_bindings.rs finds nothing.
use ores_middleware.Prelude.Bytes.{Bytes, codes, bytes_eq, bytes_eq_iff, one_of}
use ores_middleware.Prelude.{
  ℕ, ◌+◌, ◌≤◌, ◌≡◌, ◌↔◌, refl, true, false, not, List, [], ◌∷◌, ◌++◌, map, Option, none, some, ltb,
  length, All, six_nil,
}
use ores_middleware.Routes.Validation.{Key, seen_key}
use ores_middleware.Routes.Validity.{map-nil_iff, seen_key_iff}
use ores_middleware.Bindings.Paths.{valid_route_class_id, valid_policy_id}
use ores_middleware.Bindings.Identifiers.{IsStable, stable_lower_id_iff}
use ores_middleware.Bindings.Selectors.{
  report_iff, test_iff, one_of_iff, IsDistinctBy, AreNew, AreNew-cons, AreNew-nil,
  invalid_option_iff, IsValidSelector, le_iff, validate_selector_iff,
}
use ores_middleware.Bindings.{
  RouteRateLimitBinding, RouteRateLimitBindingTable, report, route_rate_limit_binding_schema,
  max_route_rate_limit_bindings, invalid_option, canonical_selector_key, validate_selector,
  with_prefix, route_violations, validate_table,
}

-- A binding has a stable class and policy identifier and a valid selector.
abbrev pub IsValidBinding : RouteRateLimitBinding → Type 0
IsValidBinding route =
    IsStable route.route_class_id 80 false
    × IsStable route.policy_id 160 true
    × IsValidSelector route.selector

abbrev pub class_of : RouteRateLimitBinding → Bytes
class_of route = route.route_class_id

abbrev pub key_of : RouteRateLimitBinding → Key
key_of route = canonical_selector_key route.selector

class_iff : (value : Bytes) → (valid_route_class_id value ≡ true) ↔ IsStable value 80 false
unfolding valid_route_class_id
class_iff value = stable_lower_id_iff value 80 false

policy_iff : (value : Bytes) → (valid_policy_id value ≡ true) ↔ IsStable value 160 true
unfolding valid_policy_id
policy_iff value = stable_lower_id_iff value 160 true

module _ (show : ℕ → Bytes) where
  routes_iff :
      (index : ℕ) (classes : List Bytes) (keys : List Key) (routes : List RouteRateLimitBinding)
      → (route_violations show index classes keys routes ≡ []) ↔ (
          All IsValidBinding routes
          × AreNew class_of classes routes
          × AreNew key_of keys routes
          × IsDistinctBy class_of routes
          × IsDistinctBy key_of routes)
  unfolding route_violations
  routes_iff index classes keys [] = (λ e. (tt, tt, tt, tt, tt), λ a. refl)
  routes_iff index classes keys (route ∷ routes) =
      let prefix : Bytes = codes "routes[" ++ show index ++ codes "]" in
      let class_path : Bytes = prefix ++ codes ".route_class_id" in
      let key = canonical_selector_key route.selector in
      let valid =
        test_iff (valid_route_class_id route.route_class_id) "invalid-route-class-id" class_path
          "route_class_id must be a bounded stable lowercase identifier" in
      let class_once =
        report_iff (one_of route.route_class_id classes) "duplicate-route-class-id" class_path
          "route_class_id must be unique within a binding table" in
      let policy =
        test_iff (valid_policy_id route.policy_id) "invalid-policy-id"
          (prefix ++ codes ".policy_id") "policy_id must be a bounded stable policy identifier" in
      let moved = map-nil_iff (with_prefix show prefix) (validate_selector show route.selector) in
      let selector = validate_selector_iff show route.selector in
      let key_once =
        report_iff (seen_key key keys) "duplicate-route-selector" (prefix ++ codes ".selector")
          "identical route selectors are ambiguous and must be combined" in
      let stable = class_iff route.route_class_id in
      let stable_policy = policy_iff route.policy_id in
      let new_class = one_of_iff route.route_class_id classes in
      let new_key = seen_key_iff key keys in
      let rest = routes_iff (index + 1) (route.route_class_id ∷ classes) (key ∷ keys) routes in
      let split_class = AreNew-cons class_of route.route_class_id classes routes in
      let split_key = AreNew-cons key_of key keys routes in
      let parts =
        six_nil
          (report (not (valid_route_class_id route.route_class_id)) "invalid-route-class-id"
            class_path "route_class_id must be a bounded stable lowercase identifier")
          (report (one_of route.route_class_id classes) "duplicate-route-class-id" class_path
            "route_class_id must be unique within a binding table")
          (report (not (valid_policy_id route.policy_id)) "invalid-policy-id"
            (prefix ++ codes ".policy_id") "policy_id must be a bounded stable policy identifier")
          (map (with_prefix show prefix) (validate_selector show route.selector))
          (report (seen_key key keys) "duplicate-route-selector" (prefix ++ codes ".selector")
            "identical route selectors are ambiguous and must be combined")
          (route_violations show (index + 1) (route.route_class_id ∷ classes) (key ∷ keys)
            routes) in
      (
        λ e.
            let (a, b, c, d, k, r) = parts.0 e in
            let (vs, ncs, nks, dcs, dks) = rest.0 r in
            let (dc, nc) = split_class.0 ncs in
            let (dk, nk) = split_key.0 nks in
            (
              ((stable.0 (valid.0 a), stable_policy.0 (policy.0 c), selector.0 (moved.0 d)), vs),
              (new_class.0 (class_once.0 b), nc),
              (new_key.0 (key_once.0 k), nk),
              (dc, dcs),
              (dk, dks),
            ),
        λ (vs, ncs, nks, dcs, dks). parts.1 (
          valid.1 (stable.1 vs.0.0),
          class_once.1 (new_class.1 ncs.0),
          policy.1 (stable_policy.1 vs.0.1),
          moved.1 (selector.1 vs.0.2),
          key_once.1 (new_key.1 nks.0),
          rest.1 (vs.1, split_class.1 (dcs.0, ncs.1), split_key.1 (dks.0, nks.1), dcs.1, dks.1),
        ),
      )

  abbrev pub IsValidDefault : Option Bytes → Type 0
  IsValidDefault none = Unit
  IsValidDefault (some policy_id) = IsStable policy_id 160 true

  default_iff :
      (policy_id : Option Bytes)
      → (invalid_option valid_policy_id policy_id ≡ false) ↔ IsValidDefault policy_id
  default_iff none = (λ e. tt, λ a. refl)
  default_iff (some policy_id) =
      let option = invalid_option_iff valid_policy_id (some policy_id) in
      let stable = policy_iff policy_id in (λ e. stable.0 (option.0 e), λ a. option.1 (stable.1 a))

  -- A table of bindings passes the validation exactly when it has the supported schema and at most 128
  -- routes, the default policy identifier, if any, and the identifiers of every binding are stable,
  -- every selector is valid, and no two bindings share a class or a canonical selector.
  pub validate_bindings_iff :
      (table : RouteRateLimitBindingTable)
      → (validate_table show table ≡ []) ↔ (
          (table.schema ≡ route_rate_limit_binding_schema)
          × (length table.routes ≤ max_route_rate_limit_bindings)
          × IsValidDefault table.default_policy_id
          × All IsValidBinding table.routes
          × IsDistinctBy class_of table.routes
          × IsDistinctBy key_of table.routes)
  unfolding validate_table
  validate_bindings_iff table =
      let schema =
        test_iff (bytes_eq table.schema route_rate_limit_binding_schema) "invalid-binding-schema"
          (codes "schema") "route binding schema identifier is not supported" in
      let same = bytes_eq_iff table.schema route_rate_limit_binding_schema in
      let few =
        report_iff (ltb max_route_rate_limit_bindings (length table.routes))
          "too-many-route-bindings" (codes "routes")
          "route binding table exceeds its bounded route count" in
      let bounded = le_iff (length table.routes) max_route_rate_limit_bindings in
      let reported =
        report_iff (invalid_option valid_policy_id table.default_policy_id) "invalid-policy-id"
          (codes "default_policy_id")
          "default_policy_id must be a bounded stable policy identifier" in
      let policy = default_iff table.default_policy_id in
      let routes = routes_iff 0 [] [] table.routes in
      let parts =
        six_nil [] []
          (report (not (bytes_eq table.schema route_rate_limit_binding_schema))
            "invalid-binding-schema" (codes "schema")
            "route binding schema identifier is not supported")
          (report (ltb max_route_rate_limit_bindings (length table.routes))
            "too-many-route-bindings" (codes "routes")
            "route binding table exceeds its bounded route count")
          (report (invalid_option valid_policy_id table.default_policy_id) "invalid-policy-id"
            (codes "default_policy_id")
            "default_policy_id must be a bounded stable policy identifier")
          (route_violations show 0 [] [] table.routes) in
      (
        λ e.
            let (_, _, a, b, c, r) = parts.0 e in
            let (vs, _, _, dc, dk) = routes.0 r in
            (same.0 (schema.0 a), bounded.0 (few.0 b), policy.0 (reported.0 c), vs, dc, dk),
        λ (s, n, p, vs, dc, dk). parts.1 (
          refl,
          refl,
          schema.1 (same.1 s),
          few.1 (bounded.1 n),
          reported.1 (policy.1 p),
          routes.1 (vs, AreNew-nil class_of table.routes, AreNew-nil key_of table.routes, dc, dk),
        ),
      )

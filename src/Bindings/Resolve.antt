-- ===== src/Bindings/Resolve.antt =====
-- `match_score` and `resolve` of src/rust/src/rate_limit_bindings.rs.
use ores_middleware.Prelude.Bytes.{Bytes, bytes_eq}
use ores_middleware.Prelude.{
  ℕ, ◌+◌, ◌*◌, ◌%◌, ◌⊎◌, inl, inr, Bool, false, not, List, [], ◌∷◌, map, Option, none, some, any,
  if◌then◌else◌,
}
use ores_middleware.Hardening.Fetch.{eq_ignore_ascii_case}
use ores_middleware.Ranking.{scan_by}
use ores_middleware.Routes.{option_eq}
use ores_middleware.Routes.Paths.{u32_mod}
use ores_middleware.Routes.Validation.{sort}
use ores_middleware.Bindings.Paths.{static_segment_count, path_template_matches}
use ores_middleware.Bindings.{
  RouteRateLimitBindingSelector, RouteRateLimitBinding, RouteRateLimitBindingTable,
  RouteRateLimitBindingRequest, Violations, validate_request, validate_table,
}

pub data RouteRateLimitBindingSource : Type 0 where
  route default : RouteRateLimitBindingSource

pub record ResolvedRouteRateLimitBinding : Type 0 where
  pub route_class_id : Option Bytes
  pub policy_id : Bytes
  pub source : RouteRateLimitBindingSource

pub data RouteRateLimitBindingResolutionError : Type 0 where
  invalid_table : Violations → RouteRateLimitBindingResolutionError
  invalid_request : Violations → RouteRateLimitBindingResolutionError
  ambiguous :
      (method path : Bytes) (operation_id : Option Bytes) (route_class_ids policy_ids : List Bytes)
      → RouteRateLimitBindingResolutionError

abbrev pub Resolution : Type 0
Resolution = RouteRateLimitBindingResolutionError ⊎ Option ResolvedRouteRateLimitBinding

-- The tests of `match_score`: whether a constraint of the selector excludes the request.
unfoldable pub method_excluded : List Bytes → Bytes → Bool
unfolding eq_ignore_ascii_case
method_excluded [] method = false
method_excluded (m ∷ methods) method =
    not (any (λ candidate. eq_ignore_ascii_case candidate method) (m ∷ methods))

unfoldable pub operation_excluded : Option Bytes → Option Bytes → Bool
unfolding option_eq
operation_excluded none requested = false
operation_excluded (some operation_id) requested = not (option_eq requested (some operation_id))

abbrev pub base_score : List Bytes → Option Bytes → ℕ
base_score methods operation_id =
    (elim methods [ [] ↦ 0 | _ ∷ _ ↦ 1 ]) + (elim operation_id [ none ↦ 0 | some _ ↦ 10000 ])

-- the part of the score that the template adds, which matches the path in any case
unfoldable pub template_score : ℕ → Option Bytes → RouteRateLimitBindingRequest → Option ℕ
unfolding option_eq static_segment_count path_template_matches
template_score base none request = some base
template_score base (some template) request =
    if not (path_template_matches template request.path)
    then none
    else some (
        (base
          + 100
          + static_segment_count template * 10
          + (if option_eq request.route_template (some template) then 5 else 0))
        % u32_mod)

unfoldable pub match_score : RouteRateLimitBindingSelector → RouteRateLimitBindingRequest → Option ℕ
unfolding method_excluded operation_excluded template_score
match_score selector request =
    if method_excluded selector.methods request.method
    then none
    else if operation_excluded selector.operation_id request.operation_id
    then none
    else template_score (base_score selector.methods selector.operation_id) selector.path_template
        request

abbrev pub score_of : RouteRateLimitBindingRequest → RouteRateLimitBinding → Option ℕ
score_of request binding = match_score binding.selector request

-- the loop of `resolve`
unfoldable pub scan :
    RouteRateLimitBindingRequest → List RouteRateLimitBinding → List RouteRateLimitBinding
unfolding match_score scan_by
scan request bindings = scan_by (score_of request) none [] bindings

-- `dedup`: of equal neighbours the first stays
unfoldable pub dedup_after : Bytes → List Bytes → List Bytes
unfolding bytes_eq
dedup_after last [] = []
dedup_after last (x ∷ xs) =
    let rest = dedup_after x xs in if bytes_eq x last then rest else x ∷ rest

unfoldable pub dedup : List Bytes → List Bytes
unfolding dedup_after
dedup [] = []
dedup (x ∷ xs) = x ∷ dedup_after x xs

-- what `resolve` returns for the bindings that are left
unfoldable pub decide_matches :
    Option Bytes → RouteRateLimitBindingRequest → List RouteRateLimitBinding → Resolution
unfolding dedup sort
decide_matches default_policy_id request [] = elim default_policy_id [
  | none ↦ inr none
  | some policy_id ↦
      inr (some (record { route_class_id = none; policy_id = policy_id; source = default }))
]
decide_matches default_policy_id request (binding ∷ []) = inr (
    some (record {
      route_class_id = some binding.route_class_id;
      policy_id = binding.policy_id;
      source = route;
    }))
decide_matches default_policy_id request (binding ∷ other ∷ many) = inl (
    ambiguous request.method request.path request.operation_id
      (dedup (sort (map (λ b. b.route_class_id) (binding ∷ other ∷ many))))
      (dedup (sort (map (λ b. b.policy_id) (binding ∷ other ∷ many)))))

-- the two early returns of `resolve`
unfoldable pub checked : Violations → Violations → Resolution → Resolution
checked (v ∷ table) request resolution = inl (invalid_table (v ∷ table))
checked [] (v ∷ request) resolution = inl (invalid_request (v ∷ request))
checked [] [] resolution = resolution

module _ (show : ℕ → Bytes) where
  unfoldable pub resolve : RouteRateLimitBindingTable → RouteRateLimitBindingRequest → Resolution
  unfolding validate_table validate_request scan decide_matches checked
  resolve table request =
      checked (validate_table show table) (validate_request request)
        (decide_matches table.default_policy_id request (scan request table.routes))

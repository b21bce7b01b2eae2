-- ===== src/Routes.antt =====
-- The rate limit rules of routes of src/rust/src/rate_limit_routes.rs. `show` stands for the decimal
-- digits of an index.
pub mod Paths
pub mod Validation
pub mod Validity
mod Templates
mod Resolution
mod Tests
use ores_middleware.Prelude.Bytes.{
  Bytes, codes, is_empty, is_ascii_uppercase, is_ascii_alphanumeric, bytes_eq, one_of,
}
use ores_middleware.Prelude.{
  ℕ, ◌+◌, ◌*◌, ◌%◌, ◌⊎◌, inl, inr, Bool, true, false, not, ◌&&◌, ◌||◌, List, [], ◌∷◌, ◌++◌, map,
  Option, none, some, String, ◌==◌, ltb, leb, length, all, any, if◌then◌else◌,
}
use ores_middleware.Hardening.Fetch.{eq_ignore_ascii_case}
use ores_middleware.Ranking.{scan_by}
use ores_middleware.Policy.{RateLimitPolicyV2, RateLimitPolicyViolation}
use ores_middleware.Policy
use ores_middleware.Routes.Paths.{
  u32_mod, static_segment_count, path_template_matches, validate_path_template,
}

pub record RateLimitRouteSelector : Type 0 where
  pub methods : List Bytes
  pub path_template : Option Bytes
  pub operation_id : Option Bytes

pub record RouteRateLimitRule : Type 0 where
  pub selector : RateLimitRouteSelector
  pub policy : RateLimitPolicyV2

pub record RouteRateLimitTable : Type 0 where
  pub default_policy : Option RateLimitPolicyV2
  pub routes : List RouteRateLimitRule

pub record RouteRateLimitRequest : Type 0 where
  pub method : Bytes
  pub path : Bytes
  pub route_template : Option Bytes
  pub operation_id : Option Bytes

pub data RouteRateLimitPolicySource : Type 0 where
  route default : RouteRateLimitPolicySource

pub record ResolvedRouteRateLimitPolicy : Type 0 where
  pub policy : RateLimitPolicyV2
  pub source : RouteRateLimitPolicySource

pub record RouteRateLimitViolation : Type 0 where
  pub code : String
  pub path : Bytes
  pub message : String

pub data RouteRateLimitResolutionError : Type 0 where
  ambiguous :
      (method path : Bytes) (operation_id : Option Bytes) (policy_ids : List Bytes)
      → RouteRateLimitResolutionError

unfoldable pub option_eq : Option Bytes → Option Bytes → Bool
unfolding bytes_eq
option_eq none none = true
option_eq (some a) (some b) = bytes_eq a b
option_eq _ _ = false

-- The three tests of `match_score`: whether a constraint of the selector excludes the request.
unfoldable pub method_excluded : List Bytes → Bytes → Bool
unfolding eq_ignore_ascii_case
method_excluded [] method = false
method_excluded (m ∷ methods) method =
    not (any (λ candidate. eq_ignore_ascii_case candidate method) (m ∷ methods))

abbrev pub operation_excluded : Option Bytes → Option Bytes → Bool
operation_excluded none requested = false
operation_excluded (some operation_id) requested = not (option_eq requested (some operation_id))

abbrev pub base_score : List Bytes → Option Bytes → ℕ
base_score methods operation_id =
    (elim methods [ [] ↦ 0 | _ ∷ _ ↦ 1 ]) + (elim operation_id [ none ↦ 0 | some _ ↦ 10000 ])

unfoldable pub match_score : RateLimitRouteSelector → RouteRateLimitRequest → Option ℕ
unfolding method_excluded option_eq static_segment_count path_template_matches
match_score selector request =
    if method_excluded selector.methods request.method
    then none
    else if operation_excluded selector.operation_id request.operation_id
    then none
    else elim selector.path_template [
      | none ↦ some (base_score selector.methods selector.operation_id)
      | some template ↦
          let registered : Bool = option_eq request.route_template (some template) in
          if not registered && not (path_template_matches template request.path)
          then none
          else some (
              (base_score selector.methods selector.operation_id
                + 100
                + static_segment_count template * 10
                + (if registered then 5 else 0))
              % u32_mod)
    ]

abbrev pub score_of : RouteRateLimitRequest → RouteRateLimitRule → Option ℕ
score_of request rule = match_score rule.selector request

-- the loop of `resolve`
unfoldable pub scan : RouteRateLimitRequest → List RouteRateLimitRule → List RouteRateLimitRule
unfolding match_score scan_by
scan request rules = scan_by (score_of request) none [] rules

-- what `resolve` returns for the rules that are left
unfoldable pub decide_matches :
    Option RateLimitPolicyV2
    → RouteRateLimitRequest
    → List RouteRateLimitRule
    → RouteRateLimitResolutionError ⊎ Option ResolvedRouteRateLimitPolicy
decide_matches default_policy request [] = elim default_policy [
  | none ↦ inr none
  | some policy ↦ inr (some (record { policy = policy; source = default }))
]
decide_matches default_policy request (rule ∷ []) =
    inr (some (record { policy = rule.policy; source = route }))
decide_matches default_policy request (rule ∷ other ∷ many) = inl (
    ambiguous request.method request.path request.operation_id
      (map (λ r. r.policy.policy_id) (rule ∷ other ∷ many)))

unfoldable pub resolve :
    RouteRateLimitTable
    → RouteRateLimitRequest
    → RouteRateLimitResolutionError ⊎ Option ResolvedRouteRateLimitPolicy
unfolding scan decide_matches
resolve table request = decide_matches table.default_policy request (scan request table.routes)

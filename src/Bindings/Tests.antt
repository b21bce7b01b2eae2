-- ===== src/Bindings/Tests.antt =====
-- Runs of src/rust/src/rate_limit_bindings.rs, and the theorems at concrete inputs. Every index is shown as 0.
use ores_middleware.Prelude.Bytes.{Bytes, codes}
use ores_middleware.Prelude.{
  ℕ, ◌<◌, ◌≤◌, ◌≡◌, ◌↔◌, refl, inl, inr, true, false, [], ◌∷◌, none, some, length, All,
}
use ores_middleware.Ranking.Winners.{winners_of}
use ores_middleware.Bindings.Paths.{stable_lower_id, validate_path_template}
use ores_middleware.Bindings.{
  RouteRateLimitBinding, RouteRateLimitBindingTable, RouteRateLimitBindingRequest,
  route_rate_limit_binding_schema, max_route_rate_limit_bindings, validate_request, validate_table,
}
use ores_middleware.Bindings.Resolve.{route, ambiguous, score_of, match_score, resolve}
use ores_middleware.Bindings.Identifiers.{IsStable, stable_lower_id_iff}
use ores_middleware.Bindings.Selectors.{IsDistinctBy}
use ores_middleware.Bindings.Valid.{
  IsValidBinding, IsValidDefault, class_of, key_of, validate_bindings_iff,
}
use ores_middleware.Bindings.Decided.{IsDecided, resolve-IsDecided}
use ores_middleware.Bindings.Ordered.{IsBelow, specificity}
use ores_middleware.Bindings.Specificity.{match_score-IsBelow}

abbrev show : ℕ → Bytes
show index = codes "0"

abbrev users : RouteRateLimitBinding
users = record {
  route_class_id = codes "users.read";
  policy_id = codes "read:users";
  selector = record {
    methods = codes "GET" ∷ [];
    path_template = some (codes "/users/{id}");
    operation_id = none;
  };
}

abbrev others : RouteRateLimitBinding
others = record {
  route_class_id = codes "other";
  policy_id = codes "p";
  selector = record {
    methods = codes "GET" ∷ [];
    path_template = some (codes "/users/:id");
    operation_id = none;
  };
}

abbrev table : RouteRateLimitBindingTable
table = record {
  schema = route_rate_limit_binding_schema;
  default_policy_id = some (codes "standard");
  routes = users ∷ [];
}

abbrev get_user : RouteRateLimitBindingRequest
get_user = record {
  method = codes "get";
  path = codes "/users/7?full";
  route_template = some (codes "/users/{id}");
  operation_id = none;
}

get_user_run :
    resolve show table get_user
    ≡ inr (
        some (record {
          route_class_id = some (codes "users.read");
          policy_id = codes "read:users";
          source = route;
        }))
unfolding resolve
get_user_run = refl

-- two bindings that tell the request apart from nothing
tie_run :
    resolve show
      (record table { routes = others ∷ users ∷ [] })
      (record get_user { route_template = none })
    ≡ inl (
        ambiguous
          (codes "get")
          (codes "/users/7?full")
          none
          (codes "other" ∷ codes "users.read" ∷ [])
          (codes "p" ∷ codes "read:users" ∷ []))
unfolding resolve
tie_run = refl

dots_run : validate_path_template (codes "/a/../b") ≡ some "dot-path-segment"
unfolding validate_path_template
dots_run = refl

stable_lower_id_iff_example :
    (stable_lower_id (codes "a1-b.c") 80 false ≡ true) ↔ IsStable (codes "a1-b.c") 80 false
stable_lower_id_iff_example = stable_lower_id_iff (codes "a1-b.c") 80 false

validate_bindings_iff_example : (validate_table show table ≡ []) ↔ (
    (table.schema ≡ route_rate_limit_binding_schema)
    × (length table.routes ≤ max_route_rate_limit_bindings)
    × IsValidDefault show table.default_policy_id
    × All IsValidBinding table.routes
    × IsDistinctBy class_of table.routes
    × IsDistinctBy key_of table.routes)
validate_bindings_iff_example = validate_bindings_iff show table

resolve-IsDecided_example :
    (validate_table show table ≡ [])
    × (validate_request get_user ≡ [])
    × IsDecided
        (some (codes "standard"))
        (winners_of (score_of get_user) (users ∷ []) (users ∷ []))
        (some (record {
          route_class_id = some (codes "users.read");
          policy_id = codes "read:users";
          source = route;
        }))
resolve-IsDecided_example =
    resolve-IsDecided show table get_user
      (some (record {
        route_class_id = some (codes "users.read");
        policy_id = codes "read:users";
        source = route;
      }))
      get_user_run

others_score : match_score others.selector get_user ≡ some 111
unfolding match_score
others_score = refl

users_score : match_score users.selector get_user ≡ some 116
unfolding match_score
users_score = refl

others_valid : validate_path_template (codes "/users/:id") ≡ none
unfolding validate_path_template
others_valid = refl

users_valid : validate_path_template (codes "/users/{id}") ≡ none
unfolding validate_path_template
users_valid = refl

match_score-IsBelow_example :
    (111 < 116)
    ↔ IsBelow (specificity others.selector get_user) (specificity users.selector get_user)
match_score-IsBelow_example =
    match_score-IsBelow others.selector users.selector get_user 111 116 others_valid users_valid
      others_score users_score

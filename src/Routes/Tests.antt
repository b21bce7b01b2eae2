-- ===== src/Routes/Tests.antt =====
-- Small tables of route rules for the theorems on them, and runs of the resolution.
use ores_middleware.Prelude.Bytes.{Bytes, codes}
use ores_middleware.Prelude.{ℕ, ◌≡◌, ◌↔◌, inr, refl, true, [], ◌∷◌, none, some, All}
use ores_middleware.Policy.{audit_for}
use ores_middleware.Policy.Posture.{auth_attempt, public_read}
use ores_middleware.Routes.Paths.{path_segments, before_query, path_template_matches, split_slashes}
use ores_middleware.Routes.{
  RouteRateLimitRule, RouteRateLimitTable, RouteRateLimitRequest, route, score_of, decide_matches,
  resolve,
}
use ores_middleware.Routes.Validation.{validate_table}
use ores_middleware.Routes.Validity.{IsValidDefault, IsValidRule, IsDistinct, validate_table_iff}
use ores_middleware.Routes.Templates.{
  Fits, IsSegment, join, path_template_matches_iff, split_slashes-join,
}
use ores_middleware.Ranking.Winners.{winners_of}
use ores_middleware.Routes.Resolution.{resolve-winners_of}

path_template_matches_iff_example :
    (path_template_matches (codes "/users/{id}/*") (codes "/users/7/a/b?x=1") ≡ true)
    ↔ Fits
        (path_segments (codes "/users/{id}/*"))
        (path_segments (before_query (codes "/users/7/a/b?x=1")))
path_template_matches_iff_example =
    path_template_matches_iff (codes "/users/{id}/*") (codes "/users/7/a/b?x=1")

users_match : path_template_matches (codes "/users/{id}/*") (codes "/users/7/a/b?x=1") ≡ true
unfolding path_template_matches
users_match = refl

split_slashes-join_example :
    (join (split_slashes (codes "a//b")) ≡ codes "a//b")
    × All IsSegment (split_slashes (codes "a//b"))
split_slashes-join_example = split_slashes-join (codes "a//b")

abbrev users : RouteRateLimitRule
users = record {
  selector = record {
    methods = [];
    path_template = some (codes "/users/{id}");
    operation_id = none;
  };
  policy = audit_for auth_attempt;
}

abbrev users_get : RouteRateLimitRule
users_get = record {
  selector = record {
    methods = codes "GET" ∷ [];
    path_template = some (codes "/users/{id}");
    operation_id = none;
  };
  policy = audit_for public_read;
}

abbrev table : RouteRateLimitTable
table = record { default_policy = none; routes = users ∷ users_get ∷ [] }

abbrev get_user : RouteRateLimitRequest
get_user = record {
  method = codes "get";
  path = codes "/users/7";
  route_template = none;
  operation_id = none;
}

resolve-winners_of_example :
    resolve table get_user
    ≡ decide_matches none get_user
        (winners_of (score_of get_user) (users ∷ users_get ∷ []) (users ∷ users_get ∷ []))
resolve-winners_of_example = resolve-winners_of get_user table

-- the rule with the method outranks the other
get_user_run :
    resolve table get_user ≡ inr (some (record { policy = audit_for public_read; source = route }))
unfolding resolve
get_user_run = refl

abbrev show : ℕ → Bytes
show index = codes "0"

validate_table_iff_example : (validate_table show table ≡ []) ↔ (
    IsValidDefault show none
    × All (IsValidRule show) (users ∷ users_get ∷ [])
    × IsDistinct show (users ∷ users_get ∷ []))
validate_table_iff_example = validate_table_iff show table

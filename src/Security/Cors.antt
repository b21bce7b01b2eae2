-- ===== src/Security/Cors.antt =====
-- `CorsStage` of src/rust/src/security.rs. The sets of the policy are the lists of their elements in
-- their order; `show` stands for the decimal digits of a number.
use ores_middleware.Prelude.Bytes.{
  Bytes, Bytes-discrete, codes, is_empty, to_ascii_lowercase, bytes_eq, one_of,
}
use ores_middleware.Prelude.Maps.{lookup, insert}
use ores_middleware.Prelude.Text.{trim}
use ores_middleware.Prelude.{
  ℕ, Bool, true, false, not, List, [], ◌∷◌, ◌++◌, map, Option, none, some, any, if◌then◌else◌,
}
use ores_middleware.Hardening.Fetch.{eq_ignore_ascii_case, find_header}
use ores_middleware.Principal.Values.{to_ascii_uppercase}
use ores_middleware.Routes.Validation.{bytes_leb}
use ores_middleware.Security.Cookies.{split_at}
use ores_middleware.Security.Csrf.{rejection}
use ores_middleware.Stage.{StageInput, StageResponse, StageDecision, continue, respond, reject}

pub record CorsPolicy : Type 0 where
  pub allowed_origins : List Bytes
  pub allowed_methods : List Bytes
  pub allowed_headers : List Bytes
  pub allow_credentials : Bool
  pub max_age_seconds : Option ℕ

unfoldable pub origin_allowed : CorsPolicy → Bytes → Bool
unfolding one_of
origin_allowed policy origin = one_of origin policy.allowed_origins

unfoldable pub method_allowed : CorsPolicy → Bytes → Bool
unfolding eq_ignore_ascii_case
method_allowed policy method =
    any (λ allowed. eq_ignore_ascii_case allowed method) policy.allowed_methods

unfoldable pub header_allowed : CorsPolicy → Bytes → Bool
unfolding eq_ignore_ascii_case
header_allowed policy header =
    any (λ allowed. eq_ignore_ascii_case allowed header) policy.allowed_headers

abbrev Headers : Type 0
Headers = List (Bytes × Bytes)

-- the trimmed parts between commas that are not empty
unfoldable pub comma_parts : List Bytes → List Bytes
unfolding trim
comma_parts [] = []
comma_parts (part ∷ parts) =
    let rest = comma_parts parts in if is_empty (trim part) then rest else trim part ∷ rest

unfoldable pub parse_comma_list : Bytes → List Bytes
unfolding split_at comma_parts to_ascii_lowercase
parse_comma_list value = map to_ascii_lowercase (comma_parts (split_at b',' value))

-- An insertion into an ordered map: the value of a key that is there is replaced, or kept.
unfoldable pub put : (replace : Bool) → Bytes → Bytes → Headers → Headers
unfolding bytes_eq bytes_leb
put replace k v [] = (k, v) ∷ []
put replace k v ((j, w) ∷ m) =
    let rest = put replace k v m in
    if bytes_eq j k
    then (j, if replace then v else w) ∷ m
    else if bytes_leb k j
    then (k, v) ∷ (j, w) ∷ m
    else (j, w) ∷ rest

unfoldable pub collect_values : Headers → List Bytes → Headers
unfolding put to_ascii_lowercase
collect_values values [] = values
collect_values values (part ∷ parts) =
    collect_values (put true (to_ascii_lowercase part) part values) parts

unfoldable pub add_names : Headers → List Bytes → Headers
unfolding put to_ascii_lowercase
add_names values [] = values
add_names values (name ∷ names) = add_names (put false (to_ascii_lowercase name) name values) names

-- `join(", ")`
unfoldable pub join_commas : List Bytes → Bytes
join_commas [] = []
join_commas (s ∷ []) = s
join_commas (s ∷ next ∷ texts) = s ++ codes ", " ++ join_commas (next ∷ texts)

-- what `merge_vary` writes for the values that it has
unfoldable pub write_vary : Headers → Headers → Headers
unfolding insert join_commas
write_vary [] headers = headers
write_vary (first ∷ values) headers =
    insert Bytes-discrete (codes "vary") (join_commas (map (λ value. value.1) (first ∷ values)))
      headers

unfoldable pub merge_vary : Headers → List Bytes → Headers
unfolding lookup collect_values comma_parts split_at add_names write_vary
merge_vary headers names =
    let present : Headers = elim (lookup Bytes-discrete (codes "vary") headers) [
      | none ↦ []
      | some value ↦ collect_values [] (comma_parts (split_at b',' value))
    ] in
    write_vary (add_names present names) headers

unfoldable pub apply_cors_headers : CorsPolicy → Bytes → Headers → Headers
unfolding insert merge_vary
apply_cors_headers policy origin headers =
    let with_origin : Headers =
      insert Bytes-discrete (codes "access-control-allow-origin") origin headers in
    merge_vary
      (if policy.allow_credentials
        then insert Bytes-discrete (codes "access-control-allow-credentials") (codes "true")
            with_origin
        else with_origin)
      (codes "origin" ∷ [])

module _ (show : ℕ → Bytes) (policy : CorsPolicy) where
  -- the two headers of the answer that depend on the policy
  unfoldable pub add_allow_headers : List Bytes → Headers → Headers
  unfolding insert join_commas to_ascii_lowercase
  add_allow_headers [] headers = headers
  add_allow_headers (name ∷ names) headers =
      insert Bytes-discrete (codes "access-control-allow-headers")
        (join_commas (map to_ascii_lowercase (name ∷ names))) headers

  unfoldable pub add_max_age : Option ℕ → Headers → Headers
  unfolding insert
  add_max_age none headers = headers
  add_max_age (some max_age) headers =
      insert Bytes-discrete (codes "access-control-max-age") (show max_age) headers

  -- the answer to a preflight request from an origin
  unfoldable pub preflight_response : Bytes → StageResponse
  unfolding apply_cors_headers insert join_commas to_ascii_uppercase add_allow_headers add_max_age
      merge_vary
  preflight_response origin =
      let with_methods : Headers =
        insert Bytes-discrete (codes "access-control-allow-methods")
          (join_commas (map to_ascii_uppercase policy.allowed_methods))
          (apply_cors_headers policy origin []) in
      record {
        status = 204;
        headers =
            merge_vary
              (add_max_age policy.max_age_seconds
                (add_allow_headers policy.allowed_headers with_methods))
              (codes "origin"
                ∷ codes "access-control-request-method"
                ∷ codes "access-control-request-headers"
                ∷ []);
        body = [];
      }

  module _ {Value : Type 0} (input : StageInput Value) where
    -- the headers that a preflight request asks for
    unfoldable pub requested_headers : List Bytes
    unfolding find_header parse_comma_list
    requested_headers =
        elim (find_header (codes "access-control-request-headers") input.request.headers) [
          | none ↦ []
          | some value ↦ parse_comma_list value
        ]

    -- what a preflight request for a method gets
    unfoldable pub preflight_decision : (origin method : Bytes) → StageDecision Value
    unfolding method_allowed header_allowed requested_headers preflight_response
    preflight_decision origin method =
        if not (method_allowed policy method)
        then reject
            (rejection (codes "cors_method_denied") (codes "requested CORS method is not allowed"))
        else if any (λ name. not (header_allowed policy name)) requested_headers
        then reject
            (rejection (codes "cors_header_denied") (codes "requested CORS header is not allowed"))
        else respond (preflight_response origin)

    unfoldable pub cors_request : StageDecision Value
    unfolding find_header origin_allowed eq_ignore_ascii_case preflight_decision
    cors_request = elim (find_header (codes "origin") input.request.headers) [
      | none ↦ continue input
      | some origin ↦
          if not (origin_allowed policy origin)
          then reject
              (rejection (codes "cors_origin_denied") (codes "request origin is not allowed"))
          else elim (find_header (codes "access-control-request-method") input.request.headers) [
            | none ↦ continue input
            | some method ↦
                if eq_ignore_ascii_case input.request.method (codes "OPTIONS")
                then preflight_decision origin method
                else continue input
          ]
    ]

    unfoldable pub cors_response : StageResponse → StageResponse
    unfolding find_header origin_allowed apply_cors_headers
    cors_response response = elim (find_header (codes "origin") input.request.headers) [
      | none ↦ response
      | some origin ↦
          if origin_allowed policy origin
          then record response { headers = apply_cors_headers policy origin response.headers }
          else response
    ]

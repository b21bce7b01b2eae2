-- ===== src/Security/Tests.antt =====
-- Concrete requests for the theorems on cross-site request forgery.
use ores_middleware.Prelude.Bytes.{Bytes, Bytes-discrete, codes}
use ores_middleware.Prelude.{
  some, not, any, false, ℕ, ◌≤◌, ◌≡◌, ◌↔◌, inl, inr, refl, true, [], ◌∷◌, none, length, ℕ_discrete,
}
use ores_middleware.Security.Cookies.{Cookies, max_csrf_cookie_header_bytes, parse_cookie_header}
use ores_middleware.Security.Csrf.{CsrfPolicy, default_csrf_policy, csrf_request}
use ores_middleware.Security.Parsed.{IsParsed, parse_cookie_header-IsParsed}
use ores_middleware.Security.Trusted.{IsTrusted, csrf_request_iff}
use ores_middleware.Stage.{StageInput, StageResponse, continue, respond}
use ores_middleware.Hardening.Fetch.{eq_ignore_ascii_case, find_header}
use ores_middleware.Prelude.Maps.{lookup}
use ores_middleware.Security.Cors.{
  CorsPolicy, origin_allowed, method_allowed, header_allowed, requested_headers, preflight_response,
  cors_request, cors_response,
}
use ores_middleware.Security.Origins.{cors_response-allow_origin, cors_request-preflight}

abbrev two_cookies : Cookies
two_cookies = (codes "a", codes "1") ∷ (codes "ores_csrf", codes "t") ∷ []

abbrev two_text : Bytes
two_text = codes "a=1;; ores_csrf = t"

two_run : parse_cookie_header two_text ≡ inr two_cookies
unfolding parse_cookie_header Bytes-discrete ℕ_discrete
two_run = refl

repeated_run : parse_cookie_header (codes "a=1; a=2") ≡ inl "csrf_cookie_ambiguous"
unfolding parse_cookie_header Bytes-discrete ℕ_discrete
repeated_run = refl

parse_cookie_header-IsParsed_example :
    (length two_text ≤ max_csrf_cookie_header_bytes) × IsParsed two_cookies
parse_cookie_header-IsParsed_example = parse_cookie_header-IsParsed two_text two_cookies two_run

abbrev policy : CsrfPolicy
policy = record default_csrf_policy { trusted_origins = codes "https://app" ∷ [] }

abbrev mutation : StageInput ℕ
mutation = record {
  request = record {
    method = codes "post";
    path = codes "/";
    headers =
        (codes "Cookie", two_text)
        ∷ (codes "Origin", codes "https://app")
        ∷ (codes "X-Ores-Csrf-Token", codes "t")
        ∷ [];
    remote_ip = none;
    content_length = none;
    transport_secure = true;
  };
  context = record {
    request_id = codes "r";
    trace_id = codes "t";
    span_id = none;
    tenant_id = none;
    user_id = none;
    locale = none;
    started_at_unix_ms = 0;
    deadline_unix_ms = none;
    baggage = [];
  };
  decoded_payload = none;
  attributes = [];
}

csrf_request_iff_example :
    (csrf_request policy mutation ≡ continue mutation) ↔ IsTrusted policy mutation
csrf_request_iff_example = csrf_request_iff policy mutation

mutation_run : csrf_request policy mutation ≡ continue mutation
unfolding csrf_request Bytes-discrete ℕ_discrete
mutation_run = refl

abbrev cors : CorsPolicy
cors = record {
  allowed_origins = codes "https://app" ∷ [];
  allowed_methods = codes "PUT" ∷ [];
  allowed_headers = codes "x-a" ∷ [];
  allow_credentials = true;
  max_age_seconds = none;
}

abbrev show : ℕ → Bytes
show n = codes "0"

abbrev plain : StageResponse
plain = record { status = 200; headers = []; body = [] }

cors_response-allow_origin_example :
    (lookup Bytes-discrete
        (codes "access-control-allow-origin")
        (cors_response show cors mutation plain).headers
      ≡ some (codes "https://app"))
    ↔ ((find_header (codes "origin") mutation.request.headers ≡ some (codes "https://app"))
        × (origin_allowed cors (codes "https://app") ≡ true))
unfolding lookup
cors_response-allow_origin_example =
    cors_response-allow_origin show cors mutation plain (codes "https://app") refl

-- a preflight request that is granted
abbrev preflight : StageInput ℕ
preflight = record mutation {
  request = record mutation.request {
    method = codes "OPTIONS";
    headers =
        (codes "Origin", codes "https://app")
        ∷ (codes "Access-Control-Request-Method", codes "put")
        ∷ (codes "Access-Control-Request-Headers", codes "X-A, ")
        ∷ [];
  };
}

preflight_run :
    cors_request show cors preflight ≡ respond (preflight_response show cors (codes "https://app"))
unfolding cors_request
preflight_run = refl

cors_request-preflight_example :
    (origin : Bytes) × (method : Bytes) × (find_header (codes "origin") preflight.request.headers
      ≡ some origin)
    × (origin_allowed cors origin ≡ true)
    × (eq_ignore_ascii_case preflight.request.method (codes "OPTIONS") ≡ true)
    × (find_header (codes "access-control-request-method") preflight.request.headers ≡ some method)
    × (method_allowed cors method ≡ true)
    × (any (λ name. not (header_allowed cors name)) (requested_headers show cors preflight) ≡ false)
    × ((preflight_response show cors (codes "https://app")).status ≡ 204)
    × (lookup Bytes-discrete
          (codes "access-control-allow-origin")
          (preflight_response show cors (codes "https://app")).headers
        ≡ some origin)
cors_request-preflight_example =
    cors_request-preflight show cors preflight (preflight_response show cors (codes "https://app"))
      preflight_run

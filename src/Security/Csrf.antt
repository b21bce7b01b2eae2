-- ===== src/Security/Csrf.antt =====
-- `CsrfStage` of src/rust/src/security.rs. The sets of the policy are the lists of their elements.
use ores_middleware.Prelude.Bytes.{Bytes, Bytes-discrete, codes, is_empty, bytes_eq, one_of}
use ores_middleware.Prelude.Maps.{lookup}
use ores_middleware.Prelude.{
  ◌⊎◌, inl, inr, Bool, true, false, not, ◌||◌, List, [], ◌∷◌, Option, none, some, String, any,
  if◌then◌else◌,
}
use ores_middleware.Hardening.Fetch.{eq_ignore_ascii_case, find_header}
use ores_middleware.Security.Cookies.{Cookies, parse_cookie_header}
use ores_middleware.Stage.{StageInput, StageRejection, StageDecision, continue, reject}

pub record CsrfPolicy : Type 0 where
  pub trusted_origins : List Bytes
  pub token_cookie_name : Bytes
  pub token_header_name : Bytes
  pub protected_cookie_names : List Bytes
  pub unsafe_methods : List Bytes

abbrev pub default_csrf_policy : CsrfPolicy
default_csrf_policy = record {
  trusted_origins = [];
  token_cookie_name = codes "ores_csrf";
  token_header_name = codes "x-ores-csrf-token";
  protected_cookie_names = [];
  unsafe_methods = codes "DELETE" ∷ codes "PATCH" ∷ codes "POST" ∷ codes "PUT" ∷ [];
}

unfoldable pub is_unsafe_method : CsrfPolicy → Bytes → Bool
unfolding eq_ignore_ascii_case
is_unsafe_method policy method =
    any (λ unsafe_method. eq_ignore_ascii_case unsafe_method method) policy.unsafe_methods

-- `contains_key`
abbrev pub has_cookie : Cookies → Bytes → Bool
has_cookie cookies name = elim (lookup Bytes-discrete name cookies) [ none ↦ false | some _ ↦ true ]

unfoldable pub uses_protected_cookie : CsrfPolicy → Cookies → Bool
unfolding lookup
uses_protected_cookie policy [] = false
uses_protected_cookie policy (cookie ∷ cookies) = elim policy.protected_cookie_names [
  | [] ↦ true
  | name ∷ names ↦ any (has_cookie (cookie ∷ cookies)) (name ∷ names)
]

-- The four tests on the tokens of the cookie and of the header.
unfoldable pub token_invalid : (cookie_token header_token : Option Bytes) → Bool
unfolding bytes_eq
token_invalid none header_token = true
token_invalid (some _) none = true
token_invalid (some a) (some b) = not (bytes_eq a b) || is_empty b

abbrev pub rejection : Bytes → Bytes → StageRejection
rejection code message = record { status = 403; code = code; message = message; headers = [] }

module _ {Value : Type 0} (policy : CsrfPolicy) (input : StageInput Value) where
  -- the cookies of the request, or the code of a cookie header that is refused
  unfoldable pub cookies_of : String ⊎ Cookies
  unfolding find_header parse_cookie_header
  cookies_of = elim (find_header (codes "cookie") input.request.headers) [
    | none ↦ inr []
    | some raw ↦ parse_cookie_header raw
  ]

  -- the tests of a request with a protected cookie
  unfoldable pub protected_decision : Cookies → StageDecision Value
  unfolding find_header one_of lookup token_invalid
  protected_decision cookies = elim (find_header (codes "origin") input.request.headers) [
    | none ↦ reject (
        rejection (codes "csrf_origin_required")
          (codes "unsafe cookie-authenticated requests require an origin"))
    | some origin ↦
        if not (one_of origin policy.trusted_origins)
        then reject (rejection (codes "csrf_origin_denied") (codes "request origin is not trusted"))
        else if token_invalid (lookup Bytes-discrete policy.token_cookie_name cookies)
            (find_header policy.token_header_name input.request.headers)
        then reject (rejection (codes "csrf_token_invalid") (codes "CSRF token validation failed"))
        else continue input
  ]

  unfoldable pub csrf_request : StageDecision Value
  unfolding is_unsafe_method cookies_of uses_protected_cookie protected_decision
  csrf_request =
      if not (is_unsafe_method policy input.request.method)
      then continue input
      else elim cookies_of [
        | inl code ↦ reject (record {
          status = 400;
          code = codes code;
          message = codes "cookie header is invalid or ambiguous";
          headers = [];
        })
        | inr cookies ↦
            if not (uses_protected_cookie policy cookies)
            then continue input
            else protected_decision cookies
      ]

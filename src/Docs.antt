-- ===== src/Docs.antt =====
-- The decision about a request for API documents of src/rust/src/docs_serving.rs.
pub mod Accept
mod Negotiated
mod Selected
mod Served
mod Protected
mod Tests
use ores_middleware.Prelude.Bytes.{
  Bytes, Bytes-discrete, codes, is_empty, is_ascii_lowercase, is_ascii_digit, bytes_eq, one_of,
}
use ores_middleware.Prelude.Maps.{insert}
use ores_middleware.Prelude.Text.{trim}
use ores_middleware.Prelude.{
  ℕ, ◌-◌, Bool, true, false, not, ◌&&◌, ◌||◌, List, [], ◌∷◌, ◌++◌, map, Option, none, some, ◌==◌,
  leb, length, all, ℕ_discrete, if◌then◌else◌,
}
use ores_middleware.Routes.Paths.{before_query}
use ores_middleware.Docs.Accept.{
  Representation, html, catalog, openapi, openrpc, connect, hyper_schema, Qualities,
  parse_representation, representation_eq, negotiate_generic, accepts_representation,
}

abbrev pub docs_format_header : Bytes
docs_format_header = codes "x-ores-docs-format"

abbrev pub contract_digest_header : Bytes
contract_digest_header = codes "x-ores-contract-sha256"

unfoldable pub content_type : Representation → Bytes
content_type html = codes "text/html; charset=utf-8"
content_type catalog = codes "application/vnd.ores.api-docs+json; charset=utf-8"
content_type openapi = codes "application/vnd.oai.openapi+json; charset=utf-8"
content_type openrpc = codes "application/openrpc+json; charset=utf-8"
content_type connect = codes "application/vnd.ores.connect+json; charset=utf-8"
content_type hyper_schema = codes "application/schema+json; charset=utf-8"

pub data Action : Type 0 where
  pass serve method_not_allowed not_acceptable stopped_for_evaluation : Action

pub record DocsRequest : Type 0 where
  pub method : Bytes
  pub path : Bytes
  pub accept : Option Bytes
  pub format : Option Bytes
  pub runtime_contract_digest : Option Bytes
  pub docs_contract_digest : Option Bytes

abbrev pub Headers : Type 0
Headers = List (Bytes × Bytes)

pub record DocsDecision : Type 0 where
  pub action : Action
  pub status : Option ℕ
  pub representation : Option Representation
  pub head_only : Bool
  pub headers : Headers

abbrev pub base_headers : Bytes → Headers
base_headers content =
    (codes "Cache-Control", codes "no-store")
    ∷ (codes "Pragma", codes "no-cache")
    ∷ (codes "X-Content-Type-Options", codes "nosniff")
    ∷ (codes "Referrer-Policy", codes "no-referrer")
    ∷ (codes "Permissions-Policy", codes "camera=(), microphone=(), geolocation=()")
    ∷ (codes "Vary", codes "Accept, " ++ docs_format_header)
    ∷ (codes "Content-Type", content)
    ∷ []

-- `chain` and `collect`: a later pair replaces an earlier one of its key
unfoldable pub with_headers : Headers → Headers → Headers
unfolding insert
with_headers base [] = base
with_headers base ((name, value) ∷ additions) =
    with_headers (insert Bytes-discrete name value base) additions

abbrev pub passed : DocsDecision
passed = record {
  action = pass;
  status = none;
  representation = none;
  head_only = false;
  headers = [];
}

unfoldable pub reject : Action → ℕ → Bool → DocsDecision
unfolding with_headers
reject action status allow = record {
  action = action;
  status = some status;
  representation = none;
  head_only = false;
  headers =
      with_headers (base_headers (codes "application/json; charset=utf-8"))
        (if allow then (codes "Allow", codes "GET, HEAD") ∷ [] else []);
}

-- `map(str::trim).filter(|value| !value.is_empty())`
unfoldable pub trimmed : Option Bytes → Option Bytes
unfolding trim
trimmed none = none
trimmed (some value) = if is_empty (trim value) then none else some (trim value)

abbrev pub content_security_policy : Bytes
content_security_policy =
    codes
      "default-src 'none'; style-src 'unsafe-inline'; img-src 'none'; frame-ancestors 'none'; base-uri 'none'; object-src 'none'; form-action 'none'; connect-src 'none'; script-src 'none'"

unfoldable pub html_headers : Representation → Headers
html_headers html =
    (codes "X-Frame-Options", codes "DENY")
    ∷ (codes "Content-Security-Policy", content_security_policy)
    ∷ []
html_headers _ = []

abbrev pub digest_headers : Option Bytes → Headers
digest_headers none = []
digest_headers (some digest) = (contract_digest_header, digest) ∷ []

unfoldable pub representation_headers : Representation → Option Bytes → Headers
unfolding content_type with_headers html_headers trimmed
representation_headers representation docs_digest =
    with_headers
      (with_headers (base_headers (content_type representation)) (html_headers representation))
      (digest_headers (trimmed docs_digest))

unfoldable pub fixed_representation : Bytes → Option Representation
unfolding bytes_eq
fixed_representation path =
    if bytes_eq path (codes "/api/docs.json") || bytes_eq path (codes "/api-docs.json")
    then some catalog
    else if bytes_eq path (codes "/openapi.json")
    then some openapi
    else if bytes_eq path (codes "/openrpc.json")
    then some openrpc
    else if bytes_eq path (codes "/connect.json")
    then some connect
    else if bytes_eq path (codes "/hyper-schema.json")
    then some hyper_schema
    else none

unfoldable pub is_generic_path : Bytes → Bool
unfolding one_of
is_generic_path path = one_of path (codes "/docs/api" ∷ codes "/api/docs" ∷ codes "/api-docs" ∷ [])

unfoldable pub valid_digest : Bytes → Bool
valid_digest value =
    length value == 64
    && all (λ byte. is_ascii_digit byte || (leb b'a' byte && leb byte b'f')) value

abbrev pub invalid_digest : Option Bytes → Bool
invalid_digest none = false
invalid_digest (some value) = not (valid_digest value)

-- `runtime.is_some_and(|expected| docs != Some(expected))`
unfoldable pub differs : Option Bytes → Option Bytes → Bool
unfolding bytes_eq
differs none docs = false
differs (some expected) none = true
differs (some expected) (some value) = not (bytes_eq value expected)

unfoldable pub digest_failure : Option Bytes → Option Bytes → Bool
unfolding trimmed valid_digest differs
digest_failure runtime_digest docs_digest =
    if invalid_digest (trimmed runtime_digest) || invalid_digest (trimmed docs_digest)
    then true
    else differs (trimmed runtime_digest) (trimmed docs_digest)

unfoldable pub to_ascii_uppercase : Bytes → Bytes
to_ascii_uppercase = map (λ c. if is_ascii_lowercase c then c - 32 else c)

-- what the format of a request is: absent, known, or none of the known ones
pub data Format : Type 0 where
  absent unknown : Format
  known : Representation → Format

abbrev pub known_format : Option Representation → Format
known_format none = unknown
known_format (some representation) = known representation

abbrev pub format_of : Option Bytes → Format
format_of none = absent
format_of (some value) = known_format (parse_representation value)

unfoldable pub read_format : Option Bytes → Format
unfolding trimmed parse_representation
read_format format = format_of (trimmed format)

module _ (f32 : Qualities) where
  -- the representation of a request, or `none` where the code rejects it
  unfoldable pub select : Option Representation → Format → Option Bytes → Option Representation
  unfolding representation_eq negotiate_generic
  select fixed unknown accept = none
  select none absent accept = negotiate_generic f32 accept
  select none (known representation) accept = some representation
  select (some value) absent accept = some value
  select (some value) (known selected) accept =
      if representation_eq selected value then some value else none

  -- the last check, and the decision to serve
  unfoldable pub serve_selected : DocsRequest → Option Representation → DocsDecision
  unfolding reject accepts_representation representation_headers to_ascii_uppercase bytes_eq
  serve_selected request none = reject not_acceptable 406 false
  serve_selected request (some representation) =
      if not (accepts_representation f32 request.accept representation)
      then reject not_acceptable 406 false
      else record {
        action = serve;
        status = some 200;
        representation = some representation;
        head_only = bytes_eq (to_ascii_uppercase request.method) (codes "HEAD");
        headers = representation_headers representation request.docs_contract_digest;
      }

  abbrev pub is_none : Option Representation → Bool
  is_none none = true
  is_none (some value) = false

  unfoldable pub decide : DocsRequest → DocsDecision
  unfolding before_query is_generic_path fixed_representation to_ascii_uppercase one_of reject
      digest_failure read_format select serve_selected
  decide request =
      let path : Bytes = before_query request.path in
      let generic : Bool = is_generic_path path in
      let fixed : Option Representation = fixed_representation path in
      if not generic && is_none fixed
      then passed
      else if not (one_of (to_ascii_uppercase request.method) (codes "GET" ∷ codes "HEAD" ∷ []))
      then reject method_not_allowed 405 true
      else if digest_failure request.runtime_contract_digest request.docs_contract_digest
      then reject stopped_for_evaluation 503 false
      else serve_selected request
          (select (if generic then none else fixed) (read_format request.format) request.accept)

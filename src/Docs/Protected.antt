-- ===== src/Docs/Protected.antt =====
-- The headers of the answers of src/rust/src/docs_serving.rs.
use ores_middleware.Prelude.Bytes.{Bytes, Bytes-discrete, codes, one_of}
use ores_middleware.Prelude.Maps.{lookup}
use ores_middleware.Prelude.{
  ℕ, ◌≡◌, ◌⊎◌, refl, inl, inr, Bool, true, false, not, ◌&&◌, [], ◌∷◌, map, Option, none, some,
  ℕ_discrete, Bool-cases, if◌then◌else◌,
}
use ores_middleware.Prelude.Text.{trim}
use ores_middleware.Security.Cookies.{split_at}
use ores_middleware.Routes.Paths.{before_query}
use ores_middleware.Docs.Accept.{
  Representation, html, catalog, openapi, openrpc, connect, hyper_schema, Qualities,
  accepts_representation, split_once,
}
use ores_middleware.Docs.{
  Headers, Action, DocsRequest, DocsDecision, passed, method_not_allowed, not_acceptable,
  stopped_for_evaluation, reject, trimmed, representation_headers, serve_selected, decide,
  with_headers, base_headers, digest_headers, digest_failure, select, is_none, is_generic_path,
  fixed_representation, read_format, to_ascii_uppercase, content_type, html_headers,
  content_security_policy,
}

abbrev pub header : Bytes → Headers → Option Bytes
header name headers = lookup Bytes-discrete name headers

-- A content security policy by its directives: the text between the semicolons, the first word of each the
-- name and the rest the sources. The first directive of a name counts.
abbrev pub directive : Bytes → Bytes → Option Bytes
directive name policy =
    lookup Bytes-discrete name (map (λ part. split_once b' ' (trim part)) (split_at b';' policy))

-- no scripts, by whichever directive, no plugins, and no framing
pub record Confines (policy : Bytes) : Type 0 where
  pub scripts : directive (codes "script-src") policy ≡ some (codes "'none'")
  pub script_elements : directive (codes "script-src-elem") policy ≡ none
  pub script_attributes : directive (codes "script-src-attr") policy ≡ none
  pub objects : directive (codes "object-src") policy ≡ some (codes "'none'")
  pub framing : directive (codes "frame-ancestors") policy ≡ some (codes "'none'")

-- no script of a served page runs, and no other page frames it
abbrev pub IsConfined : Option Representation → Headers → Type 0
IsConfined (some html) headers =
    ((policy : Bytes) × (header (codes "Content-Security-Policy") headers ≡ some policy)
      × Confines policy)
    × (header (codes "X-Frame-Options") headers ≡ some (codes "DENY"))
IsConfined _ headers = Unit

policy-Confines : Confines content_security_policy
unfolding lookup Bytes-discrete ℕ_discrete trim split_once split_at
policy-Confines = record {
  scripts = refl;
  script_elements = refl;
  script_attributes = refl;
  objects = refl;
  framing = refl;
}

-- not to be stored, nor to be sniffed
abbrev pub IsProtected : DocsDecision → Type 0
IsProtected d =
    (header (codes "Cache-Control") d.headers ≡ some (codes "no-store"))
    × (header (codes "X-Content-Type-Options") d.headers ≡ some (codes "nosniff"))
    × IsConfined d.representation d.headers

reject-IsProtected :
    (action : Action) (status : ℕ) (allow : Bool) → IsProtected (reject action status allow)
unfolding reject lookup Bytes-discrete ℕ_discrete
reject-IsProtected action status true = (refl, refl, tt)
reject-IsProtected action status false = (refl, refl, tt)

abbrev AreProtected : Representation → Headers → Type 0
AreProtected r headers =
    (header (codes "Cache-Control") headers ≡ some (codes "no-store"))
    × (header (codes "X-Content-Type-Options") headers ≡ some (codes "nosniff"))
    × IsConfined (some r) headers

with_digest :
    (r : Representation) (digest : Option Bytes)
    → AreProtected r (
        with_headers
          (with_headers (base_headers (content_type r)) (html_headers r))
          (digest_headers digest))
unfolding content_type with_headers html_headers lookup Bytes-discrete ℕ_discrete
with_digest html none = (refl, refl, ((content_security_policy, refl, policy-Confines), refl))
with_digest html (some digest) =
    (refl, refl, ((content_security_policy, refl, policy-Confines), refl))
with_digest catalog none = (refl, refl, tt)
with_digest catalog (some digest) = (refl, refl, tt)
with_digest openapi none = (refl, refl, tt)
with_digest openapi (some digest) = (refl, refl, tt)
with_digest openrpc none = (refl, refl, tt)
with_digest openrpc (some digest) = (refl, refl, tt)
with_digest connect none = (refl, refl, tt)
with_digest connect (some digest) = (refl, refl, tt)
with_digest hyper_schema none = (refl, refl, tt)
with_digest hyper_schema (some digest) = (refl, refl, tt)

headers_protected :
    (r : Representation) (digest : Option Bytes) → AreProtected r (representation_headers r digest)
unfolding representation_headers
headers_protected r digest = with_digest r (trimmed digest)

module _ (f32 : Qualities) where
  selected-IsProtected :
      (request : DocsRequest) (chosen : Option Representation)
      → IsProtected (serve_selected f32 request chosen)
  unfolding serve_selected
  selected-IsProtected request none = reject-IsProtected not_acceptable 406 false
  selected-IsProtected request (some r) =
      elim (Bool-cases (accepts_representation f32 request.accept r)) [
        | inl fine ↦ rw fine (headers_protected r request.docs_contract_digest)
        | inr out ↦ rw out (reject-IsProtected not_acceptable 406 false)
      ]

  gate-IsProtected :
      (outside allowed failed : Bool) (d : DocsDecision)
      → IsProtected d
      → let answer : DocsDecision =
          if outside
          then passed
          else if not allowed
          then reject method_not_allowed 405 true
          else if failed
          then reject stopped_for_evaluation 503 false
          else d in
        (answer ≡ passed) ⊎ IsProtected answer
  gate-IsProtected true allowed failed d p = inl refl
  gate-IsProtected false false failed d p = inr (reject-IsProtected method_not_allowed 405 true)
  gate-IsProtected false true true d p = inr (reject-IsProtected stopped_for_evaluation 503 false)
  gate-IsProtected false true false d p = inr p

  -- Every answer is that the request passes on, or is marked as not to be stored and not to be sniffed. A
  -- document served in HTML is marked not to be framed, and its content security policy has 'none' for the
  -- sources of scripts, of objects and of framing pages, with no other directive for script elements or
  -- attributes.
  pub decide-IsProtected :
      (request : DocsRequest) → (decide f32 request ≡ passed) ⊎ IsProtected (decide f32 request)
  unfolding decide
  decide-IsProtected request =
      let path = before_query request.path in
      let chosen =
        select f32 (if is_generic_path path then none else fixed_representation path)
          (read_format request.format) request.accept in
      gate-IsProtected (not (is_generic_path path) && is_none f32 (fixed_representation path))
        (one_of (to_ascii_uppercase request.method) (codes "GET" ∷ codes "HEAD" ∷ []))
        (digest_failure request.runtime_contract_digest request.docs_contract_digest)
        (serve_selected f32 request chosen) (selected-IsProtected request chosen)

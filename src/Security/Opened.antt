-- ===== src/Security/Opened.antt =====
-- The header of src/rust/src/security.rs that opens a response to an origin, under the others.
use ores_middleware.Prelude.Bytes.{Bytes, Bytes-discrete, codes, bytes_eq, bytes_eq_iff}
use ores_middleware.Prelude.Maps.{lookup, insert, lookup-insert_self, lookup-insert_ne}
use ores_middleware.Prelude.{
  ℕ, ◌≡◌, ◌≢◌, inl, inr, refl, sym, ◌∙◌, false, List, [], ◌∷◌, map, Option, none, some, Bool-cases,
}
use ores_middleware.Principal.Values.{to_ascii_uppercase}
use ores_middleware.Security.Cookies.{split_at}
use ores_middleware.Security.Cors.{
  CorsPolicy, merge_vary, apply_cors_headers, preflight_response, write_vary, add_max_age,
  add_allow_headers, add_names, collect_values, comma_parts, join_commas,
}

abbrev pub allow_origin : Bytes
allow_origin = codes "access-control-allow-origin"

different : (v w : Bytes) → bytes_eq v w ≡ false → v ≢ w
different v w h e = cc (sym h ∙ (bytes_eq_iff v w).1 e)

-- An insertion of another header leaves the one that opens the response.
insert_other :
    (name value : Bytes) (headers : List (Bytes × Bytes))
    → bytes_eq name allow_origin ≡ false
    → lookup Bytes-discrete allow_origin (insert Bytes-discrete name value headers)
      ≡ lookup Bytes-discrete allow_origin headers
insert_other name value headers h =
    lookup-insert_ne Bytes-discrete name allow_origin value headers (different name allow_origin h)

written_other :
    (values headers : List (Bytes × Bytes))
    → lookup Bytes-discrete allow_origin (write_vary values headers)
      ≡ lookup Bytes-discrete allow_origin headers
unfolding write_vary bytes_eq
written_other [] headers = refl
written_other (first ∷ values) headers =
    insert_other (codes "vary") (join_commas (map (λ value. value.1) (first ∷ values))) headers refl

merge_vary_other :
    (headers : List (Bytes × Bytes)) (names : List Bytes)
    → lookup Bytes-discrete allow_origin (merge_vary headers names)
      ≡ lookup Bytes-discrete allow_origin headers
unfolding merge_vary
merge_vary_other headers names =
    written_other
      (add_names
        (elim (lookup Bytes-discrete (codes "vary") headers) [
          | none ↦ []
          | some value ↦ collect_values [] (comma_parts (split_at b',' value))
        ])
        names)
      headers

pub apply_cors_headers_opens :
    (policy : CorsPolicy) (origin : Bytes) (headers : List (Bytes × Bytes))
    → lookup Bytes-discrete allow_origin (apply_cors_headers policy origin headers) ≡ some origin
unfolding apply_cors_headers bytes_eq
apply_cors_headers_opens policy origin headers =
    merge_vary_other _ (codes "origin" ∷ []) ∙ (elim (Bool-cases policy.allow_credentials) [
      | inl allowed ↦ rw allowed (
          insert_other (codes "access-control-allow-credentials") (codes "true") _ refl
          ∙ lookup-insert_self Bytes-discrete allow_origin origin headers)
      | inr bare ↦ rw bare (lookup-insert_self Bytes-discrete allow_origin origin headers)
    ])

add_max_age_other :
    (show : ℕ → Bytes) (policy : CorsPolicy) (max_age : Option ℕ) (headers : List (Bytes × Bytes))
    → lookup Bytes-discrete allow_origin (add_max_age show policy max_age headers)
      ≡ lookup Bytes-discrete allow_origin headers
unfolding add_max_age bytes_eq
add_max_age_other show policy none headers = refl
add_max_age_other show policy (some max_age) headers =
    insert_other (codes "access-control-max-age") (show max_age) headers refl

add_allow_headers_other :
    (show : ℕ → Bytes) (policy : CorsPolicy) (names : List Bytes) (headers : List (Bytes × Bytes))
    → lookup Bytes-discrete allow_origin (add_allow_headers show policy names headers)
      ≡ lookup Bytes-discrete allow_origin headers
unfolding add_allow_headers bytes_eq
add_allow_headers_other show policy [] headers = refl
add_allow_headers_other show policy (name ∷ names) headers =
    insert_other (codes "access-control-allow-headers") _ headers refl

pub preflight_opens :
    (show : ℕ → Bytes) (policy : CorsPolicy) (origin : Bytes)
    → lookup Bytes-discrete allow_origin (preflight_response show policy origin).headers
      ≡ some origin
unfolding preflight_response bytes_eq
preflight_opens show policy origin =
    merge_vary_other _ (
      codes "origin"
      ∷ codes "access-control-request-method"
      ∷ codes "access-control-request-headers"
      ∷ [])
    ∙ add_max_age_other show policy policy.max_age_seconds _
    ∙ add_allow_headers_other show policy policy.allowed_headers _
    ∙ insert_other (codes "access-control-allow-methods")
        (join_commas (map to_ascii_uppercase policy.allowed_methods))
        (apply_cors_headers policy origin []) refl
    ∙ apply_cors_headers_opens policy origin []

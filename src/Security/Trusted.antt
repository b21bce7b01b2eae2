-- ===== src/Security/Trusted.antt =====
-- Which requests `CsrfStage` of src/rust/src/security.rs lets through.
use ores_middleware.Prelude.Bytes.{
  Bytes, Bytes-discrete, codes, is_empty, bytes_eq, bytes_eq_iff, one_of,
}
use ores_middleware.Prelude.Maps.{lookup, some_inj}
use ores_middleware.Prelude.{
  ◌≡◌, ◌≢◌, ◌⊎◌, ◌↔◌, inl, inr, refl, sym, ap, ◌∙◌, true, false, [], ◌∷◌, Option, none, some,
  Bool-cases, Option-cases, Sum-cases, String,
}
use ores_middleware.Hardening.Fetch.{find_header}
use ores_middleware.Security.Cookies.{Cookies}
use ores_middleware.Security.Csrf.{
  CsrfPolicy, is_unsafe_method, uses_protected_cookie, token_invalid, cookies_of,
  protected_decision, csrf_request,
}
use ores_middleware.Stage.{StageInput, continue}

inr_inj : {a b : Cookies} → ◌≡◌ {A = String ⊎ Cookies} (inr a) (inr b) → a ≡ b
inr_inj e = cc

is_empty_iff : (s : Bytes) → (is_empty s ≡ false) ↔ (s ≢ [])
is_empty_iff [] = (λ e. absurd (cc e), λ ne. absurd (ne refl))
is_empty_iff (c ∷ s) = (λ e h. cc h, λ ne. refl)

-- The same token that is not empty stands in both places.
token_invalid_iff :
    (a b : Option Bytes)
    → (token_invalid a b ≡ false)
      ↔ ((token : Bytes) × (a ≡ some token) × (b ≡ some token) × (token ≢ []))
unfolding token_invalid
token_invalid_iff none b = (λ e. absurd (cc e), λ h. absurd (cc h.1))
token_invalid_iff (some a) none = (λ e. absurd (cc e), λ h. absurd (cc h.2))
token_invalid_iff (some a) (some b) = (
  λ e. elim (Bool-cases (bytes_eq a b)) [
    | inl same ↦
        let is : a ≡ b = (bytes_eq_iff a b).0 same in
        (b, ap some is, refl, (is_empty_iff b).0 (rw same at e))
    | inr other ↦ absurd (cc (rw other at e))
  ],
  λ h.
      let (token, is_a, is_b, full) = h in
      rw
        (
          some_inj is_a,
          some_inj is_b,
          (bytes_eq_iff token token).1 refl,
          (is_empty_iff token).1 full,
        )
        refl,
)

module _ {Value : Type 0} (policy : CsrfPolicy) (input : StageInput Value) where
  abbrev header : Bytes → Option Bytes
  header name = find_header name input.request.headers

  -- The origin is trusted, and the token of the cookie is that of the header.
  abbrev pub IsProven : Cookies → Type 0
  IsProven cookies =
      (origin : Bytes) × (token : Bytes) × (header (codes "origin") ≡ some origin)
      × (one_of origin policy.trusted_origins ≡ true)
      × (lookup Bytes-discrete policy.token_cookie_name cookies ≡ some token)
      × (header policy.token_header_name ≡ some token)
      × (token ≢ [])

  -- A request that the stage lets through: one that changes nothing; one whose cookies can be read and
  -- need no protection; or one that proves where it comes from.
  abbrev pub IsTrusted : Type 0
  IsTrusted =
      (is_unsafe_method policy input.request.method ≡ false)
      ⊎ ((cookies : Cookies) × (cookies_of policy input ≡ inr cookies)
          × ((uses_protected_cookie policy cookies ≡ false) ⊎ IsProven cookies))

  protected_decision_iff :
      (cookies : Cookies)
      → (protected_decision policy input cookies ≡ continue input) ↔ IsProven cookies
  unfolding protected_decision
  protected_decision_iff cookies =
      let tokens =
        token_invalid_iff (lookup Bytes-discrete policy.token_cookie_name cookies)
          (header policy.token_header_name) in
      elim (Option-cases (header (codes "origin"))) [
        | inl absent ↦ (
          λ e. absurd (cc (rw (protected_decision, absent) at e)),
          λ h. absurd (cc (sym absent ∙ h.2)),
        )
        | inr (origin, present) ↦ elim (Bool-cases (one_of origin policy.trusted_origins)) [
          | inr denied ↦ (
            λ e. absurd (cc (rw (protected_decision, present, denied) at e)),
            λ h.
                let same : h.0 ≡ origin = some_inj (sym h.2 ∙ present) in
                absurd (cc (sym denied ∙ rw same at h.3)),
          )
          | inl trusted ↦ (
            λ e.
                elim (Bool-cases (
                  token_invalid (lookup Bytes-discrete policy.token_cookie_name cookies)
                    (header policy.token_header_name))) [
                      | inl bad ↦ absurd (cc (rw (protected_decision, present, trusted, bad) at e))
                      | inr good ↦
                          let (token, a, b, full) = tokens.0 good in
                          (origin, token, present, trusted, a, b, full)
                    ],
            λ h. rw (protected_decision, present, trusted, tokens.1 (h.1, h.4, h.5, h.6)) refl,
          )
        ]
      ]

  -- The stage lets a request through, and then without any change, exactly when it is trusted.
  pub csrf_request_iff : (csrf_request policy input ≡ continue input) ↔ IsTrusted
  unfolding csrf_request
  csrf_request_iff = elim (Bool-cases (is_unsafe_method policy input.request.method)) [
    | inr safe ↦ (λ e. inl safe, λ h. rw (csrf_request, safe) refl)
    | inl unsafe ↦ elim (Sum-cases (cookies_of policy input)) [
      | inl (code, refused) ↦ (
        λ e. absurd (cc (rw (csrf_request, unsafe, refused) at e)),
        λ h. absurd (elim h [
          | inl no_change ↦ cc (sym no_change ∙ unsafe)
          | inr (cookies, read, _) ↦ cc (sym refused ∙ read)
        ]),
      )
      | inr (cookies, read) ↦ elim (Bool-cases (uses_protected_cookie policy cookies)) [
        | inr bare ↦
            (λ e. inr (cookies, read, inl bare), λ h. rw (csrf_request, unsafe, read, bare) refl)
        | inl protected ↦ (
          λ e. inr (
            cookies,
            read,
            inr (
                (protected_decision_iff cookies).0
                  (rw (csrf_request, unsafe, read, protected) at e)),
          ),
          λ h. elim h [
            | inl safe ↦ absurd (cc (sym safe ∙ unsafe))
            | inr (others, read', how) ↦
                let same : others ≡ cookies = inr_inj (sym read' ∙ read) in
                elim how [
                  | inl bare ↦ absurd (cc (sym protected ∙ rw same at bare))
                  | inr proven ↦
                      rw (csrf_request, unsafe, read, protected)
                        ((protected_decision_iff cookies).1 (rw same at proven))
                ]
          ],
        )
      ]
    ]
  ]

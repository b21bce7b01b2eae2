-- ===== src/Security/Origins.antt =====
-- To which origins `CorsStage` of src/rust/src/security.rs opens a response.
use ores_middleware.Prelude.Bytes.{Bytes, Bytes-discrete, codes}
use ores_middleware.Prelude.Maps.{lookup, some_inj}
use ores_middleware.Prelude.{
  ℕ, ◌≡◌, ◌↔◌, inl, inr, refl, sym, ◌∙◌, true, false, not, none, some, any, Bool-cases,
  Option-cases,
}
use ores_middleware.Hardening.Fetch.{eq_ignore_ascii_case, find_header}
use ores_middleware.Security.Cors.{
  CorsPolicy, origin_allowed, method_allowed, header_allowed, preflight_response, requested_headers,
  preflight_decision, cors_request, cors_response,
}
use ores_middleware.Security.Csrf.{rejection}
use ores_middleware.Stage.{StageInput, StageResponse, StageDecision, continue, respond, reject}
use ores_middleware.Security.Opened.{allow_origin, apply_cors_headers_opens, preflight_opens}

preflight_status :
    (show : ℕ → Bytes) (policy : CorsPolicy) (origin : Bytes)
    → (preflight_response show policy origin).status ≡ 204
unfolding preflight_response
preflight_status show policy origin = refl

respond_inj :
    {Value : Type 0} {a b : StageResponse}
    → ◌≡◌ {A = StageDecision Value} (respond a) (respond b)
    → a ≡ b
respond_inj e = cc

module _ {Value : Type 0} (show : ℕ → Bytes) (policy : CorsPolicy) (input : StageInput Value) where
  -- A response that no other stage opened is opened by this one exactly to an origin that the request
  -- names and the policy allows.
  pub cors_response-allow_origin :
      (response : StageResponse) (origin : Bytes)
      → lookup Bytes-discrete allow_origin response.headers ≡ none
      → (lookup Bytes-discrete allow_origin (cors_response show policy input response).headers
          ≡ some origin)
        ↔ ((find_header (codes "origin") input.request.headers ≡ some origin)
            × (origin_allowed policy origin ≡ true))
  unfolding cors_response
  cors_response-allow_origin response origin closed =
      elim (Option-cases (find_header (codes "origin") input.request.headers)) [
        | inl absent ↦ (
          λ e. absurd (cc (sym closed ∙ rw (cors_response, absent) at e)),
          λ h. absurd (cc (sym absent ∙ h.0)),
        )
        | inr (named, present) ↦ elim (Bool-cases (origin_allowed policy named)) [
          | inl allowed ↦ (
            λ e.
                let opened : some named ≡ some origin =
                  sym (apply_cors_headers_opens policy named response.headers)
                  ∙ rw (cors_response, present, allowed) at e in
                (present ∙ opened, rw (← some_inj opened) allowed),
            λ h.
                rw (cors_response, present, allowed)
                  (apply_cors_headers_opens policy named response.headers ∙ sym present ∙ h.0),
          )
          | inr denied ↦ (
            λ e. absurd (cc (sym closed ∙ rw (cors_response, present, denied) at e)),
            λ h.
                let same : named ≡ origin = some_inj (sym present ∙ h.0) in
                absurd (cc (sym h.1 ∙ rw same at denied)),
          )
        ]
      ]

  undecided :
      find_header (codes "origin") input.request.headers ≡ none
      → cors_request show policy input ≡ continue input
  unfolding cors_request
  undecided absent = rw (cors_request, absent) refl

  module _ (origin : Bytes)
      (present : find_header (codes "origin") input.request.headers ≡ some origin) where
    origin_denied :
        origin_allowed policy origin ≡ false
        → cors_request show policy input
          ≡ reject (rejection (codes "cors_origin_denied") (codes "request origin is not allowed"))
    unfolding cors_request
    origin_denied denied = rw (cors_request, present, denied) refl

    no_method :
        origin_allowed policy origin ≡ true
        → find_header (codes "access-control-request-method") input.request.headers ≡ none
        → cors_request show policy input ≡ continue input
    unfolding cors_request
    no_method allowed simple = rw (cors_request, present, allowed, simple) refl

  module _ (origin method : Bytes)
      (present : find_header (codes "origin") input.request.headers ≡ some origin)
      (allowed : origin_allowed policy origin ≡ true)
      (asked : find_header (codes "access-control-request-method") input.request.headers
        ≡ some method) where
    no_options :
        eq_ignore_ascii_case input.request.method (codes "OPTIONS") ≡ false
        → cors_request show policy input ≡ continue input
    unfolding cors_request
    no_options other = rw (cors_request, present, allowed, asked, other) refl

    preflight :
        eq_ignore_ascii_case input.request.method (codes "OPTIONS") ≡ true
        → cors_request show policy input ≡ preflight_decision show policy input origin method
    unfolding cors_request
    preflight options = rw (cors_request, present, allowed, asked, options) refl

  preflight_answered :
      (origin method : Bytes) (response : StageResponse)
      → preflight_decision show policy input origin method ≡ respond response
      → (method_allowed policy method ≡ true)
        × (any (λ name. not (header_allowed policy name)) (requested_headers show policy input)
            ≡ false)
        × (response.status ≡ 204)
        × (lookup Bytes-discrete allow_origin response.headers ≡ some origin)
  unfolding preflight_decision
  preflight_answered origin method response e = elim (Bool-cases (method_allowed policy method)) [
    | inr denied ↦ absurd (cc (rw (preflight_decision, denied) at e))
    | inl granted ↦
        elim (Bool-cases
          (any (λ name. not (header_allowed policy name)) (requested_headers show policy input))) [
            | inl refused ↦ absurd (cc (rw (preflight_decision, granted, refused) at e))
            | inr good ↦
                let same : preflight_response show policy origin ≡ response =
                  respond_inj (rw (preflight_decision, granted, good) at e) in
                (
                  granted,
                  good,
                  rw (← same) (preflight_status show policy origin),
                  rw (← same) (preflight_opens show policy origin),
                )
          ]
  ]

  -- A request is answered by this stage only if it is a preflight request: its origin is allowed, its
  -- method is OPTIONS, the method and the headers that it asks for are allowed; and the answer has the
  -- status 204 and opens to that origin.
  pub cors_request-preflight :
      (response : StageResponse)
      → cors_request show policy input ≡ respond response
      → (origin : Bytes) × (method : Bytes) × (find_header (codes "origin") input.request.headers
          ≡ some origin)
        × (origin_allowed policy origin ≡ true)
        × (eq_ignore_ascii_case input.request.method (codes "OPTIONS") ≡ true)
        × (find_header (codes "access-control-request-method") input.request.headers ≡ some method)
        × (method_allowed policy method ≡ true)
        × (any (λ name. not (header_allowed policy name)) (requested_headers show policy input)
            ≡ false)
        × (response.status ≡ 204)
        × (lookup Bytes-discrete allow_origin response.headers ≡ some origin)
  cors_request-preflight response e =
      elim (Option-cases (find_header (codes "origin") input.request.headers)) [
        | inl absent ↦ absurd (cc (sym (undecided absent) ∙ e))
        | inr (origin, present) ↦ elim (Bool-cases (origin_allowed policy origin)) [
          | inr denied ↦ absurd (cc (sym (origin_denied origin present denied) ∙ e))
          | inl allowed ↦
              elim (Option-cases
                (find_header (codes "access-control-request-method") input.request.headers)) [
                  | inl simple ↦ absurd (cc (sym (no_method origin present allowed simple) ∙ e))
                  | inr (method, asked) ↦
                      elim (Bool-cases
                        (eq_ignore_ascii_case input.request.method (codes "OPTIONS"))) [
                          | inr other ↦
                              absurd (
                                cc (sym (no_options origin method present allowed asked other) ∙ e))
                          | inl options ↦
                              let (m, h, s, o) =
                                preflight_answered origin method response (
                                  sym (preflight origin method present allowed asked options)
                                  ∙ e) in
                              (origin, method, present, allowed, options, asked, m, h, s, o)
                        ]
                ]
        ]
      ]

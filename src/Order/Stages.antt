-- ===== src/Order/Stages.antt =====
-- `MiddlewareStage` of src/rust/src/middleware_order.rs, with its names and its equality.
use ores_middleware.Prelude.Bytes.{Bytes, codes}
use ores_middleware.Prelude.{
  ℕ, zero, suc, List, [], ◌∷◌, ◌≡◌, refl, sym, ap, ◌∙◌, Bool, true, ◌==◌, ==_iff,
}

pub data MiddlewareStage : Type 0 where
  panic_boundary : MiddlewareStage
  deadline : MiddlewareStage
  request_id : MiddlewareStage
  trace_context : MiddlewareStage
  trusted_proxy : MiddlewareStage
  transport_security : MiddlewareStage
  payload_limit : MiddlewareStage
  anonymous_flood_guard : MiddlewareStage
  authentication : MiddlewareStage
  principal_rate_limit : MiddlewareStage
  authorization : MiddlewareStage
  idempotency : MiddlewareStage
  quota_admission : MiddlewareStage
  handler : MiddlewareStage
  response_compression : MiddlewareStage
  security_headers : MiddlewareStage
  telemetry_finalize : MiddlewareStage

abbrev pub as_str : MiddlewareStage → Bytes
as_str panic_boundary = codes "panic-boundary"
as_str deadline = codes "deadline"
as_str request_id = codes "request-id"
as_str trace_context = codes "trace-context"
as_str trusted_proxy = codes "trusted-proxy"
as_str transport_security = codes "transport-security"
as_str payload_limit = codes "payload-limit"
as_str anonymous_flood_guard = codes "anonymous-flood-guard"
as_str authentication = codes "authentication"
as_str principal_rate_limit = codes "principal-rate-limit"
as_str authorization = codes "authorization"
as_str idempotency = codes "idempotency"
as_str quota_admission = codes "quota-admission"
as_str handler = codes "handler"
as_str response_compression = codes "response-compression"
as_str security_headers = codes "security-headers"
as_str telemetry_finalize = codes "telemetry-finalize"

-- the discriminant, which the derived `==` compares
abbrev pub discriminant : MiddlewareStage → ℕ
discriminant panic_boundary = 0
discriminant deadline = 1
discriminant request_id = 2
discriminant trace_context = 3
discriminant trusted_proxy = 4
discriminant transport_security = 5
discriminant payload_limit = 6
discriminant anonymous_flood_guard = 7
discriminant authentication = 8
discriminant principal_rate_limit = 9
discriminant authorization = 10
discriminant idempotency = 11
discriminant quota_admission = 12
discriminant handler = 13
discriminant response_compression = 14
discriminant security_headers = 15
discriminant telemetry_finalize = 16

unfoldable pub same_stage : MiddlewareStage → MiddlewareStage → Bool
same_stage s t = discriminant s == discriminant t

nth : ℕ → List MiddlewareStage → MiddlewareStage
nth zero (s ∷ _) = s
nth (suc n) (_ ∷ rest) = nth n rest
nth _ [] = panic_boundary

stage_at : ℕ → MiddlewareStage
unfolding nth
stage_at n = nth n (
    panic_boundary ∷ deadline ∷ request_id ∷ trace_context ∷ trusted_proxy ∷ transport_security
    ∷ payload_limit ∷ anonymous_flood_guard ∷ authentication ∷ principal_rate_limit ∷ authorization
    ∷ idempotency ∷ quota_admission ∷ handler ∷ response_compression ∷ security_headers
    ∷ telemetry_finalize ∷ [])

stage_at-discriminant : (s : MiddlewareStage) → stage_at (discriminant s) ≡ s
unfolding stage_at nth
stage_at-discriminant panic_boundary = refl
stage_at-discriminant deadline = refl
stage_at-discriminant request_id = refl
stage_at-discriminant trace_context = refl
stage_at-discriminant trusted_proxy = refl
stage_at-discriminant transport_security = refl
stage_at-discriminant payload_limit = refl
stage_at-discriminant anonymous_flood_guard = refl
stage_at-discriminant authentication = refl
stage_at-discriminant principal_rate_limit = refl
stage_at-discriminant authorization = refl
stage_at-discriminant idempotency = refl
stage_at-discriminant quota_admission = refl
stage_at-discriminant handler = refl
stage_at-discriminant response_compression = refl
stage_at-discriminant security_headers = refl
stage_at-discriminant telemetry_finalize = refl

pub same_stage_sound : (s t : MiddlewareStage) → same_stage s t ≡ true → s ≡ t
unfolding same_stage
same_stage_sound s t h =
    sym (stage_at-discriminant s)
    ∙ ap stage_at ((==_iff (discriminant s) (discriminant t)).0 h)
    ∙ stage_at-discriminant t

pub same_stage_refl : (s : MiddlewareStage) → same_stage s s ≡ true
unfolding same_stage
same_stage_refl s = (==_iff (discriminant s) (discriminant s)).1 refl

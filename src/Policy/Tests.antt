-- ===== src/Policy/Tests.antt =====
-- The theorems on `RateLimitPolicyV2` (src/rust/src/rate_limit_v2.rs) at concrete policies.
use ores_middleware.Prelude.{◌≡◌, inl, refl, []}
use ores_middleware.Policy.Posture.{public_read, mutation, cloudflare_edge}
use ores_middleware.Policy.{RateLimitPolicyV2, enforce, audit_for, validate}
use ores_middleware.Policy.Soundness.{IsCoordinated, audit_for_valid, validate-IsCoordinated}

-- public reads, enforced at the edge
abbrev edge_policy : RateLimitPolicyV2
unfolding audit_for
edge_policy = record (audit_for public_read) { layer = cloudflare_edge; enforcement_mode = enforce }

edge_policy-valid : validate edge_policy ≡ []
unfolding validate audit_for
edge_policy-valid = refl

validate-IsCoordinated_example : IsCoordinated (audit_for mutation)
unfolding audit_for
validate-IsCoordinated_example =
    validate-IsCoordinated (audit_for mutation) (audit_for_valid mutation) (inl refl)

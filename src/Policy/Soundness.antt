-- ===== src/Policy/Soundness.antt =====
-- What a policy that `RateLimitPolicyV2::validate` of src/rust/src/rate_limit_v2.rs accepts promises.
use ores_middleware.Prelude.{
  append-eq_nil, ◌≡◌, ◌⊎◌, inl, inr, refl, Bool, true, false, not, ◌&&◌, ◌||◌, List, [], ◌++◌,
  String, Bool-cases, arith,
}
use ores_middleware.Policy.Posture.{
  RateLimitConsistency, strict, bounded, advisory, RateLimitFailureMode, fail_open, fail_closed,
  local_only, OperationClass, health_read, public_read, auth_attempt, auth_recovery, mutation,
  payment_or_ledger_write, job_admission, rate_limit_posture, is_strict, fails_closed,
  is_authorization, is_edge,
}
use ores_middleware.Policy.{
  RateLimitPolicyV2, audit_for, enforces, push_if, algorithm_violations, consistency_violations,
  operation_violations, boundary_violations, field_violations, validate,
}

pub three_nil :
    {A : Type 0} (xs ys zs : List A) → xs ++ ys ++ zs ≡ [] → (xs ≡ []) × (ys ≡ []) × (zs ≡ [])
three_nil xs ys zs h =
    let (h', z) = append-eq_nil (xs ++ ys) zs h in let (x, y) = append-eq_nil xs ys h' in (x, y, z)

pub push_if-nil :
    (b : Bool) (code path message : String) → push_if b code path message ≡ [] → b ≡ false
push_if-nil true code path message h = absurd (cc h)
push_if-nil false code path message h = refl

is_strict_sound : (c : RateLimitConsistency) → is_strict c ≡ true → c ≡ strict
is_strict_sound strict h = refl
is_strict_sound bounded h = absurd (cc h)
is_strict_sound advisory h = absurd (cc h)

fails_closed_sound : (m : RateLimitFailureMode) → fails_closed m ≡ true → m ≡ fail_closed
fails_closed_sound fail_closed h = refl
fails_closed_sound fail_open h = absurd (cc h)
fails_closed_sound local_only h = absurd (cc h)

pub validate_parts :
    (p : RateLimitPolicyV2)
    → validate p ≡ []
    → (algorithm_violations p ≡ [])
      × (consistency_violations p ≡ [])
      × (operation_violations p ≡ [])
      × (boundary_violations p ≡ [])
unfolding validate
validate_parts p h =
    let (rest, b) =
      append-eq_nil
        (field_violations p
          ++ algorithm_violations p
          ++ consistency_violations p
          ++ operation_violations p)
        (boundary_violations p) h in
    let (rest', o) =
      append-eq_nil (field_violations p ++ algorithm_violations p ++ consistency_violations p)
        (operation_violations p) rest in
    let (_, a, c) =
      three_nil (field_violations p) (algorithm_violations p) (consistency_violations p) rest' in
    (a, c, o, b)

-- the demands of strict consistency
abbrev pub IsCoordinated : RateLimitPolicyV2 → Type 0
IsCoordinated p =
    (p.consistency ≡ strict)
    × (p.failure_mode ≡ fail_closed)
    × (p.coordinator_required ≡ true)
    × (p.maximum_overshoot ≡ 0)

strict-IsCoordinated :
    (p : RateLimitPolicyV2)
    → is_strict p.consistency ≡ true
    → consistency_violations p ≡ []
    → IsCoordinated p
unfolding consistency_violations
strict-IsCoordinated p s h =
    let e : p.consistency ≡ strict = is_strict_sound p.consistency s in
    (e, fails_closed_sound _ (ground arith), ground arith, ground arith)

operation_violations-strict :
    (p : RateLimitPolicyV2)
    → is_strict (rate_limit_posture p.operation_class).consistency ≡ true
    → operation_violations p ≡ []
    → is_strict p.consistency ≡ true
unfolding operation_violations
operation_violations-strict p s h = ground arith

boundary_violations-strict :
    (p : RateLimitPolicyV2)
    → is_authorization p.layer ≡ true
    → boundary_violations p ≡ []
    → is_strict p.consistency ≡ true
unfolding boundary_violations
boundary_violations-strict p s h = ground arith

-- The audit policy of every operation class passes the validator.
pub audit_for_valid : (class : OperationClass) → validate (audit_for class) ≡ []
unfolding validate audit_for
audit_for_valid health_read = refl
audit_for_valid public_read = refl
audit_for_valid auth_attempt = refl
audit_for_valid auth_recovery = refl
audit_for_valid mutation = refl
audit_for_valid payment_or_ledger_write = refl
audit_for_valid job_admission = refl

-- A policy that passes is strict, fails closed, is coordinated and allows no overshoot whenever its
-- operation class needs strict consistency or it stands at the authorization layer.
pub validate-IsCoordinated :
    (p : RateLimitPolicyV2)
    → validate p ≡ []
    → (is_strict (rate_limit_posture p.operation_class).consistency ≡ true)
      ⊎ (is_authorization p.layer ≡ true)
    → IsCoordinated p
validate-IsCoordinated p h why =
    let (_, c, o, b) = validate_parts p h in
    elim why [
      | inl class ↦ strict-IsCoordinated p (operation_violations-strict p class o) c
      | inr layer ↦ strict-IsCoordinated p (boundary_violations-strict p layer b) c
    ]

may_deny_classes :
    (c : OperationClass)
    → (rate_limit_posture c).edge_may_deny ≡ true
    → (c ≡ public_read) ⊎ (c ≡ auth_attempt)
may_deny_classes health_read h = absurd (cc h)
may_deny_classes public_read h = inl refl
may_deny_classes auth_attempt h = inr refl
may_deny_classes auth_recovery h = absurd (cc h)
may_deny_classes mutation h = absurd (cc h)
may_deny_classes payment_or_ledger_write h = absurd (cc h)
may_deny_classes job_admission h = absurd (cc h)

boundary_violations-edge :
    (p : RateLimitPolicyV2)
    → boundary_violations p ≡ []
    → is_edge p.layer ≡ true
    → enforces p.enforcement_mode ≡ true
    → (rate_limit_posture p.operation_class).edge_may_deny ≡ true
unfolding boundary_violations
boundary_violations-edge p h e f =
    elim (Bool-cases (rate_limit_posture p.operation_class).edge_may_deny) [
      | inl may ↦ may
      | inr no_denial ↦
          let (_, edge) =
            append-eq_nil
              (push_if
                (is_authorization p.layer
                  && (not (is_strict p.consistency)
                      || not (fails_closed p.failure_mode)
                      || not p.coordinator_required))
                "authorization-boundary-must-be-strict" "layer"
                "authorization-layer limiting must be strict, coordinated, and fail closed")
              (push_if
                (is_edge p.layer
                  && enforces p.enforcement_mode
                  && not (rate_limit_posture p.operation_class).edge_may_deny)
                "edge-denial-forbidden-for-operation" "enforcementMode"
                "edge may observe this operation class but cannot own its denial decision")
              h in
          absurd (cc (push_if-nil _ _ _ _ edge, e, f, no_denial))
    ]

-- A policy that passes and enforces at the edge is one for public reads or for authentication
-- attempts.
pub validate-edge :
    (p : RateLimitPolicyV2)
    → validate p ≡ []
    → is_edge p.layer ≡ true
    → enforces p.enforcement_mode ≡ true
    → (p.operation_class ≡ public_read) ⊎ (p.operation_class ≡ auth_attempt)
validate-edge p h e f =
    let (_, _, _, b) = validate_parts p h in
    may_deny_classes p.operation_class (boundary_violations-edge p b e f)

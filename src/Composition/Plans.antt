-- ===== src/Composition/Plans.antt =====
-- The declared and the running plan of src/rust/src/composition.rs.
use ores_middleware.Prelude.Bytes.{Bytes}
use ores_middleware.Prelude.Maps.{some_inj}
use ores_middleware.Prelude.{
  ◌≡◌, ◌↔◌, refl, sym, ap, ◌∙◌, inl, inr, List, [], ◌++◌, some, append-eq_nil, Bool-cases,
}
use ores_middleware.Routes.Validation.{lists_eq}
use ores_middleware.Routes.Validity.{lists_eq_iff}
use ores_middleware.Composition.{MiddlewareCompositionPlan}
use ores_middleware.Composition.Validation.{
  validate_consumer_middleware_order, validate_plan_shape, validate_declared_middleware_plan, drift,
  validate_runtime_middleware_plan,
}
use ores_middleware.Composition.Valid.{validate_consumer_middleware_order_iff}

module _ (debug_name : Bytes → Bytes) (debug_names : List Bytes → Bytes) where
  drift_iff :
      (actual declared : List Bytes)
      → (drift debug_name debug_names actual declared ≡ []) ↔ (actual ≡ declared)
  unfolding drift
  drift_iff actual declared = elim (Bool-cases (lists_eq actual declared)) [
    | inl same ↦ rw same (λ e. (lists_eq_iff actual declared).0 same, λ e. refl)
    | inr other ↦
        rw other
          (λ e. absurd (cc e), λ e. absurd (cc (sym other ∙ (lists_eq_iff actual declared).1 e)))
  ]

  -- A running sequence passes the validation against a plan exactly when the plan passes its own and
  -- the sequence is the declared one.
  pub validate_runtime-declared :
      (actual : List Bytes) (plan : MiddlewareCompositionPlan)
      → (validate_runtime_middleware_plan debug_name debug_names actual plan ≡ some []) ↔ (
          (validate_declared_middleware_plan debug_name debug_names plan ≡ some [])
          × (actual ≡ plan.stages))
  unfolding validate_runtime_middleware_plan validate_declared_middleware_plan
  validate_runtime-declared actual plan =
      let shape = validate_plan_shape debug_name debug_names plan in
      let (live, ran, _) =
        validate_consumer_middleware_order_iff debug_name debug_names actual plan.policy in
      let (own, ran', _) =
        validate_consumer_middleware_order_iff debug_name debug_names plan.stages plan.policy in
      let moved = drift debug_name debug_names actual plan.stages in
      let same = drift_iff actual plan.stages in
      rw (ran, ran')
        (
          λ e.
              let (front, d) = append-eq_nil (shape ++ live) moved (some_inj e) in
              let (s, l) = append-eq_nil shape live front in
              let at = same.0 d in
              let equal : some live ≡ some own =
                sym ran
                ∙ (ap
                      (λ names.
                        validate_consumer_middleware_order debug_name debug_names names plan.policy)
                      at
                    ∙ ran') in
              (rw (s, sym (some_inj equal) ∙ l) refl, at),
          λ (e, at).
              let (s, o) = append-eq_nil shape own (some_inj e) in
              let equal : some live ≡ some own =
                sym ran
                ∙ (ap
                      (λ names.
                        validate_consumer_middleware_order debug_name debug_names names plan.policy)
                      at
                    ∙ ran') in
              rw (s, some_inj equal ∙ o, same.1 at) refl,
        )

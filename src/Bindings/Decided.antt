-- ===== src/Bindings/Decided.antt =====
-- What `resolve` of src/rust/src/rate_limit_bindings.rs decides.
use ores_middleware.Prelude.Bytes.{Bytes}
use ores_middleware.Prelude.Maps.{some_inj}
use ores_middleware.Prelude.{
  ℕ, ◌≡◌, ◌⊎◌, refl, sym, ap, inl, inr, List, [], ◌∷◌, Option, none, some,
}
use ores_middleware.Ranking.Winners.{winners_of, scan_by-winners_of}
use ores_middleware.Bindings.{
  RouteRateLimitBinding, RouteRateLimitBindingTable, RouteRateLimitBindingRequest, Violations,
  validate_request, validate_table,
}
use ores_middleware.Bindings.Resolve.{
  ResolvedRouteRateLimitBinding, Resolution, route, default, score_of, scan, decide_matches,
  checked, resolve,
}

inr_inj {ℓ} : {A B : Type ℓ} {a b : B} → ◌≡◌ {A = A ⊎ B} (inr a) (inr b) → a ≡ b
inr_inj e = cc

-- a resolution that is not an error passed both validations
checked-inr :
    (table request : Violations) (resolution : Resolution)
    (answer : Option ResolvedRouteRateLimitBinding)
    → checked table request resolution ≡ inr answer
    → (table ≡ []) × (request ≡ []) × (resolution ≡ inr answer)
unfolding checked
checked-inr (v ∷ table) request resolution answer e = absurd (cc e)
checked-inr [] (v ∷ request) resolution answer e = absurd (cc e)
checked-inr [] [] resolution answer e = (refl, refl, e)

-- A resolution is of the only winner, of the default when nothing matches, or there is none.
abbrev pub IsDecided :
    Option Bytes → List RouteRateLimitBinding → Option ResolvedRouteRateLimitBinding → Type 0
IsDecided default_policy_id winners none = (winners ≡ []) × (default_policy_id ≡ none)
IsDecided default_policy_id winners (some resolved) =
    ((binding : RouteRateLimitBinding) × (winners ≡ binding ∷ [])
      × (resolved.route_class_id ≡ some binding.route_class_id)
      × (resolved.policy_id ≡ binding.policy_id)
      × (resolved.source ≡ route))
    ⊎ (winners ≡ [])
      × (default_policy_id ≡ some resolved.policy_id)
      × (resolved.route_class_id ≡ none)
      × (resolved.source ≡ default)

decided :
    (default_policy_id : Option Bytes) (request : RouteRateLimitBindingRequest)
    (winners : List RouteRateLimitBinding) (answer : Option ResolvedRouteRateLimitBinding)
    → decide_matches default_policy_id request winners ≡ inr answer
    → IsDecided default_policy_id winners answer
unfolding decide_matches
decided none request [] none e = (refl, refl)
decided none request [] (some r) e = absurd (cc (inr_inj e))
decided (some policy_id) request [] none e = absurd (cc (inr_inj e))
decided (some policy_id) request [] (some r) e =
    let same = some_inj (inr_inj e) in
    inr (
      refl,
      ap (λ x. some x.policy_id) same,
      sym (ap (λ x. x.route_class_id) same),
      sym (ap (λ x. x.source) same),
    )
decided d request (binding ∷ []) none e = absurd (cc (inr_inj e))
decided d request (binding ∷ []) (some r) e =
    let same = some_inj (inr_inj e) in
    inl (
      binding,
      refl,
      sym (ap (λ x. x.route_class_id) same),
      sym (ap (λ x. x.policy_id) same),
      sym (ap (λ x. x.source) same),
    )
decided d request (binding ∷ other ∷ many) answer e = absurd (cc e)

module _ (show : ℕ → Bytes) where
  -- When `resolve` answers, the table and the request passed their validations. The answer names the one
  -- binding that matches and that no binding of the table outranks or ties with; it is the default
  -- policy when no binding matches, and nothing when there is no default policy either.
  pub resolve-IsDecided :
      (table : RouteRateLimitBindingTable) (request : RouteRateLimitBindingRequest)
      (answer : Option ResolvedRouteRateLimitBinding)
      → resolve show table request ≡ inr answer
      → (validate_table show table ≡ [])
        × (validate_request request ≡ [])
        × IsDecided table.default_policy_id
            (winners_of (score_of request) table.routes table.routes)
            answer
  unfolding resolve scan
  resolve-IsDecided table request answer e =
      let winners = scan_by-winners_of (score_of request) table.routes in
      let opened : checked (validate_table show table) (validate_request request) (
            decide_matches table.default_policy_id request
              (winners_of (score_of request) table.routes table.routes))
          ≡ inr answer =
        rw winners at e in
      let (t, r, d) =
        checked-inr (validate_table show table) (validate_request request)
          (decide_matches table.default_policy_id request
            (winners_of (score_of request) table.routes table.routes))
          answer opened in
      (
        t,
        r,
        decided table.default_policy_id request
            (winners_of (score_of request) table.routes table.routes) answer d,
      )

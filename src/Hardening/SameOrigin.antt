-- ===== src/Hardening/SameOrigin.antt =====
-- Which requests `FetchMetadataStage` of src/rust/src/hardening.rs lets through.
use ores_middleware.Prelude.Bytes.{Bytes, codes, bytes_eq, bytes_eq_iff}
use ores_middleware.Prelude.{
  ◌≡◌, ◌⊎◌, ◌↔◌, inl, inr, refl, sym, ◌∙◌, Bool, true, false, not, ◌||◌, Option, none, some,
  if◌then◌else◌, Bool-cases,
}
use ores_middleware.Prelude.Maps.{some_inj}
use ores_middleware.Stage.{StageInput, StageRejection, StageDecision, continue, reject}
use ores_middleware.Hardening.Fetch.{
  FetchMetadataPolicy, unsafe_method, find_header, site_values, mode_values, invalid,
  closed_invalid, dest_invalid, user_invalid, site_decision, fetch_request, is_some,
}
use ores_middleware.Hardening.FetchHeaders.{
  Among, IsToken, IsUser, SiteAllowed, closed_invalid_iff, dest_invalid_iff, user_invalid_iff,
}

differ : (v w : Bytes) → bytes_eq v w ≡ false → some v ≡ some w → ⊥
differ v w h e = cc (sym h ∙ (bytes_eq_iff v w).1 (some_inj e))

is_some-none : (o : Option Bytes) → (is_some o ≡ false) ↔ (o ≡ none)
is_some-none none = (λ e. refl, λ e. refl)
is_some-none (some v) = (λ e. absurd (cc e), λ e. absurd (cc e))

-- The order of the tests, whatever they are.
gates :
    {Value : Type 0} {input : StageInput Value} (rejected : StageRejection)
    (rest : StageDecision Value) (on a b d u s k : Bool)
    → ((if not on
          then continue input
          else if a || b
          then reject rejected
          else if d
          then reject rejected
          else if u
          then reject rejected
          else if not s || not k
          then continue input
          else rest)
        ≡ continue input)
      ↔ ((on ≡ false)
          ⊎ ((a ≡ false)
              × (b ≡ false)
              × (d ≡ false)
              × (u ≡ false)
              × ((s ≡ false) ⊎ (k ≡ false) ⊎ (rest ≡ continue input))))
gates rejected rest false a b d u s k = (λ e. inl refl, λ h. refl)
gates rejected rest true true b d u s k =
    (λ e. absurd (cc e), λ h. absurd (elim h [ inl e ↦ cc e | inr h ↦ cc h.0 ]))
gates rejected rest true false true d u s k =
    (λ e. absurd (cc e), λ h. absurd (elim h [ inl e ↦ cc e | inr h ↦ cc h.1 ]))
gates rejected rest true false false true u s k =
    (λ e. absurd (cc e), λ h. absurd (elim h [ inl e ↦ cc e | inr h ↦ cc h.2 ]))
gates rejected rest true false false false true s k =
    (λ e. absurd (cc e), λ h. absurd (elim h [ inl e ↦ cc e | inr h ↦ cc h.3 ]))
gates rejected rest true false false false false false k =
    (λ e. inr (refl, refl, refl, refl, inl refl), λ h. refl)
gates rejected rest true false false false false true false =
    (λ e. inr (refl, refl, refl, refl, inr (inl refl)), λ h. refl)
gates rejected rest true false false false false true true = (
  λ e. inr (refl, refl, refl, refl, inr (inr e)),
  λ h. elim h [
    | inl e ↦ absurd (cc e)
    | inr (_, _, _, _, inl e) ↦ absurd (cc e)
    | inr (_, _, _, _, inr (inl e)) ↦ absurd (cc e)
    | inr (_, _, _, _, inr (inr e)) ↦ e
  ],
)

module _ {Value : Type 0} (policy : FetchMetadataPolicy) (input : StageInput Value) where
  site_decision_iff :
      (o : Option Bytes)
      → Among site_values o
      → (site_decision policy input o ≡ continue input) ↔ SiteAllowed policy o
  unfolding site_decision bytes_eq
  site_decision_iff none a = elim (Bool-cases policy.allow_missing) [
    | inl m ↦ rw m (λ e. inl (refl, refl), λ s. refl)
    | inr m ↦ rw m (
      λ e. absurd (cc e),
      λ s. absurd (elim s [
        | inl p ↦ cc p.1
        | inr (inl e) ↦ cc e
        | inr (inr (inl e)) ↦ cc e
        | inr (inr (inr p)) ↦ cc p.0
      ]),
    )
  ]
  site_decision_iff (some v) (inl h) = absurd (cc h)
  site_decision_iff (some v) (inr (w, same, at)) = rw (some_inj same) (elim at [
    | inl e ↦ rw e (λ h. inr (inl refl), λ s. refl)
    | inr (inl e) ↦ rw e (elim (Bool-cases policy.allow_same_site) [
      | inl m ↦ rw m (λ h. inr (inr (inr (refl, refl))), λ s. refl)
      | inr m ↦ rw m (
        λ h. absurd (cc h),
        λ s. absurd (elim s [
          | inl p ↦ cc p.0
          | inr (inl e) ↦ differ (codes "same-site") (codes "same-origin") refl e
          | inr (inr (inl e)) ↦ differ (codes "same-site") (codes "none") refl e
          | inr (inr (inr p)) ↦ cc p.1
        ]),
      )
    ])
    | inr (inr (inl e)) ↦ rw e (
      λ h. absurd (cc h),
      λ s. absurd (elim s [
        | inl p ↦ cc p.0
        | inr (inl e) ↦ differ (codes "cross-site") (codes "same-origin") refl e
        | inr (inr (inl e)) ↦ differ (codes "cross-site") (codes "none") refl e
        | inr (inr (inr p)) ↦ differ (codes "cross-site") (codes "same-site") refl p.0
      ]),
    )
    | inr (inr (inr (inl e))) ↦ rw e (λ h. inr (inr (inl refl)), λ s. refl)
    | inr (inr (inr (inr at))) ↦ absurd at.lower
  ])

  abbrev header : Bytes → Option Bytes
  header name = find_header name input.request.headers

  -- A request that the stage lets through: any if it is off, and else one whose four headers are well
  -- formed, and which changes nothing, carries no cookie, or comes from a site that is allowed.
  abbrev pub IsAdmitted : Type 0
  IsAdmitted =
      (policy.enabled ≡ false)
      ⊎ (Among site_values (header (codes "sec-fetch-site"))
          × Among mode_values (header (codes "sec-fetch-mode"))
          × IsToken (header (codes "sec-fetch-dest"))
          × IsUser (header (codes "sec-fetch-user"))
          × ((unsafe_method policy input.request.method ≡ false)
              ⊎ (header (codes "cookie") ≡ none)
              ⊎ SiteAllowed policy (header (codes "sec-fetch-site"))))

  -- The stage lets a request through, and then without any change, exactly when it is admitted.
  pub fetch_request_iff : (fetch_request policy input ≡ continue input) ↔ IsAdmitted
  unfolding fetch_request
  fetch_request_iff =
      let rest = site_decision policy input (header (codes "sec-fetch-site")) in
      let site = closed_invalid_iff site_values refl (header (codes "sec-fetch-site")) in
      let mode = closed_invalid_iff mode_values refl (header (codes "sec-fetch-mode")) in
      let dest = dest_invalid_iff (header (codes "sec-fetch-dest")) in
      let by_user = user_invalid_iff (header (codes "sec-fetch-user")) in
      let tests =
        gates invalid rest policy.enabled
          (closed_invalid site_values (header (codes "sec-fetch-site")))
          (closed_invalid mode_values (header (codes "sec-fetch-mode")))
          (dest_invalid (header (codes "sec-fetch-dest")))
          (user_invalid (header (codes "sec-fetch-user")))
          (unsafe_method policy input.request.method) (is_some (header (codes "cookie"))) in
      (
        λ e. elim (tests.0 e) [
          | inl off ↦ inl off
          | inr (a, b, d, u, end) ↦ inr (
            site.0 a,
            mode.0 b,
            dest.0 d,
            by_user.0 u,
            elim end [
              | inl safe ↦ inl safe
              | inr (inl bare) ↦ inr (inl ((is_some-none (header (codes "cookie"))).0 bare))
              | inr (inr go) ↦
                  inr (inr ((site_decision_iff (header (codes "sec-fetch-site")) (site.0 a)).0 go))
            ],
          )
        ],
        λ h. tests.1 (elim h [
          | inl off ↦ inl off
          | inr (a, b, d, u, end) ↦ inr (
            site.1 a,
            mode.1 b,
            dest.1 d,
            by_user.1 u,
            elim end [
              | inl safe ↦ inl safe
              | inr (inl bare) ↦ inr (inl ((is_some-none (header (codes "cookie"))).1 bare))
              | inr (inr go) ↦
                  inr (inr ((site_decision_iff (header (codes "sec-fetch-site")) a).1 go))
            ],
          )
        ]),
      )

-- ===== src/Policy/Algorithms.antt =====
-- The parameters of the algorithms in a policy that `RateLimitPolicyV2::validate` of
-- src/rust/src/rate_limit_v2.rs accepts.
use ores_middleware.Prelude.{ℕ, ◌≡◌, refl, Bool, true, false, not, [], Option, none, some, String}
use ores_middleware.Policy.{
  RateLimitPolicyV2, RateLimitAlgorithmV2, token_bucket, sliding_window_counter, fixed_window, gcra,
  concurrency, max_capacity, max_window_ms, is_positive_within, require_positive,
  require_bounded_duration, forbid, window_violations, algorithm_violations, validate,
}
use ores_middleware.Policy.Soundness.{three_nil, push_if-nil, validate_parts}

-- The parameters that an algorithm takes, and no other.
abbrev pub Parameters : RateLimitAlgorithmV2 → Option ℕ → Option ℕ → Option ℕ → Type 0
Parameters token_bucket window tokens interval =
    (is_positive_within max_capacity tokens ≡ true)
    × (is_positive_within max_window_ms interval ≡ true)
    × (window ≡ none)
Parameters concurrency window tokens interval =
    (window ≡ none) × (tokens ≡ none) × (interval ≡ none)
Parameters _ window tokens interval =
    (is_positive_within max_window_ms window ≡ true) × (tokens ≡ none) × (interval ≡ none)

forbid-nil : (value : Option ℕ) (path code : String) → forbid value path code ≡ [] → value ≡ none
unfolding forbid
forbid-nil none path code h = refl
forbid-nil (some value) path code h = absurd (cc h)

not-false : (b : Bool) → not b ≡ false → b ≡ true
not-false true h = refl
not-false false h = absurd (cc h)

window_violations-nil :
    (p : RateLimitPolicyV2)
    → window_violations p ≡ []
    → (is_positive_within max_window_ms p.window_ms ≡ true)
      × (p.refill_tokens ≡ none)
      × (p.refill_interval_ms ≡ none)
unfolding window_violations require_bounded_duration
window_violations-nil p h =
    let (w, t, i) =
      three_nil (require_bounded_duration p.window_ms "windowMs" "window-required")
        (forbid p.refill_tokens "refillTokens" "window-refill-tokens-forbidden")
        (forbid p.refill_interval_ms "refillIntervalMs" "window-refill-interval-forbidden") h in
    (not-false _ (push_if-nil _ _ _ _ w), forbid-nil _ _ _ t, forbid-nil _ _ _ i)

algorithm_violations-Parameters :
    (p : RateLimitPolicyV2)
    → algorithm_violations p ≡ []
    → Parameters p.algorithm p.window_ms p.refill_tokens p.refill_interval_ms
unfolding algorithm_violations require_positive require_bounded_duration
algorithm_violations-Parameters p h =
    elim p.algorithm
        as (λ a. p.algorithm ≡ a → Parameters a p.window_ms p.refill_tokens p.refill_interval_ms) [
          | token_bucket ↦ λ e.
              let (t, i, w) =
                three_nil
                  (require_positive p.refill_tokens "refillTokens"
                    "token-bucket-refill-tokens-required")
                  (require_bounded_duration p.refill_interval_ms "refillIntervalMs"
                    "token-bucket-refill-interval-required")
                  (forbid p.window_ms "windowMs" "token-bucket-window-forbidden")
                  (rw (algorithm_violations, e) at h) in
              (
                not-false _ (push_if-nil _ _ _ _ t),
                not-false _ (push_if-nil _ _ _ _ i),
                forbid-nil _ _ _ w,
              )
          | concurrency ↦ λ e.
              let (w, t, i) =
                three_nil (forbid p.window_ms "windowMs" "concurrency-window-forbidden")
                  (forbid p.refill_tokens "refillTokens" "concurrency-refill-tokens-forbidden")
                  (forbid p.refill_interval_ms "refillIntervalMs"
                    "concurrency-refill-interval-forbidden")
                  (rw (algorithm_violations, e) at h) in
              (forbid-nil _ _ _ w, forbid-nil _ _ _ t, forbid-nil _ _ _ i)
          | sliding_window_counter ↦
              λ e. window_violations-nil p (rw (algorithm_violations, e) at h)
          | fixed_window ↦ λ e. window_violations-nil p (rw (algorithm_violations, e) at h)
          | gcra ↦ λ e. window_violations-nil p (rw (algorithm_violations, e) at h)
        ]
      refl

-- A policy that passes has the parameters that its algorithm takes, within their limits, and none
-- of the others.
pub validate-Parameters :
    (p : RateLimitPolicyV2)
    → validate p ≡ []
    → Parameters p.algorithm p.window_ms p.refill_tokens p.refill_interval_ms
validate-Parameters p h =
    let (a, _, _, _) = validate_parts p h in algorithm_violations-Parameters p a

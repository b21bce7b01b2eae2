-- ===== src/CoreLimiter/Ratio.antt =====
-- `rational_refill` of integrations/ores-rate-limit-core-rust/src/core_rate_limiter.rs: a refill rate as a
-- number of tokens for an interval. The tests and the rounding of f64 are the record `Float`.
use mathlib.Core.WellFounded.{Acc}
use Prim.Native.Nat.{◌∣◌}
use native.Mathlib.Nat.{dvd_refl, div-mul_cancel, dvd-zero, dvd-mod_iff, zero-lt-suc}
use ores_middleware.Prelude.Order.{lt_wf}
use ores_middleware.Prelude.{
  ℕ, zero, suc, ◌-◌, ◌*◌, ◌/◌, ◌%◌, ◌^◌, ◌≤◌, ◌<◌, ◌≡◌, ◌↔◌, ◌⊎◌, inl, inr, refl, ◌∙◌, Bool, true,
  false, not, ◌||◌, String, ltb, if◌then◌else◌, arith,
}

abbrev pub u64_mod : ℕ
u64_mod = 2 ^ 64

abbrev pub u64_max : ℕ
u64_max = u64_mod - 1

abbrev pub precision : ℕ
precision = 1000000

-- What the code asks of a rate; `rounded` is `round() as u64` of the rate scaled by `precision`.
pub record Float : Type 1 where
  pub F : Type 0
  pub is_finite : F → Bool
  pub is_positive : F → Bool
  pub scaled : F → F
  pub below_one : F → Bool
  pub above_u64 : F → Bool
  pub rounded : F → ℕ

-- The loop of `greatest_common_divisor`: every round makes `right` smaller, which is what `Acc` goes by.
unfoldable divide_from : (left right : ℕ) → Acc ◌<◌ right → ℕ
divide_from left zero _ = left
divide_from left (suc r) (Acc.intro _ smaller) =
    let remainder : ℕ = left % suc r in
    divide_from (suc r) remainder (smaller remainder (omega arith))

unfoldable pub greatest_common_divisor : ℕ → ℕ → ℕ
unfolding divide_from lt_wf
greatest_common_divisor left right = divide_from left right (lt_wf.apply right)

-- `checked_mul`
abbrev checked_mul : ℕ → ℕ → String ⊎ ℕ
checked_mul a b =
    if ltb (a * b) u64_mod then inr (a * b) else inl "rate_limit_core_refill_out_of_range"

-- the tokens and the interval for a rate of so many millionths for each second
unfoldable ratio_from : ℕ → ℕ → String ⊎ (ℕ × ℕ)
ratio_from numerator divisor = elim (checked_mul 1000 (precision / divisor)) [
  | inl code ↦ inl code
  | inr interval_ms ↦ inr (numerator / divisor, interval_ms)
]

unfoldable pub ratio_of : ℕ → String ⊎ (ℕ × ℕ)
unfolding ratio_from
ratio_of numerator = ratio_from numerator (greatest_common_divisor numerator precision)

unfoldable pub rational_refill : (float : Float) → float.F → String ⊎ (ℕ × ℕ)
unfolding ratio_of
rational_refill float rate_per_second =
    if not (float.is_finite rate_per_second) || not (float.is_positive rate_per_second)
    then inl "rate_limit_core_refill_invalid"
    else (let scaled = float.scaled rate_per_second in
        if not (float.is_finite scaled) || float.below_one scaled || float.above_u64 scaled
        then inl "rate_limit_core_refill_out_of_range"
        else ratio_of (float.rounded scaled))

-- `d` divides `n`.
abbrev pub Divides : ℕ → ℕ → Type 0
Divides d n = (k : ℕ) × (n ≡ k * d)

divide_from_lem :
    (left right k : ℕ) (w : Acc ◌<◌ right)
    → (k ∣ divide_from left right w) ↔ ((k ∣ left) × (k ∣ right))
unfolding divide_from
divide_from_lem left zero k w = (λ d. (d, dvd-zero k), λ p. p.0)
divide_from_lem left (suc r) k (Acc.intro _ smaller) =
    let ih = divide_from_lem (suc r) (left % suc r) k (smaller (left % suc r) (omega arith)) in
    (
      λ d. let p = ih.0 d in ((dvd-mod_iff k p.0).0 p.1, p.0),
      λ p. ih.1 (p.1, (dvd-mod_iff k p.1).1 p.0),
    )

-- The result of the loop is the greatest common divisor of the two numbers: what divides it is exactly
-- what divides both.
pub greatest_common_divisor_lem :
    (left right k : ℕ) → (k ∣ greatest_common_divisor left right) ↔ ((k ∣ left) × (k ∣ right))
unfolding greatest_common_divisor
greatest_common_divisor_lem left right k = divide_from_lem left right k (lt_wf.apply right)

factor_pos : (a b n : ℕ) → a * b ≡ n → 0 < n → (0 < a) × (0 < b) × (a ≤ n)
factor_pos zero b n e h = absurd (omega arith)
factor_pos (suc a) zero n e h = absurd (omega arith)
factor_pos (suc a) (suc b) n e h = (omega arith, omega arith, grind arith)

cross_products : (t q d n m c : ℕ) → t * d ≡ n → q * d ≡ m → t * (c * m) ≡ n * (c * q)
cross_products t q d n m c e f = rw (← e, ← f) (grind arith)

product_pos : (a b : ℕ) → 0 < a → 0 < b → 0 < a * b
product_pos zero b h k = absurd (omega arith)
product_pos (suc a) zero h k = absurd (omega arith)
product_pos (suc a) (suc b) h k = grind arith

product_le : (a b c : ℕ) → b ≤ c → a * b ≤ a * c
product_le a b c h = grind arith

lowest_terms :
    (d n m c : ℕ)
    → (d ∣ n) × (d ∣ m)
    → 0 < n
    → 0 < m
    → 0 < c
    → (m / d ≤ m)
      × (0 < n / d)
      × (0 < c * (m / d))
      × (c * (m / d) ≤ c * m)
      × (n / d * (c * m) ≡ n * (c * (m / d)))
lowest_terms d n m c (dn, dm) n_pos m_pos c_pos =
    let e : n / d * d ≡ n = div-mul_cancel d dn in
    let f : m / d * d ≡ m = div-mul_cancel d dm in
    let (q_pos, _, q_le) = factor_pos (m / d) d m f m_pos in
    (
      q_le,
      (factor_pos (n / d) d n e n_pos).0,
      product_pos c (m / d) c_pos q_pos,
      product_le c (m / d) m q_le,
      cross_products (n / d) (m / d) d n m c e f,
    )

checked_mul_fits : (q : ℕ) → q ≤ precision → checked_mul 1000 q ≡ inr (1000 * q)
checked_mul_fits q h =
    let in_range : ltb (1000 * q) u64_mod ≡ true = ground (arith, h) in rw in_range refl

ratio_from_lem :
    (n d : ℕ) → precision / d ≤ precision → ratio_from n d ≡ inr (n / d, 1000 * (precision / d))
unfolding ratio_from
ratio_from_lem n d h = rw (ratio_from, checked_mul_fits (precision / d) h) refl

ratio_of_lem :
    (numerator : ℕ)
    → 0 < numerator
    → (tokens interval_ms : ℕ) × (ratio_of numerator ≡ inr (tokens, interval_ms))
      × (0 < tokens)
      × (0 < interval_ms)
      × (interval_ms ≤ 1000 * precision)
      × (tokens * (1000 * precision) ≡ numerator * interval_ms)
unfolding ratio_of
ratio_of_lem n pos =
    let d : ℕ = greatest_common_divisor n precision in
    let (q_le, t_pos, i_pos, i_le, exact) =
      lowest_terms d n precision 1000 ((greatest_common_divisor_lem n precision d).0 (dvd_refl d))
        pos (zero-lt-suc 999999) (zero-lt-suc 999) in
    (n / d, 1000 * (precision / d), ratio_from_lem n d q_le, t_pos, i_pos, i_le, exact)

-- A finite positive rate whose scaled value is finite, at least one, at most `u64::MAX` and rounds to a
-- positive number is not refused: no multiplication overflows, and the tokens for the interval, at least
-- one for at most ten to the ninth milliseconds, are exactly the rate in millionths for each second.
pub rational_refill_lem :
    (float : Float) (rate : float.F)
    → float.is_finite rate ≡ true
    → float.is_positive rate ≡ true
    → float.is_finite (float.scaled rate) ≡ true
    → float.below_one (float.scaled rate) ≡ false
    → float.above_u64 (float.scaled rate) ≡ false
    → 0 < float.rounded (float.scaled rate)
    → (tokens interval_ms : ℕ) × (rational_refill float rate ≡ inr (tokens, interval_ms))
      × (0 < tokens)
      × (0 < interval_ms)
      × (interval_ms ≤ 1000 * precision)
      × (tokens * (1000 * precision) ≡ float.rounded (float.scaled rate) * interval_ms)
unfolding rational_refill
rational_refill_lem float rate finite positive still_finite big small pos =
    let (t, i, e, t_pos, i_pos, i_le, exact) =
      ratio_of_lem (float.rounded (float.scaled rate)) pos in
    let same : rational_refill float rate ≡ ratio_of (float.rounded (float.scaled rate)) =
      rw (finite, positive, still_finite, big, small) refl in
    (t, i, same ∙ e, t_pos, i_pos, i_le, exact)

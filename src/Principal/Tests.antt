-- ===== src/Principal/Tests.antt =====
-- Concrete requests for the theorems on rate limit principals, and runs of their derivation.
use ores_middleware.Prelude.Bytes.{Bytes, codes}
use ores_middleware.Prelude.{
  ◌<◌, ◌≡◌, inl, inr, refl, [], ◌∷◌, Option, none, some, length, All, arith, ◌^◌, false,
}
use ores_middleware.Principal.Signals.{RateLimitSignal, user, method}
use ores_middleware.Principal.Derivation.{
  RateLimitPrincipal, encode_signals, presented, derive_rate_limit_principal, hex, derive,
}
use ores_middleware.Principal.Injective.{hmac_message_inj}
use ores_middleware.Principal.Hexadecimal.{derive-parse_principal}
use ores_middleware.CoreLimiter.{parse_principal}
use ores_middleware.CoreLimiter.Counter.{counter_api}

abbrev values : RateLimitSignal → Option Bytes
values user = some (codes "u1")
values _ = none

abbrev mac : Bytes → Bytes
mac message = codes "0123456789abcdef0123456789abcdef"

abbrev new_from_slice : Bytes → Option (Bytes → Bytes)
new_from_slice [] = none
new_from_slice (_ ∷ _) = some mac

abbrev secret : Bytes
secret = codes "0123456789abcdef0123456789abcdef"

short : length (encode_signals values [] false (user ∷ method ∷ [])).0 < 2 ^ 64
unfolding encode_signals
short = omega arith

hmac_message_inj_example :
    (codes "n" ≡ codes "n")
    × (codes "v" ≡ codes "v")
    × (user ∷ method ∷ [] ≡ user ∷ method ∷ [])
    × All (λ s. presented (values s) ≡ presented (values s)) (user ∷ method ∷ [])
hmac_message_inj_example =
    hmac_message_inj (codes "n") (codes "n") (codes "v") (codes "v") values values
      (user ∷ method ∷ []) (user ∷ method ∷ []) (omega arith) (omega arith) (omega arith)
      (omega arith) short short (omega arith, (omega arith, tt)) (omega arith, (omega arith, tt))
      refl

derive-parse_principal_example :
    (principal : RateLimitPrincipal) × (derive new_from_slice secret
        (codes "n")
        (codes "v")
        (codes "m")
      ≡ inr principal)
    × (principal.key_version ≡ codes "v")
    × (parse_principal counter_api principal.digest ≡ inr (hex secret))
derive-parse_principal_example =
    derive-parse_principal counter_api new_from_slice mac secret (codes "n") (codes "v") (codes "m")
      (hex secret) refl refl (ground arith) refl

-- the signals without a caller's identity are refused
no_principal :
    derive_rate_limit_principal
      (derive new_from_slice secret)
      (codes "n")
      (codes "v")
      (method ∷ [])
      values
    ≡ inl "rate_limit_principal_unavailable"
unfolding derive_rate_limit_principal
no_principal = refl

refused_key :
    derive new_from_slice [] (codes "n") (codes "v") (codes "m")
    ≡ inl "rate_limit_hmac_initialization_failed"
unfolding derive
refused_key = refl

-- ===== src/Principal/Hexadecimal.antt =====
-- The digest of `HmacSha256KeyDeriver::derive` of src/rust/src/rate_limit.rs against the test that
-- `parse_principal` of integrations/ores-rate-limit-core-rust/src/core_rate_limiter.rs makes of it.
use ores_middleware.Prelude.Bytes.{Bytes}
use ores_middleware.Prelude.{
  Option, some, ℕ, ◌*◌, ◌/◌, ◌%◌, ◌<◌, ◌≡◌, inr, refl, true, [], ◌∷◌, length, all, All, arith, ◌==◌,
}
use ores_middleware.Principal.Derivation.{RateLimitPrincipal, hex, hex_digit, hmac_message, derive}
use ores_middleware.CoreLimiter.{CoreApi, is_hex, is_digest, parse_principal}

hex_digit-IsHex : (n : ℕ) → n < 16 → is_hex (hex_digit n) ≡ true
unfolding is_hex
hex_digit-IsHex n h = ground arith

length-hex : (s : Bytes) → length (hex s) ≡ 2 * length s
unfolding hex
length-hex [] = omega arith
length-hex (b ∷ s) = omega (arith, length-hex s)

all-hex : (s : Bytes) → All (λ b. b < 256) s → all is_hex (hex s) ≡ true
unfolding hex
all-hex [] h = refl
all-hex (b ∷ s) (small, hs) =
    let high : is_hex (hex_digit (b / 16)) ≡ true = hex_digit-IsHex (b / 16) (omega arith) in
    let low : is_hex (hex_digit (b % 16)) ≡ true = hex_digit-IsHex (b % 16) (omega arith) in
    rw (high, low) (all-hex s hs)

-- If the HMAC takes the secret for a key and the code of the message is 32 bytes, a principal is derived, and
-- the limiter's store takes its digest for a key whenever ores-rl-lib-core decodes it: the test of the digest
-- does not refuse it.
pub derive-parse_principal :
    (api : CoreApi) (new_from_slice : Bytes → Option (Bytes → Bytes)) (mac : Bytes → Bytes)
    (secret namespace key_version canonical_material : Bytes) (key : api.OpaqueKey)
    → new_from_slice secret ≡ some mac
    → length (mac (hmac_message namespace key_version canonical_material)) ≡ 32
    → All (λ b. b < 256) (mac (hmac_message namespace key_version canonical_material))
    → api.parse_key (hex (mac (hmac_message namespace key_version canonical_material))) ≡ some key
    → (principal : RateLimitPrincipal) × (derive new_from_slice secret namespace key_version
          canonical_material
        ≡ inr principal)
      × (principal.key_version ≡ key_version)
      × (parse_principal api principal.digest ≡ inr key)
unfolding derive parse_principal is_digest
derive-parse_principal api new_from_slice mac secret namespace key_version material key takes size
      small decoded =
    let code = mac (hmac_message namespace key_version material) in
    let size_hex : (length (hex code) == 64) ≡ true = ground (arith, length-hex code, size) in
    (
      record { digest = hex code; key_version = key_version },
      rw (derive, takes) refl,
      refl,
      rw (size_hex, all-hex code small, decoded) refl,
    )

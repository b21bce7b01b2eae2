-- ===== src/Principal/Derivation.antt =====
-- `derive_rate_limit_principal` and `HmacSha256KeyDeriver` of src/rust/src/rate_limit.rs. `new_from_slice`
-- stands for HMAC-SHA256: it refuses a key, or gives the code of each streamed message under it. The
-- clearing of memory is left out.
use ores_middleware.Prelude.Bytes.{Bytes, codes}
use ores_middleware.Prelude.{
  ℕ, ◌+◌, ◌-◌, ◌/◌, ◌%◌, ◌⊎◌, inl, inr, Bool, true, false, ◌&&◌, ◌||◌, List, [], ◌∷◌, ◌++◌, Option,
  none, some, String, ltb, length, if◌then◌else◌,
}
use ores_middleware.Principal.Signals.{RateLimitSignal, is_principal_signal, tag}
use ores_middleware.Principal.Encoding.{length_prefixed}

pub record RateLimitPrincipal : Type 0 where
  pub digest : Bytes
  pub key_version : Bytes

abbrev pub is_some : Option Bytes → Bool
is_some none = false
is_some (some _) = true

-- what stands for the value of a signal in the canonical material
abbrev pub presented : Option Bytes → Bytes
presented none = codes "<missing>"
presented (some value) = value

-- The loop over the signals, with the material and the flag so far; `value` is `signal_value` at the
-- request.
unfoldable pub encode_signals :
    (RateLimitSignal → Option Bytes) → Bytes → Bool → List RateLimitSignal → Bytes × Bool
unfolding length_prefixed
encode_signals value canonical has_material [] = (canonical, has_material)
encode_signals value canonical has_material (signal ∷ signals) =
    encode_signals value
      (canonical ++ length_prefixed (tag signal) ++ length_prefixed (presented (value signal)))
      (has_material || (is_principal_signal signal && is_some (value signal))) signals

unfoldable pub derive_rate_limit_principal :
    (Bytes → Bytes → Bytes → String ⊎ RateLimitPrincipal)
    → (namespace key_version : Bytes) → List RateLimitSignal
    → (RateLimitSignal → Option Bytes)
    → String ⊎ RateLimitPrincipal
unfolding encode_signals
derive_rate_limit_principal derive namespace key_version signals value =
    let (canonical, has_principal_material) = encode_signals value [] false signals in
    if has_principal_material
    then derive namespace key_version canonical
    else inl "rate_limit_principal_unavailable"

-- one digit of `{byte:02x}`
abbrev pub hex_digit : ℕ → ℕ
hex_digit n = if ltb n 10 then b'0' + n else b'a' + n - 10

unfoldable pub hex : Bytes → Bytes
hex [] = []
hex (b ∷ s) = hex_digit (b / 16) ∷ hex_digit (b % 16) ∷ hex s

unfoldable pub hmac_key : Bytes → String ⊎ Bytes
hmac_key secret = if ltb (length secret) 32 then inl "rate_limit_hmac_key_too_short" else inr secret

-- the message that the three updates stream into the code
unfoldable pub hmac_message : (namespace key_version canonical : Bytes) → Bytes
unfolding length_prefixed
hmac_message namespace key_version canonical =
    length_prefixed namespace ++ length_prefixed key_version ++ length_prefixed canonical

module _ (new_from_slice : Bytes → Option (Bytes → Bytes)) where
  unfoldable pub derive :
      Bytes → (namespace key_version canonical_material : Bytes) → String ⊎ RateLimitPrincipal
  unfolding hex hmac_message
  derive secret namespace key_version canonical_material = elim (new_from_slice secret) [
    | none ↦ inl "rate_limit_hmac_initialization_failed"
    | some mac ↦ inr (record {
      digest = hex (mac (hmac_message namespace key_version canonical_material));
      key_version = key_version;
    })
  ]

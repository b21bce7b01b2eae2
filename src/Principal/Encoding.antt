-- ===== src/Principal/Encoding.antt =====
-- The length prefixes of src/rust/src/rate_limit.rs, and that an encoded text can be read back.
use ores_middleware.Prelude.Bytes.{Bytes}
use ores_middleware.Prelude.{
  ℕ, ◌+◌, ◌*◌, ◌/◌, ◌%◌, ◌^◌, ◌<◌, ◌≡◌, refl, sym, ap, ◌∙◌, [], ◌∷◌, ◌++◌, length, arith,
}

-- `u64::to_be_bytes`
unfoldable pub to_be_bytes : ℕ → Bytes
to_be_bytes n =
    n / 2 ^ 56 % 256
    ∷ n / 2 ^ 48 % 256
    ∷ n / 2 ^ 40 % 256
    ∷ n / 2 ^ 32 % 256
    ∷ n / 2 ^ 24 % 256
    ∷ n / 2 ^ 16 % 256
    ∷ n / 2 ^ 8 % 256
    ∷ n % 256
    ∷ []

-- what `update_vec_length_prefixed` and `update_length_prefixed` append
unfoldable pub length_prefixed : Bytes → Bytes
unfolding to_be_bytes
length_prefixed value = to_be_bytes (length value) ++ value

abbrev from_be_bytes : ℕ → ℕ → ℕ → ℕ → ℕ → ℕ → ℕ → ℕ → ℕ
from_be_bytes a b c d e f g h =
    2 ^ 56 * a + 2 ^ 48 * b + 2 ^ 40 * c + 2 ^ 32 * d + 2 ^ 24 * e + 2 ^ 16 * f + 2 ^ 8 * g + h

from-to_be_bytes :
    (n : ℕ)
    → n < 2 ^ 64
    → from_be_bytes
        (n / 2 ^ 56 % 256)
        (n / 2 ^ 48 % 256)
        (n / 2 ^ 40 % 256)
        (n / 2 ^ 32 % 256)
        (n / 2 ^ 24 % 256)
        (n / 2 ^ 16 % 256)
        (n / 2 ^ 8 % 256)
        (n % 256)
      ≡ n
from-to_be_bytes n h = omega arith

-- the number at the head of an encoded text, and what follows it
decode : Bytes → ℕ × Bytes
decode (a ∷ b ∷ c ∷ d ∷ e ∷ f ∷ g ∷ h ∷ rest) = (from_be_bytes a b c d e f g h, rest)
decode rest = (0, rest)

decode-length_prefixed :
    (value rest : Bytes)
    → length value < 2 ^ 64
    → decode (length_prefixed value ++ rest) ≡ (length value, value ++ rest)
unfolding decode length_prefixed
decode-length_prefixed value rest h =
    ap (λ n. (n, value ++ rest)) (from-to_be_bytes (length value) h)

append_inj :
    (xs ys zs ws : Bytes) → length xs ≡ length ys → xs ++ zs ≡ ys ++ ws → (xs ≡ ys) × (zs ≡ ws)
append_inj [] [] zs ws l h = (refl, h)
append_inj [] (y ∷ ys) zs ws l h = absurd (omega (arith, l))
append_inj (x ∷ xs) [] zs ws l h = absurd (omega (arith, l))
append_inj (x ∷ xs) (y ∷ ys) zs ws l h =
    let (head, rest) = cons_inj h in
    let (same, after) = append_inj xs ys zs ws (omega (arith, l)) rest in (cc (head, same), after)
  where
    cons_inj : {a b : ℕ} {s t : Bytes} → ◌≡◌ {A = Bytes} (a ∷ s) (b ∷ t) → (a ≡ b) × (s ≡ t)
    cons_inj e = (cc, cc)

-- A prefixed text ends where its length says: what precedes and what follows can be told apart.
pub length_prefixed_inj :
    (value value' rest rest' : Bytes)
    → length value < 2 ^ 64
    → length value' < 2 ^ 64
    → length_prefixed value ++ rest ≡ length_prefixed value' ++ rest'
    → (value ≡ value') × (rest ≡ rest')
length_prefixed_inj value value' rest rest' h h' e =
    let same : ◌≡◌ {A = ℕ × Bytes} (length value, value ++ rest) (length value', value' ++ rest') =
      sym (decode-length_prefixed value rest h)
      ∙ ap decode e
      ∙ decode-length_prefixed value' rest' h' in
    append_inj value value' rest rest' (ap (λ p. p.0) same) (ap (λ p. p.1) same)

-- ===== src/Prelude/Text.antt =====
-- `trim` of the Rust standard library on texts in UTF-8: `char::is_whitespace` by the bytes of each
-- white space character.
use mathlib.Core.Bool.{Bool, ◌&&◌, ◌||◌}
use mathlib.Core.List.{[], ◌∷◌, reverse}
use Prim.Native.Nat.{ℕ}
use ores_middleware.Prelude.Bytes.{Bytes}
use ores_middleware.Prelude.Tests.{leb, ◌==◌, if◌then◌else◌}

-- U+0009 to U+000D and the space
white_1 : ℕ → Bool
white_1 b = leb 9 b && leb b 13 || b == 32

-- U+0085 and U+00A0
white_2 : ℕ → ℕ → Bool
white_2 b c = b == 0xc2 && (c == 0x85 || c == 0xa0)

-- U+1680, U+2000 to U+200A, U+2028, U+2029, U+202F, U+205F and U+3000
white_3 : ℕ → ℕ → ℕ → Bool
white_3 b c d =
    b == 0xe1 && (c == 0x9a && d == 0x80)
    || b == 0xe2
      && (c == 0x80 && (leb 0x80 d && leb d 0x8a || (d == 0xa8 || (d == 0xa9 || d == 0xaf))))
    || b == 0xe2 && (c == 0x81 && d == 0x9f)
    || b == 0xe3 && (c == 0x80 && d == 0x80)

-- Drops white space at the head, whose characters have the bytes in the order of the tests.
drop_white : (ℕ → ℕ → Bool) → (ℕ → ℕ → ℕ → Bool) → Bytes → Bytes
unfolding white_1
drop_white two three [] = []
drop_white two three (b ∷ []) = if white_1 b then [] else b ∷ []
drop_white two three (b ∷ c ∷ []) =
    let later = drop_white two three (c ∷ []) in
    if white_1 b then later else if two b c then [] else b ∷ c ∷ []
drop_white two three (b ∷ c ∷ d ∷ s) =
    let after_1 = drop_white two three (c ∷ d ∷ s) in
    let after_2 = drop_white two three (d ∷ s) in
    let after_3 = drop_white two three s in
    if white_1 b
    then after_1
    else if two b c
    then after_2
    else if three b c d
    then after_3
    else b ∷ c ∷ d ∷ s

unfoldable pub trim : Bytes → Bytes
unfolding drop_white white_2 white_3
trim s =
    let from_start = drop_white white_2 white_3 s in
    reverse (drop_white (λ b c. white_2 c b) (λ b c d. white_3 d c b) (reverse from_start))

-- ===== src/Bindings/Identifiers.antt =====
-- `stable_lower_id` of src/rust/src/rate_limit_bindings.rs against its grammar: words of letters and
-- digits with one separator between two of them.
use ores_middleware.Prelude.Bytes.{Bytes, is_empty, is_ascii_lowercase, is_ascii_digit}
use ores_middleware.Prelude.{
  ℕ, ◌≤◌, ◌≡◌, ◌↔◌, refl, sym, ap, ◌∙◌, inl, inr, Bool, true, false, not, ◌&&◌, ◌||◌, List, [], ◌∷◌,
  ◌++◌, ltb, length, all, All, arith, Bool-cases,
}
use ores_middleware.Bindings.Paths.{is_separator, stable_from, stable_lower_id}

abbrev pub is_word_byte : ℕ → Bool
is_word_byte byte = is_ascii_lowercase byte || is_ascii_digit byte

-- a first word, and further words with the separator before each
unfoldable pub joined : Bytes → List (ℕ × Bytes) → Bytes
joined word [] = word
joined word ((separator, next) ∷ more) = word ++ separator ∷ joined next more

abbrev pub IsPart : Bool → ℕ × Bytes → Type 0
IsPart allow_colon part =
    (is_separator allow_colon part.0 ≡ true)
    × (is_empty part.1 ≡ false)
    × (all is_word_byte part.1 ≡ true)

separator_not_word : (allow : Bool) (c : ℕ) → is_separator allow c ≡ true → is_word_byte c ≡ false
separator_not_word allow c h = ground (arith, h)

-- the rest of an identifier after a separator, or after a word byte
abbrev Splits : Bool → Bool → Bytes → Type 0
Splits allow previous s =
    (word : Bytes) × (more : List (ℕ × Bytes)) × (s ≡ joined word more)
    × ((is_empty word && previous) ≡ false)
    × (all is_word_byte word ≡ true)
    × All (IsPart allow) more

joined-cons :
    (c : ℕ) (word : Bytes) (more : List (ℕ × Bytes)) → joined (c ∷ word) more ≡ c ∷ joined word more
unfolding joined
joined-cons c word [] = refl
joined-cons c word (part ∷ more) = refl

-- a word byte before the rest
Splits-word :
    (allow previous : Bool) (c : ℕ) (s : Bytes)
    → is_word_byte c ≡ true
    → Splits allow false s
    → Splits allow previous (c ∷ s)
Splits-word allow previous c s letter (word, more, e, n, w, parts) = (
  c ∷ word,
  more,
  ap (λ t. c ∷ t) e ∙ sym (joined-cons c word more),
  refl,
  ground (arith, letter, w),
  parts,
)

-- a separator before the rest
Splits-separator :
    (allow previous : Bool) (c : ℕ) (s : Bytes)
    → is_separator allow c ≡ true
    → previous ≡ false
    → Splits allow true s
    → Splits allow previous (c ∷ s)
unfolding joined
Splits-separator allow previous c s sep first (word, more, e, n, w, parts) =
    ([], (c, word) ∷ more, ap (λ t. c ∷ t) e, first, refl, ((sep, ground (arith, n), w), parts))

splits :
    (allow previous : Bool) (s : Bytes)
    → stable_from allow previous s ≡ true
    → Splits allow previous s
unfolding stable_from joined
splits allow previous [] h = ([], [], refl, ground (arith, h), refl, tt)
splits allow previous (c ∷ s) h = elim (Bool-cases (is_word_byte c)) [
  | inl letter ↦
      let rest : stable_from allow false s ≡ true = ground (arith, h, letter) in
      Splits-word allow previous c s letter (splits allow false s rest)
  | inr other ↦
      let sep : is_separator allow c && not previous ≡ true = ground (arith, h, other) in
      let rest : stable_from allow true s ≡ true = ground (arith, h, other) in
      Splits-separator allow previous c s (ground (arith, sep)) (ground (arith, sep))
        (splits allow true s rest)
]

tail_eq : (a b : ℕ) (s t : Bytes) → a ∷ s ≡ b ∷ t → (a ≡ b) × (s ≡ t)
tail_eq a b s t e = (cc, cc)

unsplit :
    (allow previous : Bool) (s : Bytes)
    → Splits allow previous s
    → stable_from allow previous s ≡ true
unfolding stable_from joined
unsplit allow previous [] ([], [], e, n, w, parts) = ground (arith, n)
unsplit allow previous [] ([], (c, next) ∷ more, e, n, w, parts) = absurd (cc e)
unsplit allow previous [] (d ∷ word, more, e, n, w, parts) =
    absurd (cc (e ∙ joined-cons d word more))
unsplit allow previous (c ∷ s) ([], [], e, n, w, parts) = absurd (cc e)
unsplit allow previous (c ∷ s) ([], (d, next) ∷ more, e, n, w, ((sep, full, letters), parts)) =
    let (same, rest) = tail_eq c d s (joined next more) e in
    let here : is_separator allow c ≡ true = rw same sep in
    let later = unsplit allow true s (next, more, rest, ground (arith, full), letters, parts) in
    ground (arith, here, separator_not_word allow c here, n, later)
unsplit allow previous (c ∷ s) (d ∷ word, more, e, n, w, parts) =
    let (same, rest) = tail_eq c d s (joined word more) (e ∙ joined-cons d word more) in
    let here : is_word_byte c ≡ true = rw same (ground (arith, w)) in
    let later = unsplit allow false s (word, more, rest, ground arith, ground (arith, w), parts) in
    ground (arith, here, later)

-- Starts with a lowercase letter, is within the length, and is words of lowercase letters and digits with
-- one separator between two of them.
abbrev pub IsStable : Bytes → ℕ → Bool → Type 0
IsStable value max_len allow_colon =
    (c : ℕ) × (word : Bytes) × (more : List (ℕ × Bytes)) × (value ≡ joined (c ∷ word) more)
    × (is_ascii_lowercase c ≡ true)
    × (all is_word_byte word ≡ true)
    × All (IsPart allow_colon) more
    × (length value ≤ max_len)

IsStable-of_Splits :
    (b : ℕ) (s : Bytes) (max : ℕ) (allow : Bool)
    → is_ascii_lowercase b ≡ true
    → length (b ∷ s) ≤ max
    → Splits allow false s
    → IsStable (b ∷ s) max allow
IsStable-of_Splits b s max allow first le (word, more, is, n, w, parts) =
    (b, word, more, ap (λ t. b ∷ t) is ∙ sym (joined-cons b word more), first, w, parts, le)

-- An identifier is accepted exactly when it starts with a lowercase letter, is not longer than the limit,
-- and consists of words of lowercase letters and digits with one separator between two of them.
pub stable_lower_id_iff :
    (value : Bytes) (max_len : ℕ) (allow_colon : Bool)
    → (stable_lower_id value max_len allow_colon ≡ true) ↔ IsStable value max_len allow_colon
unfolding stable_lower_id stable_from
stable_lower_id_iff [] max allow = (
  λ e. absurd (cc e),
  λ (c, word, more, e, l, w, parts, le). absurd (cc (e ∙ joined-cons c word more)),
)
stable_lower_id_iff (b ∷ s) max allow = (
  λ e.
      let first : is_ascii_lowercase b ≡ true = ground (arith, e) in
      let within : ltb max (length (b ∷ s)) ≡ false = ground (arith, e) in
      let later : stable_from allow false s ≡ true = ground (arith, e, first) in
      IsStable-of_Splits b s max allow first (ground (arith, within)) (splits allow false s later),
  λ (c, word, more, e, l, w, parts, le).
      let (same, rest) = tail_eq b c s (joined word more) (e ∙ joined-cons c word more) in
      let first : is_ascii_lowercase b ≡ true = rw same l in
      let later = unsplit allow false s (word, more, rest, ground arith, w, parts) in
      ground (arith, first, later, le),
)

-- ===== src/Hardening/Attributes.antt =====
-- `validate_stage_attributes` of src/rust/src/hardening.rs. `to_vec` stands for the encoding of a
-- value by `serde_json::to_vec`, `none` for its error.
use ores_middleware.Prelude.Bytes.{Bytes, is_empty, is_ascii_lowercase, is_ascii_digit}
use ores_middleware.Prelude.{
  ℕ, ◌+◌, ◌^◌, ◌≤◌, ◌<◌, ◌≡◌, ◌↔◌, ◌⊎◌, inl, inr, refl, Bool, true, false, not, ◌||◌, List, [], ◌∷◌,
  Option, none, some, ◌==◌, ltb, length, all, All, String, Bool-cases, Sum-cases, Option-cases,
  if◌then◌else◌, arith,
}

abbrev pub max_stage_attributes : ℕ
max_stage_attributes = 32

abbrev pub max_stage_attribute_key_bytes : ℕ
max_stage_attribute_key_bytes = 64

abbrev pub max_stage_attribute_value_bytes : ℕ
max_stage_attribute_value_bytes = 1024

abbrev pub max_stage_attribute_bytes : ℕ
max_stage_attribute_bytes = 8192

abbrev pub usize_mod : ℕ
usize_mod = 2 ^ 64

pub is_stage_attribute_key_byte : ℕ → Bool
is_stage_attribute_key_byte c =
    is_ascii_lowercase c || is_ascii_digit c || (c == b'.' || c == b'_' || c == b'-')

abbrev pub is_ok : Option String → Bool
is_ok none = true
is_ok (some _) = false

-- `checked_add`
abbrev checked_add : ℕ → ℕ → Option ℕ
checked_add a b = if ltb (a + b) usize_mod then some (a + b) else none

module _ {Value : Type 0} (to_vec : Value → Option Bytes) where
  key_invalid : Bytes → Bool
  unfolding is_stage_attribute_key_byte
  key_invalid key =
      is_empty key
      || ltb max_stage_attribute_key_bytes (length key)
      || not (all is_stage_attribute_key_byte key)

  -- the total after one attribute, or the code of the error
  add_attribute : ℕ → Bytes → Value → String ⊎ ℕ
  unfolding key_invalid
  add_attribute total key value =
      if key_invalid key then inl "stage_attribute_key_invalid" else elim (to_vec value) [
        | none ↦ inl "stage_attribute_value_invalid"
        | some encoded ↦
            if ltb max_stage_attribute_value_bytes (length encoded)
            then inl "stage_attribute_value_exceeded"
            else elim (checked_add total (length key)) [
              | none ↦ inl "stage_attribute_bytes_exceeded"
              | some size ↦ elim (checked_add size (length encoded)) [
                | none ↦ inl "stage_attribute_bytes_exceeded"
                | some next ↦
                    if ltb max_stage_attribute_bytes next
                    then inl "stage_attribute_bytes_exceeded"
                    else inr next
              ]
            ]
      ]

  -- the loop, with the bytes counted so far; `none` is `Ok(())`
  validate_from : ℕ → List (Bytes × Value) → Option String
  unfolding add_attribute
  validate_from total [] = none
  validate_from total ((key, value) ∷ rest) = elim (add_attribute total key value) [
    | inl code ↦ some code
    | inr next ↦ validate_from next rest
  ]

  unfoldable pub validate_stage_attributes : List (Bytes × Value) → Option String
  unfolding validate_from
  validate_stage_attributes attributes =
      if ltb max_stage_attributes (length attributes)
      then some "stage_attribute_count_exceeded"
      else validate_from 0 attributes

  abbrev pub encoded_length : Value → ℕ
  encoded_length value = elim (to_vec value) [ none ↦ 0 | some encoded ↦ length encoded ]

  abbrev pub bytes_of : List (Bytes × Value) → ℕ
  bytes_of [] = 0
  bytes_of ((key, value) ∷ rest) = length key + encoded_length value + bytes_of rest

  -- What the limits say of one attribute.
  abbrev pub IsAdmissible : Bytes × Value → Type 0
  IsAdmissible (key, value) =
      (0 < length key)
      × (length key ≤ max_stage_attribute_key_bytes)
      × (all is_stage_attribute_key_byte key ≡ true)
      × ((encoded : Bytes) × (to_vec value ≡ some encoded)
          × (length encoded ≤ max_stage_attribute_value_bytes))

  add_attribute_sound :
      (total : ℕ) (key : Bytes) (value : Value) (next : ℕ)
      → add_attribute total key value ≡ inr next
      → IsAdmissible (key, value)
        × (next ≡ total + length key + encoded_length value)
        × (next ≤ max_stage_attribute_bytes)
  unfolding add_attribute
  add_attribute_sound total key value next h = elim (Option-cases (to_vec value)) [
    | inl none_encoded ↦ absurd (ground arith)
    | inr (encoded, e) ↦ (
      (ground arith, ground arith, ground arith, (encoded, e, ground arith)),
      ground arith,
      ground arith,
    )
  ]

  add_attribute_complete :
      (total : ℕ) (key : Bytes) (value : Value)
      → IsAdmissible (key, value)
      → total + length key + encoded_length value ≤ max_stage_attribute_bytes
      → add_attribute total key value ≡ inr (total + length key + encoded_length value)
  unfolding add_attribute
  add_attribute_complete total key value (some_key, short, good, (encoded, e, small)) h =
      ground arith

  validate_from_sound :
      (total : ℕ) (attributes : List (Bytes × Value))
      → total ≤ max_stage_attribute_bytes
      → validate_from total attributes ≡ none
      → All IsAdmissible attributes × (total + bytes_of attributes ≤ max_stage_attribute_bytes)
  unfolding validate_from
  validate_from_sound total [] b h = (tt, omega arith)
  validate_from_sound total ((key, value) ∷ rest) b h =
      elim (Sum-cases (add_attribute total key value)) [
        | inl (code, e) ↦ absurd (cc (rw (e, validate_from) at h))
        | inr (next, e) ↦
            let (good, sum, small) = add_attribute_sound total key value next e in
            let (goods, fits) = validate_from_sound next rest small (rw (e, validate_from) at h) in
            ((good, goods), omega (arith, sum, fits))
      ]

  validate_from_complete :
      (total : ℕ) (attributes : List (Bytes × Value))
      → All IsAdmissible attributes
      → total + bytes_of attributes ≤ max_stage_attribute_bytes
      → validate_from total attributes ≡ none
  unfolding validate_from
  validate_from_complete total [] goods h = refl
  validate_from_complete total ((key, value) ∷ rest) (good, goods) h =
      rw (add_attribute_complete total key value good (omega arith), validate_from)
        (validate_from_complete (total + length key + encoded_length value) rest goods
          (omega arith))

  -- The attributes pass exactly when there are at most 32, every key is a short name of allowed
  -- bytes, every value encodes to at most 1024 bytes, and all keys and encodings together take at
  -- most 8192 bytes.
  pub validate_stage_attributes_iff :
      (attributes : List (Bytes × Value))
      → (validate_stage_attributes attributes ≡ none) ↔ (
          (length attributes ≤ max_stage_attributes)
          × All IsAdmissible attributes
          × (bytes_of attributes ≤ max_stage_attribute_bytes))
  unfolding validate_stage_attributes
  validate_stage_attributes_iff attributes =
      elim (Bool-cases (ltb max_stage_attributes (length attributes))) [
        | inl many ↦ (
          λ h. absurd (cc (rw (many, validate_stage_attributes) at h)),
          λ (few, _, _). absurd (ground arith),
        )
        | inr few ↦ (
          λ h.
              let (goods, fits) =
                validate_from_sound 0 attributes (omega arith)
                  (rw (few, validate_stage_attributes) at h) in
              (ground arith, goods, omega (arith, fits)),
          λ (_, goods, fits).
              rw (few, validate_stage_attributes)
                (validate_from_complete 0 attributes goods (omega (arith, fits))),
        )
      ]

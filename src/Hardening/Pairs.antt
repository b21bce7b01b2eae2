-- ===== src/Hardening/Pairs.antt =====
-- One round of `admit_raw_headers` (src/rust/src/hardening.rs) on a header pair.
use mathlib.Core.Path.{subst}
use mathlib.Core.Logic.{ite}
use ores_middleware.Prelude.Bytes.{Bytes, Bytes-discrete, to_ascii_lowercase}
use ores_middleware.Prelude.Maps.{lookup, insert, lookup-insert_self, lookup-insert_ne}
use ores_middleware.Prelude.{
  ℕ, ◌+◌, ◌≤◌, ◌<◌, ◌≡◌, ◌≢◌, ◌⊎◌, inl, inr, sym, ap, ◌∙◌, true, false, List, [], ◌∷◌, Option, none,
  some, length, all, any, All, Bool-cases, Sum-cases, Option-cases, arith,
}
use ores_middleware.Hardening.Problem.{is_forbidden_header_value_byte}
use ores_middleware.Hardening.Headers.{
  max_header_name_bytes, max_header_value_bytes, max_header_bytes, is_http_token_byte,
  is_singleton_or_security_sensitive, is_joinable_list_header, joined_value, admit_entry,
  pair_error, add_bytes, admit_one,
}

-- The values of the pairs that bear the name, in their order.
abbrev pub values_of : Bytes → List (Bytes × Bytes) → List Bytes
values_of k [] = []
values_of k ((name, value) ∷ rest) =
    ite (Bytes-discrete (to_ascii_lowercase name) k) (value ∷ values_of k rest) (values_of k rest)

-- The values joined, after a first one that is there already.
abbrev pub joined_from : Option Bytes → List Bytes → Option Bytes
joined_from o [] = o
joined_from none (v ∷ vs) = joined_from (some v) vs
joined_from (some e) (v ∷ vs) = joined_from (some (joined_value e v)) vs

abbrev pub bytes_of : List (Bytes × Bytes) → ℕ
bytes_of [] = 0
bytes_of ((name, value) ∷ rest) = length name + length value + bytes_of rest

-- no control byte but the horizontal tab
abbrev pub IsFieldByte : ℕ → Type 0
IsFieldByte b = (b ≡ 9) ⊎ (0x20 ≤ b) × (b ≢ 0x7f)

abbrev pub IsAdmissible : Bytes × Bytes → Type 0
IsAdmissible (name, value) =
    (0 < length name)
    × (length name ≤ max_header_name_bytes)
    × (length value ≤ max_header_value_bytes)
    × (all is_http_token_byte name ≡ true)
    × All IsFieldByte value

-- A name of which several values may be joined.
abbrev pub MayRepeat : Bytes → Type 0
MayRepeat k = (is_singleton_or_security_sensitive k ≡ false) × (is_joinable_list_header k ≡ true)

abbrev pub held : Option Bytes → ℕ
held none = 0
held (some _) = 1

-- The two outcomes that let a pair in.
admit_entry_cases :
    (name value : Bytes) (m m' : List (Bytes × Bytes))
    → admit_entry name value m ≡ inr m'
    → ((lookup Bytes-discrete name m ≡ none) × (insert Bytes-discrete name value m ≡ m'))
      ⊎ (MayRepeat name
          × ((existing : Bytes) × (lookup Bytes-discrete name m ≡ some existing)
              × (insert Bytes-discrete name (joined_value existing value) m ≡ m')))
unfolding admit_entry
admit_entry_cases name value m m' h = elim (Option-cases (lookup Bytes-discrete name m)) [
  | inl e ↦ inl (e, cc (rw (admit_entry, e) at h))
  | inr (existing, e) ↦ elim (Bool-cases (is_singleton_or_security_sensitive name)) [
    | inl s ↦ absurd (cc (rw (admit_entry, e, s) at h))
    | inr s ↦ elim (Bool-cases (is_joinable_list_header name)) [
      | inl j ↦ inr ((s, j), (existing, e, cc (rw (admit_entry, e, s, j) at h)))
      | inr j ↦ absurd (cc (rw (admit_entry, e, s, j) at h))
    ]
  ]
]

pub inr_inj : {A B : Type 0} {x y : B} → ◌≡◌ {A = A ⊎ B} (inr x) (inr y) → x ≡ y
inr_inj h = cc

pub admit_entry_name :
    (name value : Bytes) (m m' : List (Bytes × Bytes))
    → admit_entry name value m ≡ inr m'
    → (lookup Bytes-discrete name m' ≡ joined_from (lookup Bytes-discrete name m) (value ∷ []))
      × ((lookup Bytes-discrete name m ≡ none) ⊎ MayRepeat name)
admit_entry_name name value m m' h = elim (admit_entry_cases name value m m' h) [
  | inl (e, i) ↦ (rw (e, sym i) (lookup-insert_self Bytes-discrete name value m), inl e)
  | inr (r, (existing, e, i)) ↦ (
    rw (e, sym i) (lookup-insert_self Bytes-discrete name (joined_value existing value) m),
    inr r,
  )
]

pub admit_entry_other :
    (name value k : Bytes) (m m' : List (Bytes × Bytes))
    → name ≢ k
    → admit_entry name value m ≡ inr m'
    → lookup Bytes-discrete k m' ≡ lookup Bytes-discrete k m
admit_entry_other name value k m m' ne h = elim (admit_entry_cases name value m m' h) [
  | inl (e, i) ↦ rw (sym i) (lookup-insert_ne Bytes-discrete name k value m ne)
  | inr (r, (existing, e, i)) ↦
      rw (sym i) (lookup-insert_ne Bytes-discrete name k (joined_value existing value) m ne)
]

IsFieldByte-of : (b : ℕ) → is_forbidden_header_value_byte b ≡ false → IsFieldByte b
unfolding is_forbidden_header_value_byte
IsFieldByte-of b h = ground arith

field_bytes :
    (value : Bytes) → any is_forbidden_header_value_byte value ≡ false → All IsFieldByte value
field_bytes [] h = tt
field_bytes (b ∷ value) h = elim (Bool-cases (is_forbidden_header_value_byte b)) [
  | inl bad ↦ absurd (cc (rw bad at h))
  | inr fine ↦ (IsFieldByte-of b fine, field_bytes value (rw fine at h))
]

pair_error_sound : (name value : Bytes) → pair_error name value ≡ none → IsAdmissible (name, value)
unfolding pair_error
pair_error_sound name value h =
    (ground arith, ground arith, ground arith, ground arith, field_bytes value (ground arith))

add_bytes_sound :
    (total : ℕ) (name value : Bytes) (next : ℕ)
    → add_bytes total name value ≡ some next
    → (next ≡ total + length name + length value) × (next ≤ max_header_bytes)
unfolding add_bytes
add_bytes_sound total name value next h = (ground arith, ground arith)

pub admit_one_sound :
    (total : ℕ) (m : List (Bytes × Bytes)) (name value : Bytes) {next : ℕ}
    {m' : List (Bytes × Bytes)}
    → admit_one total m name value ≡ inr (next, m')
    → IsAdmissible (name, value)
      × (next ≡ total + length name + length value)
      × (next ≤ max_header_bytes)
      × (admit_entry (to_ascii_lowercase name) value m ≡ inr m')
unfolding admit_one
admit_one_sound total m name value {next} {m'} h = elim (Option-cases (pair_error name value)) [
  | inr (code, e) ↦ absurd (cc (rw (admit_one, e) at h))
  | inl e ↦ elim (Option-cases (add_bytes total name value)) [
    | inl f ↦ absurd (cc (rw (admit_one, e, f) at h))
    | inr (n, f) ↦ elim (Sum-cases (admit_entry (to_ascii_lowercase name) value m)) [
      | inl (code, g) ↦ absurd (cc (rw (admit_one, e, f, g) at h))
      | inr (mm, g) ↦
          let (sum, small) = add_bytes_sound total name value n f in
          let both : ◌≡◌ {A = ℕ × List (Bytes × Bytes)} (n, mm) (next, m') =
            cc (rw (admit_one, e, f, g) at h) in
          (
            pair_error_sound name value e,
            sym (ap (λ p. p.0) both) ∙ sum,
            subst (λ p. p.0 ≤ max_header_bytes) both small,
            g ∙ ap (λ p. inr p.1) both,
          )
    ]
  ]
]

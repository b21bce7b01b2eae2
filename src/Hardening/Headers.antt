-- ===== src/Hardening/Headers.antt =====
-- `admit_raw_headers` of src/rust/src/hardening.rs. The map of the admitted headers is a list with
-- one pair for each name.
use ores_middleware.Prelude.Bytes.{
  Bytes, Bytes-discrete, codes, is_empty, is_ascii_alphanumeric, to_ascii_lowercase, one_of,
  starts_with,
}
use ores_middleware.Prelude.Maps.{lookup, insert}
use ores_middleware.Prelude.{
  ℕ, ◌+◌, ◌⊎◌, inl, inr, Bool, true, false, not, ◌&&◌, ◌||◌, List, [], ◌∷◌, ◌++◌, Option, none,
  some, String, ◌==◌, leb, ltb, length, all, any, if◌then◌else◌,
}
use ores_middleware.Hardening.Attributes.{usize_mod}
use ores_middleware.Hardening.Problem.{is_forbidden_header_value_byte}

abbrev pub max_raw_headers : ℕ
max_raw_headers = 128

abbrev pub max_header_name_bytes : ℕ
max_header_name_bytes = 128

abbrev pub max_header_value_bytes : ℕ
max_header_value_bytes = 8192

abbrev pub max_header_bytes : ℕ
max_header_bytes = 65536

unfoldable pub is_http_token_byte : ℕ → Bool
is_http_token_byte c =
    is_ascii_alphanumeric c
    || (c == b'!'
        || c == b'#'
        || c == b'$'
        || c == b'%'
        || c == b'&'
        || c == 39
        || c == b'*'
        || c == b'+'
        || c == b'-'
        || c == b'.'
        || c == b'^'
        || c == b'_'
        || c == b'`'
        || c == b'|'
        || c == b'~')

unfoldable pub is_singleton_or_security_sensitive : Bytes → Bool
unfolding one_of starts_with
is_singleton_or_security_sensitive name =
    one_of name (
      codes "content-length"
      ∷ codes "transfer-encoding"
      ∷ codes "authorization"
      ∷ codes "cookie"
      ∷ codes "host"
      ∷ codes "origin"
      ∷ codes "forwarded"
      ∷ codes "cf-connecting-ip"
      ∷ codes "traceparent"
      ∷ codes "idempotency-key"
      ∷ [])
    || starts_with name (codes "x-forwarded-")
    || starts_with name (codes "x-ores-")

unfoldable pub is_joinable_list_header : Bytes → Bool
unfolding one_of
is_joinable_list_header name = one_of name (
    codes "accept"
    ∷ codes "accept-encoding"
    ∷ codes "accept-language"
    ∷ codes "cache-control"
    ∷ codes "pragma"
    ∷ codes "via"
    ∷ codes "warning"
    ∷ [])

-- the two `push_str` on an occupied entry
unfoldable pub joined_value : Bytes → Bytes → Bytes
joined_value existing value =
    (if not (is_empty existing) && not (is_empty value) then existing ++ codes ", " else existing)
    ++ value

-- the `match` on the entry of the map
unfoldable pub admit_entry : Bytes → Bytes → List (Bytes × Bytes) → String ⊎ List (Bytes × Bytes)
unfolding is_singleton_or_security_sensitive is_joinable_list_header joined_value lookup insert
admit_entry name value admitted = elim (lookup Bytes-discrete name admitted) [
  | none ↦ inr (insert Bytes-discrete name value admitted)
  | some existing ↦
      if is_singleton_or_security_sensitive name
      then inl "duplicate_header_forbidden"
      else if not (is_joinable_list_header name)
      then inl "duplicate_header_ambiguous"
      else inr (insert Bytes-discrete name (joined_value existing value) admitted)
]

-- the checks of one pair that do not read the map: the code of the error
unfoldable pub pair_error : Bytes → Bytes → Option String
unfolding is_http_token_byte is_forbidden_header_value_byte
pair_error name value =
    if is_empty name || ltb max_header_name_bytes (length name)
    then some "header_name_size_invalid"
    else if ltb max_header_value_bytes (length value)
    then some "header_value_size_exceeded"
    else if not (all is_http_token_byte name)
    then some "header_name_invalid"
    else if any is_forbidden_header_value_byte value
    then some "header_value_invalid"
    else none

-- `checked_add` of both lengths and the limit: the new total, or `none`
unfoldable pub add_bytes : ℕ → Bytes → Bytes → Option ℕ
add_bytes total name value =
    if ltb (total + length name) usize_mod
      && ltb (total + length name + length value) usize_mod
      && leb (total + length name + length value) max_header_bytes
    then some (total + length name + length value)
    else none

-- one round of the loop
unfoldable pub admit_one :
    ℕ → List (Bytes × Bytes) → Bytes → Bytes → String ⊎ (ℕ × List (Bytes × Bytes))
unfolding pair_error add_bytes admit_entry to_ascii_lowercase
admit_one total admitted name value = elim (pair_error name value) [
  | some code ↦ inl code
  | none ↦ elim (add_bytes total name value) [
    | none ↦ inl "header_bytes_exceeded"
    | some next ↦ elim (admit_entry (to_ascii_lowercase name) value admitted) [
      | inl code ↦ inl code
      | inr extended ↦ inr (next, extended)
    ]
  ]
]

unfoldable pub admit_from :
    ℕ → List (Bytes × Bytes) → List (Bytes × Bytes) → String ⊎ List (Bytes × Bytes)
unfolding admit_one
admit_from total admitted [] = inr admitted
admit_from total admitted ((name, value) ∷ rest) = elim (admit_one total admitted name value) [
  | inl code ↦ inl code
  | inr (next, extended) ↦ admit_from next extended rest
]

abbrev pub is_some : {A : Type 0} → Option A → Bool
is_some none = false
is_some (some _) = true

-- the check of the two framing headers after the loop
unfoldable pub unambiguous : List (Bytes × Bytes) → String ⊎ List (Bytes × Bytes)
unfolding lookup
unambiguous admitted =
    if is_some (lookup Bytes-discrete (codes "content-length") admitted)
      && is_some (lookup Bytes-discrete (codes "transfer-encoding") admitted)
    then inl "transfer_length_ambiguous"
    else inr admitted

unfoldable pub admit_raw_headers : List (Bytes × Bytes) → String ⊎ List (Bytes × Bytes)
unfolding admit_from unambiguous
admit_raw_headers raw_headers =
    if ltb max_raw_headers (length raw_headers)
    then inl "header_count_exceeded"
    else elim (admit_from 0 [] raw_headers) [
      | inl code ↦ inl code
      | inr admitted ↦ unambiguous admitted
    ]

-- ===== src/Security/Cookies.antt =====
-- `parse_cookie_header` of src/rust/src/security.rs.
use ores_middleware.Prelude.Bytes.{Bytes, Bytes-discrete, is_empty, is_ascii_alphanumeric}
use ores_middleware.Prelude.Maps.{lookup, insert}
use ores_middleware.Prelude.Text.{trim}
use ores_middleware.Prelude.{
  ℕ, ◌+◌, ◌-◌, ◌^◌, ◌⊎◌, inl, inr, Bool, not, ◌||◌, List, [], ◌∷◌, Option, none, some, String, ◌==◌,
  ltb, length, all, any, if◌then◌else◌,
}

abbrev pub Cookies : Type 0
Cookies = List (Bytes × Bytes)

abbrev pub max_csrf_cookie_header_bytes : ℕ
max_csrf_cookie_header_bytes = 16384

abbrev pub max_csrf_cookie_pairs : ℕ
max_csrf_cookie_pairs = 64

abbrev pub max_csrf_cookie_name_bytes : ℕ
max_csrf_cookie_name_bytes = 128

abbrev pub max_csrf_cookie_value_bytes : ℕ
max_csrf_cookie_value_bytes = 4096

abbrev pub usize_max : ℕ
usize_max = 2 ^ 64 - 1

unfoldable pub saturating_next : ℕ → ℕ
saturating_next count = if count == usize_max then count else count + 1

abbrev pub push_head : ℕ → List Bytes → List Bytes
push_head c [] = (c ∷ []) ∷ []
push_head c (s ∷ parts) = (c ∷ s) ∷ parts

-- `split` at a character
unfoldable pub split_at : ℕ → Bytes → List Bytes
split_at separator [] = [] ∷ []
split_at separator (c ∷ s) =
    let parts = split_at separator s in if c == separator then [] ∷ parts else push_head c parts

-- `split_once('=')`
unfoldable pub split_pair : Bytes → Option (Bytes × Bytes)
split_pair [] = none
split_pair (c ∷ s) =
    let rest = split_pair s in
    if c == b'='
    then some ([], s)
    else elim rest [ none ↦ none | some (name, value) ↦ some (c ∷ name, value) ]

unfoldable pub is_cookie_name_byte : ℕ → Bool
is_cookie_name_byte byte =
    is_ascii_alphanumeric byte
    || (byte == b'!'
        || byte == b'#'
        || byte == b'$'
        || byte == b'%'
        || byte == b'&'
        || byte == 39
        || byte == b'*'
        || byte == b'+'
        || byte == b'-'
        || byte == b'.'
        || byte == b'^'
        || byte == b'_'
        || byte == b'`'
        || byte == b'|'
        || byte == b'~')

unfoldable pub is_forbidden_cookie_value_byte : ℕ → Bool
is_forbidden_cookie_value_byte byte =
    byte == 0 || byte == 13 || byte == 10 || ltb byte 0x20 || byte == 0x7f

unfoldable pub invalid_pair : Bytes → Bytes → Bool
unfolding is_cookie_name_byte is_forbidden_cookie_value_byte
invalid_pair name value =
    is_empty name
    || ltb max_csrf_cookie_name_bytes (length name)
    || not (all is_cookie_name_byte name)
    || ltb max_csrf_cookie_value_bytes (length value)
    || any is_forbidden_cookie_value_byte value

-- The loop over the parts, with the number of the pairs and the cookies so far.
unfoldable pub parse_from : ℕ → Cookies → List Bytes → String ⊎ Cookies
unfolding saturating_next trim split_pair invalid_pair lookup insert
parse_from count cookies [] = inr cookies
parse_from count cookies (raw ∷ parts) =
    let part : Bytes = trim raw in
    let next : ℕ = saturating_next count in
    let skipped = parse_from count cookies parts in
    if is_empty part
    then skipped
    else if ltb max_csrf_cookie_pairs next
    then inl "csrf_cookie_count_exceeded"
    else elim (split_pair part) [
      | none ↦ inl "csrf_cookie_invalid"
      | some pair ↦
          if invalid_pair (trim pair.0) (trim pair.1)
          then inl "csrf_cookie_invalid"
          else elim (lookup Bytes-discrete (trim pair.0) cookies) [
            | some _ ↦ inl "csrf_cookie_ambiguous"
            | none ↦
                parse_from next (insert Bytes-discrete (trim pair.0) (trim pair.1) cookies) parts
          ]
    ]

unfoldable pub parse_cookie_header : Bytes → String ⊎ Cookies
unfolding split_at parse_from
parse_cookie_header value =
    if ltb max_csrf_cookie_header_bytes (length value)
    then inl "csrf_cookie_header_too_large"
    else parse_from 0 [] (split_at b';' value)

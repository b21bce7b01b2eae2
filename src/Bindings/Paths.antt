-- ===== src/Bindings/Paths.antt =====
-- The paths, templates and identifiers of src/rust/src/rate_limit_bindings.rs. The tests of one segment
-- are the same as in rate_limit_routes.rs. Texts are bytes in UTF-8.
use ores_middleware.Prelude.Bytes.{
  Bytes, codes, is_empty, is_ascii_lowercase, is_ascii_uppercase, is_ascii_digit,
  is_ascii_alphanumeric, bytes_eq, starts_with,
}
use ores_middleware.Prelude.{
  ℕ, ◌%◌, Bool, true, false, not, ◌&&◌, ◌||◌, List, [], ◌∷◌, Option, none, some, String, ◌==◌, ltb,
  leb, length, all, any, if◌then◌else◌,
}
use ores_middleware.Routes.Paths.{
  u32_mod, split_slashes, is_parameter_segment, is_catch_all, count_static, before_query, is_nil,
  ends_with,
}

-- `strip_prefix('/').unwrap_or(path)`
unfoldable pub strip_slash : Bytes → Bytes
strip_slash [] = []
strip_slash (c ∷ s) = if c == b'/' then s else c ∷ s

unfoldable pub path_segments : Bytes → List Bytes
unfolding strip_slash split_slashes bytes_eq
path_segments path = if bytes_eq path (codes "/") then [] else split_slashes (strip_slash path)

-- `count() as u32`
unfoldable pub static_segment_count : Bytes → ℕ
unfolding count_static path_segments
static_segment_count template = count_static (path_segments template) % u32_mod

-- The loop of `path_template_matches` over the template's segments, with the segments of the path from
-- `path_index` on. A parameter does not match an empty segment.
unfoldable pub match_segments : List Bytes → List Bytes → Bool
unfolding is_parameter_segment bytes_eq
match_segments [] path = is_nil path
match_segments (segment ∷ template) [] = is_catch_all segment && is_nil template
match_segments (segment ∷ template) (part ∷ path) =
    let rest = match_segments template path in
    if is_catch_all segment && is_nil template
    then true
    else if is_parameter_segment segment
    then if is_empty part then false else rest
    else if not (bytes_eq segment part)
    then false
    else rest

unfoldable pub path_template_matches : Bytes → Bytes → Bool
unfolding path_segments before_query match_segments
path_template_matches template request_path =
    match_segments (path_segments template) (path_segments (before_query request_path))

-- a text within a length whose first byte and other bytes pass a test each
unfoldable pub token : ℕ → (ℕ → Bool) → (ℕ → Bool) → Bytes → Bool
token limit first other [] = false
token limit first other (c ∷ s) = leb (length (c ∷ s)) limit && (first c && all other s)

abbrev pub is_ascii_alphabetic : ℕ → Bool
is_ascii_alphabetic c = is_ascii_lowercase c || is_ascii_uppercase c

unfoldable pub valid_request_http_method : Bytes → Bool
unfolding token
valid_request_http_method =
    token 32 is_ascii_alphabetic (λ byte. is_ascii_alphanumeric byte || byte == b'-')

unfoldable pub valid_http_method : Bytes → Bool
unfolding token
valid_http_method =
    token 32 is_ascii_uppercase
      (λ byte. is_ascii_uppercase byte || is_ascii_digit byte || byte == b'-')

unfoldable pub valid_parameter_name : Bytes → Bool
unfolding token
valid_parameter_name =
    token 64 (λ byte. is_ascii_alphabetic byte || byte == b'_')
      (λ byte. is_ascii_alphanumeric byte || byte == b'_')

unfoldable pub valid_operation_id : Bytes → Bool
valid_operation_id value =
    not (is_empty value)
    && (leb (length value) 160
        && all
            (λ byte.
              is_ascii_alphanumeric byte
              || (byte == b'-' || byte == b'_' || byte == b'.' || byte == b':' || byte == b'/'))
            value)

abbrev pub is_separator : Bool → ℕ → Bool
is_separator allow_colon byte =
    (byte == b'-' || byte == b'_' || byte == b'.') || allow_colon && byte == b':'

-- the loop of `stable_lower_id`, from a byte on
unfoldable pub stable_from : Bool → Bool → Bytes → Bool
stable_from allow_colon previous_separator [] = not previous_separator
stable_from allow_colon previous_separator (byte ∷ bytes) =
    let letter : Bool = is_ascii_lowercase byte || is_ascii_digit byte in
    let rest = stable_from allow_colon (not letter) bytes in
    if letter
    then rest
    else if is_separator allow_colon byte && not previous_separator
    then rest
    else false

unfoldable pub stable_lower_id : Bytes → ℕ → Bool → Bool
unfolding stable_from
stable_lower_id [] max_len allow_colon = false
stable_lower_id (byte ∷ bytes) max_len allow_colon =
    if ltb max_len (length (byte ∷ bytes))
    then false
    else if not (is_ascii_lowercase byte)
    then false
    else stable_from allow_colon false (byte ∷ bytes)

unfoldable pub valid_route_class_id : Bytes → Bool
unfolding stable_lower_id
valid_route_class_id value = stable_lower_id value 80 false

unfoldable pub valid_policy_id : Bytes → Bool
unfolding stable_lower_id
valid_policy_id value = stable_lower_id value 160 true

-- `strip_suffix('}')`
abbrev pub drop_last : Bytes → Bytes
drop_last [] = []
drop_last (c ∷ []) = []
drop_last (c ∷ d ∷ s) = c ∷ drop_last (d ∷ s)

-- the name in braces is malformed
unfoldable pub invalid_braced : Bytes → Bool
unfolding valid_parameter_name starts_with
invalid_braced name = not (ends_with name b'}') || not (valid_parameter_name (drop_last name))

-- the tests of a segment that is neither empty, nor dots, nor a catch-all; `none` stands for `Ok`
unfoldable pub segment_error : Bytes → Option String
unfolding invalid_braced
segment_error [] = none
segment_error (c ∷ name) =
    if c == b'{'
    then if invalid_braced name then some "invalid-path-parameter" else none
    else if c == b':'
    then if not (valid_parameter_name name) then some "invalid-path-parameter" else none
    else if any (λ d. d == b'{') (c ∷ name)
        || (any (λ d. d == b'}') (c ∷ name) || any (λ d. d == b'*') (c ∷ name))
    then some "invalid-path-segment"
    else none

-- the loop of `validate_path_template`
unfoldable pub validate_segments : List Bytes → Option String
unfolding segment_error bytes_eq
validate_segments [] = none
validate_segments (segment ∷ segments) =
    let rest = validate_segments segments in
    if is_empty segment
    then some "empty-path-segment"
    else if bytes_eq segment (codes ".") || bytes_eq segment (codes "..")
    then some "dot-path-segment"
    else if is_catch_all segment
    then if is_nil segments then rest else some "catch-all-must-be-terminal"
    else elim (segment_error segment) [ some code ↦ some code | none ↦ rest ]

unfoldable pub validate_path_template : Bytes → Option String
unfolding validate_segments path_segments starts_with
validate_path_template template =
    if is_empty template || (ltb 512 (length template) || not (starts_with template (codes "/")))
    then some "invalid-path-template"
    else if any (λ c. c == b'?') template || any (λ c. c == b'#') template
    then some "invalid-path-template"
    else if ltb 1 (length template) && ends_with template b'/'
    then some "non-canonical-path-template"
    else validate_segments (path_segments template)

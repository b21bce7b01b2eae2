-- ===== src/Routes/Paths.antt =====
-- The paths and path templates of src/rust/src/rate_limit_routes.rs.
use ores_middleware.Prelude.Bytes.{Bytes, codes, is_empty, bytes_eq, starts_with}
use ores_middleware.Prelude.{
  ℕ, suc, ◌%◌, ◌^◌, Bool, true, false, not, ◌&&◌, ◌||◌, List, [], ◌∷◌, reverse, Option, none, some,
  String, ◌==◌, ltb, leb, length, any, if◌then◌else◌,
}

abbrev pub u32_mod : ℕ
u32_mod = 2 ^ 32

unfoldable pub drop_slashes : Bytes → Bytes
drop_slashes [] = []
drop_slashes (c ∷ s) = let rest = drop_slashes s in if c == b'/' then rest else c ∷ s

-- `trim_matches('/')`
unfoldable pub trim_slashes : Bytes → Bytes
unfolding drop_slashes
trim_slashes s = reverse (drop_slashes (reverse (drop_slashes s)))

abbrev pub push_head : ℕ → List Bytes → List Bytes
push_head c [] = (c ∷ []) ∷ []
push_head c (s ∷ segments) = (c ∷ s) ∷ segments

-- `split('/')`
unfoldable pub split_slashes : Bytes → List Bytes
split_slashes [] = [] ∷ []
split_slashes (c ∷ s) =
    let segments = split_slashes s in if c == b'/' then [] ∷ segments else push_head c segments

unfoldable pub path_segments : Bytes → List Bytes
unfolding trim_slashes split_slashes bytes_eq
path_segments path = if bytes_eq path (codes "/") then [] else split_slashes (trim_slashes path)

-- `ends_with` one character
abbrev pub ends_with : Bytes → ℕ → Bool
ends_with s c = starts_with (reverse s) (c ∷ [])

unfoldable pub is_parameter_segment : Bytes → Bool
unfolding starts_with
is_parameter_segment segment =
    starts_with segment (codes "{") && ends_with segment b'}' && ltb 2 (length segment)
    || starts_with segment (codes ":") && ltb 1 (length segment)

abbrev pub is_catch_all : Bytes → Bool
is_catch_all segment = bytes_eq segment (codes "*")

unfoldable pub count_static : List Bytes → ℕ
unfolding is_parameter_segment bytes_eq
count_static [] = 0
count_static (segment ∷ segments) =
    let rest = count_static segments in
    if not (is_parameter_segment segment) && not (is_catch_all segment) then suc rest else rest

-- `count() as u32`
unfoldable pub static_segment_count : Bytes → ℕ
unfolding count_static path_segments
static_segment_count template = count_static (path_segments template) % u32_mod

-- `split_once('?')`, or the whole path
unfoldable pub before_query : Bytes → Bytes
before_query [] = []
before_query (c ∷ s) = let rest = before_query s in if c == b'?' then [] else c ∷ rest

abbrev pub is_nil : List Bytes → Bool
is_nil [] = true
is_nil (_ ∷ _) = false

-- The loop of `path_template_matches` over the template's segments, with the segments of the path from
-- `path_index` on.
unfoldable pub match_segments : List Bytes → List Bytes → Bool
unfolding is_parameter_segment bytes_eq
match_segments [] path = is_nil path
match_segments (segment ∷ template) [] = is_catch_all segment && is_nil template
match_segments (segment ∷ template) (part ∷ path) =
    let rest = match_segments template path in
    if is_catch_all segment && is_nil template
    then true
    else if not (is_parameter_segment segment) && not (bytes_eq segment part)
    then false
    else rest

unfoldable pub path_template_matches : Bytes → Bytes → Bool
unfolding path_segments before_query match_segments
path_template_matches template request_path =
    match_segments (path_segments template) (path_segments (before_query request_path))

-- The loop of `validate_path_template`; `none` stands for `Ok`.
unfoldable pub validate_segments : List Bytes → Option String
unfolding bytes_eq starts_with
validate_segments [] = none
validate_segments (segment ∷ segments) =
    let rest = validate_segments segments in
    if is_empty segment
    then some "empty-path-segment"
    else if is_catch_all segment && not (is_nil segments)
    then some "catch-all-must-be-terminal"
    else if starts_with segment (codes "{")
        && (not (ends_with segment b'}') || leb (length segment) 2)
    then some "invalid-path-parameter"
    else if starts_with segment (codes ":") && length segment == 1
    then some "invalid-path-parameter"
    else rest

unfoldable pub validate_path_template : Bytes → Option String
unfolding starts_with validate_segments path_segments
validate_path_template template =
    if not (starts_with template (codes "/"))
      || any (λ c. c == b'?') template
      || any (λ c. c == b'#') template
    then some "invalid-path-template"
    else if ltb 1 (length template) && ends_with template b'/'
    then some "non-canonical-path-template"
    else validate_segments (path_segments template)

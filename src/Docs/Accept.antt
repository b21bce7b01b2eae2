-- ===== src/Docs/Accept.antt =====
-- The negotiation of src/rust/src/docs_serving.rs: representations, the Accept header and its order of
-- preference. The qualities, which are f32 there, are a parameter.
use ores_middleware.Prelude.Bytes.{Bytes, codes, is_empty, bytes_eq, to_ascii_lowercase}
use ores_middleware.Prelude.Text.{trim}
use ores_middleware.Prelude.{
  ℕ, ◌+◌, Bool, true, false, not, ◌&&◌, ◌||◌, List, [], ◌∷◌, Option, none, some, ◌==◌, leb, any,
  if◌then◌else◌,
}
use ores_middleware.Hardening.Fetch.{eq_ignore_ascii_case}
use ores_middleware.Security.Cookies.{split_at}

pub data Representation : Type 0 where
  html catalog openapi openrpc connect hyper_schema : Representation

unfoldable pub as_str : Representation → Bytes
as_str html = codes "html"
as_str catalog = codes "catalog"
as_str openapi = codes "openapi"
as_str openrpc = codes "openrpc"
as_str connect = codes "connect"
as_str hyper_schema = codes "hyper-schema"

-- the arms of a `match` on a text, in order
unfoldable pub first_arm : Bytes → List (Bytes × Representation) → Option Representation
unfolding bytes_eq
first_arm value [] = none
first_arm value ((text, representation) ∷ arms) =
    let rest = first_arm value arms in if bytes_eq value text then some representation else rest

unfoldable pub parse_representation : Bytes → Option Representation
unfolding first_arm trim to_ascii_lowercase
parse_representation value = first_arm (to_ascii_lowercase (trim value)) (
    (codes "html", html)
    ∷ (codes "catalog", catalog)
    ∷ (codes "openapi", openapi)
    ∷ (codes "openrpc", openrpc)
    ∷ (codes "connect", connect)
    ∷ (codes "hyper-schema", hyper_schema)
    ∷ [])

-- `==` of two representations
unfoldable pub representation_eq : Representation → Representation → Bool
unfolding as_str bytes_eq
representation_eq a b = bytes_eq (as_str a) (as_str b)

unfoldable pub media_representation : Bytes → Option Representation
unfolding first_arm
media_representation media = first_arm media (
    (codes "*/*", html)
    ∷ (codes "application/*", catalog)
    ∷ (codes "text/html", html)
    ∷ (codes "application/vnd.ores.api-docs+json", catalog)
    ∷ (codes "application/json", catalog)
    ∷ (codes "application/vnd.oai.openapi+json", openapi)
    ∷ (codes "application/openapi+json", openapi)
    ∷ (codes "application/openrpc+json", openrpc)
    ∷ (codes "application/vnd.ores.connect+json", connect)
    ∷ (codes "application/schema+json", hyper_schema)
    ∷ [])

-- `split_once(c).unwrap_or((text, ""))`
unfoldable pub split_once : ℕ → Bytes → Bytes × Bytes
split_once separator [] = ([], [])
split_once separator (c ∷ s) =
    let (before, after) = split_once separator s in
    if c == separator then ([], s) else (c ∷ before, after)

-- What the code asks of a quality: `parse::<f32>().ok()`, `(0.0..=1.0).contains`, `> 0.0`, and whether
-- `partial_cmp` finds the first one greater.
pub record Qualities : Type 1 where
  pub F : Type 0
  pub one : F
  pub parse : Bytes → Option F
  pub in_unit : F → Bool
  pub positive : F → Bool
  pub greater : F → F → Bool

pub record MediaRange (F : Type 0) : Type 0 where
  pub media : Bytes
  pub quality : F
  pub index : ℕ

module _ (f32 : Qualities) where
  open f32 use {F, one, parse, in_unit, positive, greater}

  -- the fold over the parameters of a member, from a quality on
  unfoldable pub quality_from : F → List Bytes → Option F
  unfolding trim split_once eq_ignore_ascii_case
  quality_from quality [] = some quality
  quality_from quality (parameter ∷ parameters) =
      let skipped = quality_from quality parameters in
      let (name, raw_value) = split_once b'=' parameter in
      if is_empty (trim parameter) || not (eq_ignore_ascii_case (trim name) (codes "q"))
      then skipped
      else elim (parse (trim raw_value)) [
        | none ↦ none
        | some parsed ↦ elim (in_unit parsed) [
          | true ↦ quality_from parsed parameters
          | false ↦ none
        ]
      ]

  abbrev pub range_of : Bytes → ℕ → Option F → Option (MediaRange F)
  range_of media index none = none
  range_of media index (some quality) =
      if positive quality
      then some (record { media = media; quality = quality; index = index })
      else none

  unfoldable pub parse_media_range : ℕ → Bytes → Option (MediaRange F)
  unfolding split_once trim to_ascii_lowercase quality_from split_at
  parse_media_range index raw_part =
      let (before, parameters) = split_once b';' raw_part in
      let media : Bytes = to_ascii_lowercase (trim before) in
      if is_empty media
      then none
      else range_of media index (quality_from one (split_at b';' parameters))

  -- whether the comparison puts a range before another, or leaves it there
  abbrev pub precedes : MediaRange F → MediaRange F → Bool
  precedes left right =
      greater left.quality right.quality
      || not (greater right.quality left.quality) && leb left.index right.index

  unfoldable pub insert_range : MediaRange F → List (MediaRange F) → List (MediaRange F)
  insert_range x [] = x ∷ []
  insert_range x (y ∷ ys) =
      let rest = insert_range x ys in if precedes x y then x ∷ y ∷ ys else y ∷ rest

  -- `sort_by`, which is stable
  unfoldable pub sorted_by_preference : List (MediaRange F) → List (MediaRange F)
  unfolding insert_range
  sorted_by_preference [] = []
  sorted_by_preference (x ∷ xs) = insert_range x (sorted_by_preference xs)

  -- `enumerate` and `filter_map`
  unfoldable pub ranges_from : ℕ → List Bytes → List (MediaRange F)
  unfolding parse_media_range
  ranges_from index [] = []
  ranges_from index (part ∷ parts) =
      let rest = ranges_from (index + 1) parts in
      elim (parse_media_range index part) [ none ↦ rest | some range ↦ range ∷ rest ]

  abbrev pub is_absent : Option Bytes → Bool
  is_absent none = true
  is_absent (some value) = is_empty (trim value)

  unfoldable pub parse_accept : Option Bytes → List (MediaRange F)
  unfolding trim sorted_by_preference ranges_from split_at
  parse_accept none = []
  parse_accept (some value) =
      if is_empty (trim value)
      then []
      else sorted_by_preference (ranges_from 0 (split_at b',' value))

  -- `find_map`
  unfoldable pub first_representation : List (MediaRange F) → Option Representation
  unfolding media_representation
  first_representation [] = none
  first_representation (range ∷ ranges) =
      let rest = first_representation ranges in
      elim (media_representation range.media) [ none ↦ rest | some found ↦ some found ]

  unfoldable pub negotiate : List (MediaRange F) → Bool → Option Representation
  unfolding first_representation
  negotiate [] absent = if absent then some html else none
  negotiate (range ∷ ranges) absent = first_representation (range ∷ ranges)

  unfoldable pub negotiate_generic : Option Bytes → Option Representation
  unfolding parse_accept negotiate trim
  negotiate_generic accept = negotiate (parse_accept accept) (is_absent accept)

  abbrev pub is_representation : Representation → Option Representation → Bool
  is_representation representation none = false
  is_representation representation (some found) = representation_eq found representation

  unfoldable pub range_accepts : Representation → Bytes → Bool
  unfolding bytes_eq representation_eq media_representation
  range_accepts representation media =
      bytes_eq media (codes "*/*")
      || not (representation_eq representation html)
        && (bytes_eq media (codes "application/*") || bytes_eq media (codes "application/json"))
      || is_representation representation (media_representation media)

  unfoldable pub accepts_representation : Option Bytes → Representation → Bool
  unfolding trim parse_accept range_accepts
  accepts_representation accept representation =
      if is_absent accept
      then true
      else any (λ range. range_accepts representation range.media) (parse_accept accept)

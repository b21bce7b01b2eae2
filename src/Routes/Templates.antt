-- ===== src/Routes/Templates.antt =====
-- Which paths a template of src/rust/src/rate_limit_routes.rs matches, and how a path is cut.
use ores_middleware.Prelude.Bytes.{Bytes, codes, bytes_eq, bytes_eq_iff}
use ores_middleware.Prelude.{
  ℕ, ◌≡◌, ◌≢◌, ◌↔◌, inl, inr, refl, ap, ◌∙◌, true, ◌&&◌, List, [], ◌∷◌, ◌++◌, All, arith,
  Bool-cases, ◌==◌,
}
use ores_middleware.Routes.Paths.{
  is_parameter_segment, is_catch_all, is_nil, match_segments, path_segments, before_query,
  path_template_matches, split_slashes, push_head,
}

-- The segments of a path that fit those of a template: a final `*` takes all that is left, a parameter
-- takes any one segment, and any other segment itself.
pub data Fits : List Bytes → List Bytes → Type 0 where
  end : Fits [] []
  catch_all : (path : List Bytes) → Fits (codes "*" ∷ []) path
  parameter :
      {segment part : Bytes} {template path : List Bytes}
      → is_parameter_segment segment ≡ true
      → Fits template path
      → Fits (segment ∷ template) (part ∷ path)
  literal :
      {segment : Bytes} {template path : List Bytes}
      → Fits template path
      → Fits (segment ∷ template) (segment ∷ path)

final_catch_all :
    (segment : Bytes) (template path : List Bytes)
    → is_catch_all segment && is_nil template ≡ true
    → Fits (segment ∷ template) path
final_catch_all segment [] path h =
    let star : segment ≡ codes "*" = (bytes_eq_iff segment (codes "*")).0 (ground (arith, h)) in
    rw star (catch_all path)
final_catch_all segment (_ ∷ _) path h = absurd (ground (arith, h))

match_segments_sound :
    (template path : List Bytes) → match_segments template path ≡ true → Fits template path
unfolding match_segments
match_segments_sound [] [] h = end
match_segments_sound [] (_ ∷ _) h = absurd (cc h)
match_segments_sound (segment ∷ template) [] h = final_catch_all segment template [] h
match_segments_sound (segment ∷ template) (part ∷ path) h =
    elim (Bool-cases (is_catch_all segment && is_nil template)) [
      | inl final ↦ final_catch_all segment template (part ∷ path) final
      | inr inner ↦ elim (Bool-cases (is_parameter_segment segment)) [
        | inl is ↦ parameter is (match_segments_sound template path (rw (inner, is) at h))
        | inr fixed ↦ elim (Bool-cases (bytes_eq segment part)) [
          | inl same ↦
              rw (← (bytes_eq_iff segment part).0 same)
                (literal (match_segments_sound template path (rw (inner, fixed, same) at h)))
          | inr other ↦ absurd (cc (rw (inner, fixed, other) at h))
        ]
      ]
    ]

match_segments_complete :
    {template path : List Bytes} → Fits template path → match_segments template path ≡ true
unfolding match_segments bytes_eq
match_segments_complete end = refl
match_segments_complete (catch_all []) = refl
match_segments_complete (catch_all (_ ∷ _)) = refl
match_segments_complete (parameter {segment} {part} {template} {path} is fits) =
    elim (Bool-cases (is_catch_all segment && is_nil template)) [
      | inl final ↦ rw final refl
      | inr inner ↦ rw (inner, is) (match_segments_complete fits)
    ]
match_segments_complete (literal {segment} {template} {path} fits) =
    elim (Bool-cases (is_catch_all segment && is_nil template)) [
      | inl final ↦ rw final refl
      | inr inner ↦ elim (Bool-cases (is_parameter_segment segment)) [
        | inl is ↦ rw (inner, is) (match_segments_complete fits)
        | inr fixed ↦
            rw (inner, fixed, (bytes_eq_iff segment segment).1 refl) (match_segments_complete fits)
      ]
    ]

-- A template matches a path exactly when its segments fit those of the path before the query.
pub path_template_matches_iff :
    (template request_path : Bytes)
    → (path_template_matches template request_path ≡ true)
      ↔ Fits (path_segments template) (path_segments (before_query request_path))
unfolding path_template_matches
path_template_matches_iff template request_path = (
  match_segments_sound (path_segments template) (path_segments (before_query request_path)),
  match_segments_complete,
)

-- The path that segments make, with a slash between each and the next.
abbrev pub join : List Bytes → Bytes
join [] = []
join (s ∷ []) = s
join (s ∷ next ∷ segments) = s ++ b'/' ∷ join (next ∷ segments)

push_head-ne-nil : (c : ℕ) (segments : List Bytes) → push_head c segments ≢ []
push_head-ne-nil c [] e = cc e
push_head-ne-nil c (s ∷ segments) e = cc e

join-slash : (segments : List Bytes) → segments ≢ [] → join ([] ∷ segments) ≡ b'/' ∷ join segments
join-slash [] ne = absurd (ne refl)
join-slash (s ∷ segments) ne = refl

join-push_head :
    (c : ℕ) (segments : List Bytes)
    → segments ≢ []
    → join (push_head c segments) ≡ c ∷ join segments
join-push_head c [] ne = absurd (ne refl)
join-push_head c (s ∷ []) ne = refl
join-push_head c (s ∷ next ∷ segments) ne = refl

-- a text without a slash
abbrev pub IsSegment : Bytes → Type 0
IsSegment segment = All (λ c. c ≢ b'/') segment

push_head-All :
    (c : ℕ) (segments : List Bytes)
    → c ≢ b'/'
    → All IsSegment segments
    → All IsSegment (push_head c segments)
push_head-All c [] ne h = ((ne, tt), tt)
push_head-All c (s ∷ segments) ne (h, hs) = ((ne, h), hs)

split_slashes-ne-nil : (s : Bytes) → split_slashes s ≢ []
unfolding split_slashes
split_slashes-ne-nil [] e = cc e
split_slashes-ne-nil (c ∷ s) e = elim (Bool-cases (c == b'/')) [
  | inl slash ↦ cc (rw slash at e)
  | inr other ↦ push_head-ne-nil c (split_slashes s) (rw other at e)
]

-- A text is cut at each of its slashes, and nowhere else: the segments joined are the text, and none
-- has a slash.
pub split_slashes-join :
    (s : Bytes) → (join (split_slashes s) ≡ s) × All IsSegment (split_slashes s)
unfolding split_slashes
split_slashes-join [] = (refl, (tt, tt))
split_slashes-join (c ∷ s) =
    let (joined, segments) = split_slashes-join s in
    let ne = split_slashes-ne-nil s in
    elim (Bool-cases (c == b'/')) [
      | inl slash ↦
          let is : c ≡ b'/' = ground (arith, slash) in
          rw slash (
            join-slash (split_slashes s) ne ∙ ap (λ t. b'/' ∷ t) joined ∙ rw is refl,
            (tt, segments),
          )
      | inr other ↦
          let is : c ≢ b'/' = ground (arith, other) in
          rw other (
            join-push_head c (split_slashes s) ne ∙ ap (λ t. c ∷ t) joined,
            push_head-All c (split_slashes s) is segments,
          )
    ]

-- ===== src/Bindings/Short.antt =====
-- The size of path templates in src/rust/src/rate_limit_bindings.rs.
use ores_middleware.Prelude.Bytes.{Bytes, codes, bytes_eq, is_empty, starts_with}
use ores_middleware.Prelude.{
  ℕ, ◌+◌, ◌≤◌, ◌≡◌, refl, inl, inr, Bool, true, false, not, ◌||◌, List, [], ◌∷◌, Option, none, some,
  ltb, length, arith, Bool-cases, if◌then◌else◌, String,
}
use ores_middleware.Routes.Paths.{split_slashes, push_head, count_static}
use ores_middleware.Bindings.Paths.{
  strip_slash, path_segments, static_segment_count, validate_path_template,
}

length-push_head : (c : ℕ) (parts : List Bytes) → length (push_head c parts) ≤ length parts + 1
length-push_head c [] = omega arith
length-push_head c (s ∷ parts) = omega arith

-- at most one segment more than bytes
segments_bounded : (s : Bytes) → length (split_slashes s) ≤ length s + 1
unfolding split_slashes
segments_bounded [] = omega arith
segments_bounded (c ∷ s) =
    let rest = segments_bounded s in ground (arith, rest, length-push_head c (split_slashes s))

count-le : (segments : List Bytes) → count_static segments ≤ length segments
unfolding count_static
count-le [] = omega arith
count-le (segment ∷ segments) = ground (arith, count-le segments)

strip-le : (s : Bytes) → length (strip_slash s) ≤ length s
unfolding strip_slash
strip-le [] = omega arith
strip-le (c ∷ s) = ground arith

first_guard :
    (a b c : Bool) (code : String) (rest : Option String)
    → (if a || (b || c) then some code else rest) ≡ none
    → b ≡ false
first_guard true b c code rest e = absurd (cc e)
first_guard false true c code rest e = absurd (cc e)
first_guard false false c code rest e = refl

template_short : (template : Bytes) → validate_path_template template ≡ none → length template ≤ 512
unfolding validate_path_template
template_short template e =
    let fine =
      first_guard (is_empty template) (ltb 512 (length template))
        (not (starts_with template (codes "/"))) "invalid-path-template" _ e in
    ground (arith, fine)

pub statics-le :
    (template : Bytes)
    → validate_path_template template ≡ none
    → static_segment_count template ≤ 513
unfolding static_segment_count path_segments count_static
statics-le template e =
    let short = template_short template e in
    elim (Bool-cases (bytes_eq template (codes "/"))) [
      | inl root ↦ rw root (omega arith)
      | inr other ↦
          let parts = split_slashes (strip_slash template) in
          rw other (
            omega (
              arith,
              count-le parts,
              segments_bounded (strip_slash template),
              strip-le template,
              short,
            ))
    ]

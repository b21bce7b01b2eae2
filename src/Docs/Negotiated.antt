-- ===== src/Docs/Negotiated.antt =====
-- The negotiation of src/rust/src/docs_serving.rs agrees with its own test of what a request accepts.
use ores_middleware.Prelude.Bytes.{Bytes, bytes_eq_iff}
use ores_middleware.Prelude.{
  ◌≡◌, ◌⊎◌, refl, ◌∙◌, inl, inr, Bool, true, false, ◌||◌, List, [], ◌∷◌, Option, some, any, arith,
  Bool-cases, Option-cases,
}
use ores_middleware.Docs.Accept.{
  Representation, Qualities, MediaRange, as_str, representation_eq, media_representation, is_absent,
  parse_accept, first_representation, negotiate, negotiate_generic, is_representation,
  range_accepts, accepts_representation,
}

pub representation_eq_refl : (r : Representation) → representation_eq r r ≡ true
unfolding representation_eq
representation_eq_refl r = (bytes_eq_iff (as_str r) (as_str r)).1 refl

or_true : (a b : Bool) → b ≡ true → a || b ≡ true
or_true a b h = ground (arith, h)

module _ (f32 : Qualities) where
  range_found :
      (r : Representation) (media : Bytes)
      → media_representation media ≡ some r
      → range_accepts f32 r media ≡ true
  unfolding range_accepts
  range_found r media e =
      let same : is_representation f32 r (media_representation media) ≡ true =
        rw e (representation_eq_refl r) in
      rw (range_accepts, same) (ground arith)

  first_cons :
      (range : MediaRange f32.F) (ranges : List (MediaRange f32.F)) (r : Representation)
      → first_representation f32 (range ∷ ranges) ≡ some r
      → (media_representation range.media ≡ some r) ⊎ (first_representation f32 ranges ≡ some r)
  unfolding first_representation
  first_cons range ranges r e = elim (Option-cases (media_representation range.media)) [
    | inl out ↦ inr (rw (first_representation, out) at e)
    | inr (found, is) ↦
        let same : some found ≡ some r = rw (first_representation, is) at e in inl (is ∙ same)
  ]

  first_accepted :
      (r : Representation) (ranges : List (MediaRange f32.F))
      → first_representation f32 ranges ≡ some r
      → any (λ range. range_accepts f32 r range.media) ranges ≡ true
  unfolding first_representation
  first_accepted r [] e = absurd (cc e)
  first_accepted r (range ∷ ranges) e = elim (first_cons range ranges r e) [
    | inl here ↦ rw (range_found r range.media here) refl
    | inr later ↦
        or_true (range_accepts f32 r range.media)
          (any (λ range. range_accepts f32 r range.media) ranges) (first_accepted r ranges later)
  ]

  negotiate_cases :
      (r : Representation) (ranges : List (MediaRange f32.F))
      → negotiate f32 ranges false ≡ some r
      → any (λ range. range_accepts f32 r range.media) ranges ≡ true
  unfolding negotiate
  negotiate_cases r [] e = absurd (cc e)
  negotiate_cases r (range ∷ ranges) e = first_accepted r (range ∷ ranges) e

  -- A representation that the negotiation chooses passes the test of what the request accepts.
  pub negotiate_generic-accepts :
      (accept : Option Bytes) (r : Representation)
      → negotiate_generic f32 accept ≡ some r
      → accepts_representation f32 accept r ≡ true
  unfolding negotiate_generic accepts_representation
  negotiate_generic-accepts accept r e = elim (Bool-cases (is_absent f32 accept)) [
    | inl h ↦ rw h refl
    | inr h ↦
        let chosen : negotiate f32 (parse_accept f32 accept) false ≡ some r = rw h at e in
        rw h (negotiate_cases r (parse_accept f32 accept) chosen)
  ]

-- ===== src/Hardening/Admission.antt =====
-- What `admit_raw_headers` of src/rust/src/hardening.rs lets through, and the map it builds.
use mathlib.Core.Path.{subst}
use mathlib.Core.Logic.{if_pos, if_neg}
use ores_middleware.Prelude.Bytes.{Bytes, Bytes-discrete, codes, to_ascii_lowercase}
use ores_middleware.Prelude.Maps.{lookup}
use ores_middleware.Prelude.{
  ℕ, ◌+◌, ◌≤◌, ◌≡◌, ◌⊎◌, inl, inr, refl, sym, ap, ◌∙◌, false, List, [], ◌∷◌, Option, none, some,
  ltb, length, All, Bool-cases, Sum-cases, arith,
}
use ores_middleware.Hardening.Headers.{
  max_raw_headers, max_header_bytes, admit_entry, admit_one, admit_from, is_some, unambiguous,
  admit_raw_headers,
}
use ores_middleware.Hardening.Pairs.{
  values_of, joined_from, bytes_of, IsAdmissible, MayRepeat, held, inr_inj, admit_entry_name,
  admit_entry_other, admit_one_sound,
}

admit_from_sound :
    (total : ℕ) (m raw : List (Bytes × Bytes)) {m' : List (Bytes × Bytes)}
    → total ≤ max_header_bytes
    → admit_from total m raw ≡ inr m'
    → All IsAdmissible raw × (total + bytes_of raw ≤ max_header_bytes)
unfolding admit_from
admit_from_sound total m [] b h = (tt, omega arith)
admit_from_sound total m ((name, value) ∷ rest) b h =
    elim (Sum-cases (admit_one total m name value)) [
      | inl (code, e) ↦ absurd (cc (rw (admit_from, e) at h))
      | inr (step, e) ↦
          let (good, sum, small, _) = admit_one_sound total m name value e in
          let (goods, fits) = admit_from_sound step.0 step.1 rest small (rw (admit_from, e) at h) in
          ((good, goods), omega (arith, sum, fits))
    ]

joined_from_step :
    (o : Option Bytes) (v : Bytes) (vs : List Bytes)
    → joined_from (joined_from o (v ∷ [])) vs ≡ joined_from o (v ∷ vs)
joined_from_step none v vs = refl
joined_from_step (some e) v vs = refl

-- a name with more than one value may be repeated
abbrev Repeats : Bytes → Option Bytes → List Bytes → Type 0
Repeats k o vs = (held o + length vs ≤ 1) ⊎ MayRepeat k

held_joined : (o : Option Bytes) (v : Bytes) → held (joined_from o (v ∷ [])) ≡ 1
held_joined none v = refl
held_joined (some e) v = refl

held_le : (o : Option Bytes) → held o ≤ 1
held_le none = omega arith
held_le (some e) = omega arith

-- the pair that was let in adds one value to those of its name
Repeats-entry :
    (k value : Bytes) (m m' : List (Bytes × Bytes)) (vs : List Bytes)
    → admit_entry k value m ≡ inr m'
    → Repeats k (lookup Bytes-discrete k m') vs
    → Repeats k (lookup Bytes-discrete k m) (value ∷ vs)
Repeats-entry k value m m' vs entry repeats =
    let (found, old) = admit_entry_name k value m m' entry in
    elim repeats [
      | inr may ↦ inr may
      | inl few ↦ elim old [
        | inr may ↦ inr may
        | inl none_before ↦ inl (
            omega (
              arith,
              few,
              ap held none_before,
              ap held found ∙ held_joined (lookup Bytes-discrete k m) value,
            ))
      ]
    ]

admit_from-lookup :
    (k : Bytes) (total : ℕ) (m raw : List (Bytes × Bytes)) {m' : List (Bytes × Bytes)}
    → admit_from total m raw ≡ inr m'
    → (lookup Bytes-discrete k m' ≡ joined_from (lookup Bytes-discrete k m) (values_of k raw))
      × Repeats k (lookup Bytes-discrete k m) (values_of k raw)
unfolding admit_from
admit_from-lookup k total m [] {m'} h = (
  ap (lookup Bytes-discrete k) (sym (inr_inj h)),
  inl (omega (arith, held_le (lookup Bytes-discrete k m))),
)
admit_from-lookup k total m ((name, value) ∷ rest) {m'} h =
    elim (Sum-cases (admit_one total m name value)) [
      | inl (code, e) ↦ absurd (cc (rw (admit_from, e) at h))
      | inr (step, e) ↦
          let (_, _, _, entry) = admit_one_sound total m name value e in
          let (found, repeats) =
            admit_from-lookup k step.0 step.1 rest {m' = m'} (rw (admit_from, e) at h) in
          elim (Bytes-discrete (to_ascii_lowercase name) k) [
            | yes here ↦
                let entry' : admit_entry k value m ≡ inr step.1 =
                  subst (λ n. admit_entry n value m ≡ inr step.1) here entry in
                (
                  rw (if_pos _ here) (
                      found
                      ∙ ap (λ o. joined_from o (values_of k rest))
                          (admit_entry_name k value m step.1 entry').0
                      ∙ joined_from_step (lookup Bytes-discrete k m) value (values_of k rest)),
                  rw (if_pos _ here)
                      (Repeats-entry k value m step.1 (values_of k rest) entry' repeats),
                )
            | no ne ↦
                let same : lookup Bytes-discrete k step.1 ≡ lookup Bytes-discrete k m =
                  admit_entry_other (to_ascii_lowercase name) value k m step.1 ne entry in
                (
                  rw (if_neg _ ne) (found ∙ ap (λ o. joined_from o (values_of k rest)) same),
                  rw (if_neg _ ne) (subst (λ o. Repeats k o (values_of k rest)) same repeats),
                )
          ]
    ]

is_some-none : {A : Type 0} (o : Option A) → is_some o ≡ false → o ≡ none
is_some-none none h = refl
is_some-none (some a) h = absurd (cc h)

unambiguous_lem :
    (m m' : List (Bytes × Bytes))
    → unambiguous m ≡ inr m'
    → (m ≡ m')
      × ((lookup Bytes-discrete (codes "content-length") m ≡ none)
          ⊎ (lookup Bytes-discrete (codes "transfer-encoding") m ≡ none))
unfolding unambiguous
unambiguous_lem m m' h =
    elim (Bool-cases (is_some (lookup Bytes-discrete (codes "content-length") m))) [
      | inr c ↦ (inr_inj (rw (unambiguous, c) at h), inl (is_some-none _ c))
      | inl c ↦ elim (Bool-cases (is_some (lookup Bytes-discrete (codes "transfer-encoding") m))) [
        | inr t ↦ (inr_inj (rw (unambiguous, c, t) at h), inr (is_some-none _ t))
        | inl t ↦ absurd (cc (rw (unambiguous, c, t) at h))
      ]
    ]

admit_raw_headers_parts :
    (raw m : List (Bytes × Bytes))
    → admit_raw_headers raw ≡ inr m
    → (length raw ≤ max_raw_headers) × (admit_from 0 [] raw ≡ inr m) × (unambiguous m ≡ inr m)
unfolding admit_raw_headers
admit_raw_headers_parts raw m h = elim (Bool-cases (ltb max_raw_headers (length raw))) [
  | inl many ↦ absurd (cc (rw (admit_raw_headers, many) at h))
  | inr few ↦ elim (Sum-cases (admit_from 0 [] raw)) [
    | inl (code, e) ↦ absurd (cc (rw (admit_raw_headers, few, e) at h))
    | inr (m', e) ↦
        let ends : unambiguous m' ≡ inr m = rw (admit_raw_headers, few, e) at h in
        let same : m' ≡ m = (unambiguous_lem m' m ends).0 in
        (ground arith, e ∙ ap inr same, subst (λ l. unambiguous l ≡ inr m) same ends)
  ]
]

-- Admitted requests keep the limits: at most 128 pairs of at most 64 KiB together, every name a
-- token of 1 to 128 bytes, and every value of at most 8 KiB without a control byte but the horizontal tab.
pub admit_raw_headers-IsAdmissible :
    (raw m : List (Bytes × Bytes))
    → admit_raw_headers raw ≡ inr m
    → (length raw ≤ max_raw_headers) × All IsAdmissible raw × (bytes_of raw ≤ max_header_bytes)
admit_raw_headers-IsAdmissible raw m h =
    let (few, e, _) = admit_raw_headers_parts raw m h in
    let (goods, fits) = admit_from_sound 0 [] raw (omega arith) e in
    (few, goods, omega (arith, fits))

-- The admitted map has under each name the values of the pairs whose name is that one in lower
-- case, in their order, joined; a name that more than one pair bears is one of those that may be
-- joined, and not one that is sensitive.
pub admit_raw_headers-lookup :
    (k : Bytes) (raw m : List (Bytes × Bytes))
    → admit_raw_headers raw ≡ inr m
    → (lookup Bytes-discrete k m ≡ joined_from none (values_of k raw))
      × ((length (values_of k raw) ≤ 1) ⊎ MayRepeat k)
unfolding lookup
admit_raw_headers-lookup k raw m h =
    let (_, e, _) = admit_raw_headers_parts raw m h in
    let (found, repeats) = admit_from-lookup k 0 [] raw e in
    (found, elim repeats [ inl few ↦ inl (omega (arith, few)) | inr may ↦ inr may ])

-- An admitted request is framed by one header at most: content-length and transfer-encoding never
-- stand in the map together.
pub admit_raw_headers-framing :
    (raw m : List (Bytes × Bytes))
    → admit_raw_headers raw ≡ inr m
    → (lookup Bytes-discrete (codes "content-length") m ≡ none)
      ⊎ (lookup Bytes-discrete (codes "transfer-encoding") m ≡ none)
admit_raw_headers-framing raw m h =
    let (_, _, e) = admit_raw_headers_parts raw m h in (unambiguous_lem m m e).1

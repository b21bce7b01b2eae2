-- ===== src/Hardening/FetchHeaders.antt =====
-- The tests that `FetchMetadataStage` of src/rust/src/hardening.rs makes of each header.
use ores_middleware.Prelude.Bytes.{Bytes, codes, bytes_eq, bytes_eq_iff, one_of}
use ores_middleware.Prelude.Members.{In}
use ores_middleware.Prelude.{
  ℕ, ◌≡◌, ◌⊎◌, ◌↔◌, inl, inr, refl, ap, Bool, true, false, List, [], ◌∷◌, Option, none, some, leb,
  length, all, All, arith, Bool-cases, ◌<◌, ◌≤◌,
}
use ores_middleware.Prelude.Maps.{some_inj}
use ores_middleware.Hardening.Fetch.{
  FetchMetadataPolicy, token_byte, valid_fetch_token, closed_invalid, dest_invalid, user_invalid,
}

-- A header that is absent or has one of the values.
abbrev pub Among : List Bytes → Option Bytes → Type 0
Among values o = (o ≡ none) ⊎ ((value : Bytes) × (o ≡ some value) × In value values)

abbrev pub IsToken : Option Bytes → Type 0
IsToken o =
    (o ≡ none)
    ⊎ ((value : Bytes) × (o ≡ some value)
        × (0 < length value)
        × (length value ≤ 32)
        × All (λ b. token_byte b ≡ true) value)

abbrev pub IsUser : Option Bytes → Type 0
IsUser o = (o ≡ none) ⊎ (o ≡ some (codes "?1"))

-- the sites from which a mutation with ambient credentials may come
abbrev pub SiteAllowed : FetchMetadataPolicy → Option Bytes → Type 0
SiteAllowed policy o =
    ((o ≡ none) × (policy.allow_missing ≡ true))
    ⊎ (o ≡ some (codes "same-origin"))
    ⊎ (o ≡ some (codes "none"))
    ⊎ ((o ≡ some (codes "same-site")) × (policy.allow_same_site ≡ true))

one_of_iff : (v : Bytes) (values : List Bytes) → (one_of v values ≡ true) ↔ In v values
unfolding one_of
one_of_iff v [] = (λ e. absurd (cc e), λ at. absurd at.lower)
one_of_iff v (x ∷ xs) = (
  λ e. elim (Bool-cases (bytes_eq v x)) [
    | inl same ↦ inl ((bytes_eq_iff v x).0 same)
    | inr other ↦ inr ((one_of_iff v xs).0 (rw other at e))
  ],
  λ at. elim at [
    | inl same ↦ rw ((bytes_eq_iff v x).1 same) refl
    | inr later ↦ elim (Bool-cases (bytes_eq v x)) [
      | inl same ↦ rw same refl
      | inr other ↦ rw other ((one_of_iff v xs).1 later)
    ]
  ],
)

-- A test of all values holds of the one that is found.
all_of_In :
    (p : Bytes → Bool) (v : Bytes) (values : List Bytes)
    → all p values ≡ true
    → In v values
    → p v ≡ true
all_of_In p v [] h at = absurd at.lower
all_of_In p v (x ∷ xs) h (inl same) = rw same (ground arith)
all_of_In p v (x ∷ xs) h (inr at) = all_of_In p v xs (ground arith) at

pub closed_invalid_iff :
    (values : List Bytes)
    → all valid_fetch_token values ≡ true
    → (o : Option Bytes) → (closed_invalid values o ≡ false) ↔ Among values o
unfolding closed_invalid
closed_invalid_iff values good none = (λ e. inl refl, λ a. refl)
closed_invalid_iff values good (some v) = (
  λ e. inr (v, refl, (one_of_iff v values).0 (ground arith)),
  λ a. elim a [
    | inl h ↦ absurd (cc h)
    | inr (w, same, at) ↦
        let here : In v values = rw (some_inj same) at in
        rw (all_of_In valid_fetch_token v values good here, (one_of_iff v values).1 here) refl
  ],
)

all_iff : (p : ℕ → Bool) (v : Bytes) → (all p v ≡ true) ↔ All (λ b. p b ≡ true) v
all_iff p [] = (λ h. tt, λ h. refl)
all_iff p (b ∷ v) =
    (λ h. (ground arith, (all_iff p v).0 (ground arith)), λ h. rw h.0 ((all_iff p v).1 h.1))

token_iff :
    (v : Bytes)
    → (valid_fetch_token v ≡ true)
      ↔ ((0 < length v) × (length v ≤ 32) × All (λ b. token_byte b ≡ true) v)
unfolding valid_fetch_token
token_iff [] = (λ h. absurd (cc h), λ h. absurd (omega (arith, h.0)))
token_iff (b ∷ v) = (
  λ h. elim (Bool-cases (leb (length (b ∷ v)) 32)) [
    | inl short ↦
        (omega arith, ground (arith, short), (all_iff token_byte (b ∷ v)).0 (rw short at h))
    | inr long ↦ absurd (cc (rw long at h))
  ],
  λ h.
      let short : leb (length (b ∷ v)) 32 ≡ true = ground (arith, h.1) in
      rw (short, (all_iff token_byte (b ∷ v)).1 h.2) refl,
)

pub dest_invalid_iff : (o : Option Bytes) → (dest_invalid o ≡ false) ↔ IsToken o
unfolding dest_invalid
dest_invalid_iff none = (λ e. inl refl, λ a. refl)
dest_invalid_iff (some v) = (
  λ e. let t = (token_iff v).0 (ground arith) in inr (v, refl, t.0, t.1, t.2),
  λ a. elim a [
    | inl h ↦ absurd (cc h)
    | inr (w, same, pos, small, bytes) ↦
        rw (some_inj same, (token_iff w).1 (pos, small, bytes)) refl
  ],
)

pub user_invalid_iff : (o : Option Bytes) → (user_invalid o ≡ false) ↔ IsUser o
unfolding user_invalid
user_invalid_iff none = (λ e. inl refl, λ a. refl)
user_invalid_iff (some v) = (
  λ e. inr (ap some ((bytes_eq_iff v (codes "?1")).0 (ground arith))),
  λ a. elim a [
    | inl h ↦ absurd (cc h)
    | inr same ↦ rw ((bytes_eq_iff v (codes "?1")).1 (some_inj same)) refl
  ],
)

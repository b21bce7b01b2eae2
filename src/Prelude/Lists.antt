-- ===== src/Prelude/Lists.antt =====
-- Lists measured by native numbers, and predicates over them.
use Prim.Native.Nat.{ℕ, suc, ◌+◌}
use mathlib.Core.Path.{◌≡◌, refl}
use mathlib.Core.Logic.{◌↔◌}
use mathlib.Core.Bool.{Bool, true, false, ◌&&◌, ◌||◌}
use mathlib.Core.List.{List, [], ◌∷◌, ◌++◌}
use native.Mathlib.Omega.{arith}

module _ {ℓ} {A : Type ℓ} where
  abbrev pub length : List A → ℕ
  length [] = 0
  length (x ∷ xs) = suc (length xs)

  abbrev pub all : (A → Bool) → List A → Bool
  all p [] = true
  all p (x ∷ xs) = p x && all p xs

  abbrev pub any : (A → Bool) → List A → Bool
  any p [] = false
  any p (x ∷ xs) = p x || any p xs

  pub length-append : (xs ys : List A) → length (xs ++ ys) ≡ length xs + length ys
  length-append [] ys = omega arith
  length-append (x ∷ xs) ys = omega (arith, length-append xs ys)

module _ {ℓ} {A : Type ℓ} where
  pub append-eq_nil : (xs ys : List A) → xs ++ ys ≡ [] → (xs ≡ []) × (ys ≡ [])
  append-eq_nil [] ys h = (refl, h)
  append-eq_nil (x ∷ xs) ys h = absurd (cc h)

-- six lists in a row
pub six_nil {ℓ} :
    {A : Type ℓ} (a b c d e f : List A)
    → (a ++ b ++ c ++ d ++ e ++ f ≡ [])
      ↔ ((a ≡ []) × (b ≡ []) × (c ≡ []) × (d ≡ []) × (e ≡ []) × (f ≡ []))
six_nil a b c d e f = (
  λ h.
      let (abcde, f') = append-eq_nil (a ++ b ++ c ++ d ++ e) f h in
      let (abcd, e') = append-eq_nil (a ++ b ++ c ++ d) e abcde in
      let (abc, d') = append-eq_nil (a ++ b ++ c) d abcd in
      let (ab, c') = append-eq_nil (a ++ b) c abc in
      let (a', b') = append-eq_nil a b ab in (a', b', c', d', e', f'),
  λ h. rw (h.0, h.1, h.2, h.3, h.4, h.5) refl,
)

module _ {ℓ κ} {A : Type ℓ} (P : A → Type κ) where
  abbrev pub All : List A → Type κ
  All [] = Unit
  All (x ∷ xs) = P x × All xs

  pub All-append : (xs ys : List A) → All xs → All ys → All (xs ++ ys)
  All-append [] ys h k = k
  All-append (x ∷ xs) ys (p, h) k = (p, All-append xs ys h k)

module _ {ℓ κ} {A : Type ℓ} (P : A → Type κ) where
  pub All-append_iff : (xs ys : List A) → All P (xs ++ ys) ↔ (All P xs × All P ys)
  All-append_iff [] ys = (λ a. (tt, a), λ a. a.1)
  All-append_iff (x ∷ xs) ys =
      let rest = All-append_iff xs ys in
      (λ a. let r = rest.0 a.1 in ((a.0, r.0), r.1), λ a. (a.0.0, rest.1 (a.0.1, a.1)))

module _ {ℓ κ μ} {A : Type ℓ} (P : A → Type κ) (Q : A → Type μ) where
  pub All-iff : ((x : A) → P x ↔ Q x) → (xs : List A) → All P xs ↔ All Q xs
  All-iff f [] = (λ a. tt, λ a. tt)
  All-iff f (x ∷ xs) =
      let rest = All-iff f xs in (λ a. ((f x).0 a.0, rest.0 a.1), λ a. ((f x).1 a.0, rest.1 a.1))

pub All-of {ℓ κ} : {A : Type ℓ} (P : A → Type κ) → ((x : A) → P x) → (xs : List A) → All P xs
All-of P f [] = tt
All-of P f (x ∷ xs) = (f x, All-of P f xs)

pub All-zip {ℓ κ} :
    {A : Type ℓ} (P Q R : A → Type κ)
    → ((x : A) → P x → Q x → R x)
    → (xs : List A) → All P xs
    → All Q xs
    → All R xs
All-zip P Q R f [] a b = tt
All-zip P Q R f (x ∷ xs) (p, ps) (q, qs) = (f x p q, All-zip P Q R f xs ps qs)

pub All-map {ℓ κ μ} :
    {A : Type ℓ} (P : A → Type κ) (Q : A → Type μ)
    → ((x : A) → P x → Q x)
    → (xs : List A) → All P xs
    → All Q xs
All-map P Q f [] a = tt
All-map P Q f (x ∷ xs) (p, a) = (f x p, All-map P Q f xs a)

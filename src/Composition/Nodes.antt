-- ===== src/Composition/Nodes.antt =====
-- The nodes of the cycle check of src/rust/src/composition.rs: which are left, and lists without repeats.
use ores_middleware.Prelude.Bytes.{
  Bytes, Bytes-discrete, bytes_eq, one_of, bytes_eq_refl, bytes_eq_ne, bytes_eq_sym,
}
use ores_middleware.Prelude.Maps.{lookup, insert, IsUnique}
use ores_middleware.Prelude.{
  ℕ, ◌+◌, ◌≡◌, ◌≢◌, refl, ap, true, false, not, ◌||◌, List, [], ◌∷◌, ◌++◌, All, arith,
}
use ores_middleware.Composition.Cycle.{Degrees}
use ores_middleware.Composition.Kahn.{holds, bit}

-- no stage twice
abbrev pub Distinct : List Bytes → Type 0
Distinct [] = Unit
Distinct (x ∷ xs) = (one_of x xs ≡ false) × Distinct xs

pub one_of-concat :
    (v x : Bytes) (xs : List Bytes) → one_of v (xs ++ x ∷ []) ≡ one_of v xs || bytes_eq v x
unfolding one_of
one_of-concat v x [] = ground arith
one_of-concat v x (y ∷ xs) = ground (arith, one_of-concat v x xs)

pub Distinct-concat :
    (x : Bytes) (xs : List Bytes) → Distinct xs → one_of x xs ≡ false → Distinct (xs ++ x ∷ [])
unfolding one_of
Distinct-concat x [] d new = (refl, tt)
Distinct-concat x (y ∷ xs) (fresh, d) new =
    (ground (arith, one_of-concat y x xs, bytes_eq_sym x y), Distinct-concat x xs d (ground arith))

-- the nodes that are not in the list
unfoldable pub left_out : List Bytes → Degrees → ℕ
left_out p [] = 0
left_out p ((k, n) ∷ m) = bit (not (one_of k p)) + left_out p m

pub left_out-insert :
    (p : List Bytes) (k : Bytes) (n : ℕ) (m : Degrees)
    → holds k m ≡ true
    → left_out p (insert Bytes-discrete k n m) ≡ left_out p m
unfolding left_out insert holds lookup
left_out-insert p k n [] h = absurd (cc h)
left_out-insert p k n ((j, w) ∷ m) h = ground (arith, left_out-insert p k n m)

left_out_absent :
    (s : Bytes) (p : List Bytes) (m : Degrees)
    → All (λ e. e.0 ≢ s) m
    → left_out (s ∷ p) m ≡ left_out p m
unfolding left_out one_of
left_out_absent s p [] h = refl
left_out_absent s p ((k, n) ∷ m) (h, hs) =
    rw (bytes_eq_ne k s h) (ap (λ x. bit (not (one_of k p)) + x) (left_out_absent s p m hs))

pub left_out-cons :
    (s : Bytes) (p : List Bytes) (m : Degrees)
    → IsUnique Bytes-discrete m
    → holds s m ≡ true
    → one_of s p ≡ false
    → left_out (s ∷ p) m + 1 ≡ left_out p m
unfolding left_out holds lookup one_of
left_out-cons s p [] u h new = absurd (cc h)
left_out-cons s p ((k, n) ∷ m) (u, us) h new = elim (Bytes-discrete k s) [
  | yes e ↦
      let rest = left_out_absent s p m (rw e at u) in
      rw (e, bytes_eq_refl s, new) (omega (arith, rest))
  | no ne ↦
      let here : holds s m ≡ true = ground arith in
      rw (bytes_eq_ne k s ne) (omega (arith, left_out-cons s p m us here new))
]

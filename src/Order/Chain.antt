-- ===== src/Order/Chain.antt =====
-- Lists of stages without repetitions whose members stand in a given order: the order is the list.
use mathlib.Core.Path.{subst}
use ores_middleware.Prelude.{
  suc, ◌≡◌, inl, inr, refl, sym, ap, ◌∙◌, true, false, List, [], ◌∷◌, none, some, Bool-cases,
  Option-cases, All, arith,
}
use ores_middleware.Order.Stages.{MiddlewareStage, same_stage, same_stage_sound, same_stage_refl}
use ores_middleware.Order.{contains, position, precedes, windows}

-- no stage occurs twice
abbrev pub IsUnique : List MiddlewareStage → Type 0
IsUnique [] = Unit
IsUnique (x ∷ xs) = (contains x xs ≡ false) × IsUnique xs

position_head : (s : MiddlewareStage) (xs : List MiddlewareStage) → position s (s ∷ xs) ≡ some 0
unfolding position
position_head s xs = rw (same_stage_refl s, position)

-- nothing stands before the head
precedes_head : (a s : MiddlewareStage) (xs : List MiddlewareStage) → precedes (s ∷ xs) a s ≡ false
unfolding precedes
precedes_head a s xs = elim (Option-cases (position a (s ∷ xs))) [
  | inl e ↦ rw (e, precedes)
  | inr (l, e) ↦ rw (e, precedes, position_head s xs) (ground arith)
]

pub same_stage_sym : (s t : MiddlewareStage) → same_stage s t ≡ same_stage t s
unfolding same_stage
same_stage_sym s t = ground arith

position_tail :
    (a s : MiddlewareStage) (xs : List MiddlewareStage)
    → same_stage s a ≡ false
    → position a (s ∷ xs) ≡ elim (position a xs) [ none ↦ none | some i ↦ some (suc i) ]
unfolding position
position_tail a s xs n = rw (n, position)

precedes_tail :
    (a b s : MiddlewareStage) (xs : List MiddlewareStage)
    → same_stage s a ≡ false
    → same_stage s b ≡ false
    → precedes (s ∷ xs) a b ≡ true
    → precedes xs a b ≡ true
unfolding precedes
precedes_tail a b s xs na nb h = elim (Option-cases (position a xs)) [
  | inl e ↦ absurd (cc (rw (precedes, position_tail a s xs na, e) at h))
  | inr (l, e) ↦ elim (Option-cases (position b xs)) [
    | inl e' ↦
        absurd (cc (rw (precedes, position_tail a s xs na, e, position_tail b s xs nb, e') at h))
    | inr (r, e') ↦
        rw (precedes, e, e')
          (ground
            (arith, rw (precedes, position_tail a s xs na, e, position_tail b s xs nb, e') at h))
  ]
]

-- Each member of an order but its first has one directly before it.
window_into :
    (P : MiddlewareStage × MiddlewareStage → Type 0) (y x : MiddlewareStage)
    (ys : List MiddlewareStage)
    → contains x ys ≡ true
    → All P (windows (y ∷ ys))
    → (z : MiddlewareStage) × P (z, x)
unfolding contains
window_into P y x [] h ps = absurd (cc h)
window_into P y x (y' ∷ ys) h (p, ps) = elim (Bool-cases (same_stage y' x)) [
  | inl e ↦ (y, subst (λ s. P (y, s)) (same_stage_sound y' x e) p)
  | inr n ↦ window_into P y' x ys (rw (n, contains) at h) ps
]

windows_cons :
    (P : MiddlewareStage × MiddlewareStage → Type 0) (y : MiddlewareStage)
    (ys : List MiddlewareStage)
    → All P (windows (y ∷ ys))
    → All P (windows ys)
windows_cons P y [] ps = tt
windows_cons P y (y' ∷ ys) (p, ps) = ps

windows_tail :
    (x : MiddlewareStage) (xs ys : List MiddlewareStage)
    → contains x ys ≡ false
    → All (λ p. precedes (x ∷ xs) p.0 p.1 ≡ true) (windows ys)
    → All (λ p. precedes xs p.0 p.1 ≡ true) (windows ys)
unfolding contains same_stage
windows_tail x xs [] n ps = tt
windows_tail x xs (y ∷ []) n ps = tt
windows_tail x xs (y ∷ y' ∷ ys) n (p, ps) = (
  precedes_tail y y' x xs (ground arith) (ground arith) p,
  windows_tail x xs (y' ∷ ys) (ground arith) ps,
)

members_tail :
    (y : MiddlewareStage) (xs ys : List MiddlewareStage)
    → contains y xs ≡ false
    → All (λ x. contains x (y ∷ ys) ≡ true) xs
    → All (λ x. contains x ys ≡ true) xs
unfolding contains same_stage
members_tail y [] ys n ms = tt
members_tail y (x ∷ xs) ys n (m, ms) = (ground arith, members_tail y xs ys (ground arith) ms)

pub chain :
    (ys xs : List MiddlewareStage)
    → IsUnique ys
    → IsUnique xs
    → All (λ x. contains x ys ≡ true) xs
    → All (λ y. contains y xs ≡ true) ys
    → All (λ p. precedes xs p.0 p.1 ≡ true) (windows ys)
    → xs ≡ ys
unfolding contains
chain [] [] uy ux ms ps ws = refl
chain [] (x ∷ xs) uy ux (m, ms) ps ws = absurd (cc m)
chain (y ∷ ys) [] uy ux ms (p, ps) ws = absurd (cc p)
chain (y ∷ ys) (x ∷ xs) (ny, uy) (nx, ux) (m, ms) (p, ps) ws = elim (Bool-cases (same_stage y x)) [
  | inl e ↦
      let here : y ≡ x = same_stage_sound y x e in
      let nx' : contains y xs ≡ false = subst (λ s. contains s xs ≡ false) (sym here) nx in
      ap (λ s. s ∷ xs) (sym here)
      ∙ ap (λ l. y ∷ l)
          (chain ys xs uy ux (members_tail y xs ys nx' ms)
            (members_tail y ys xs ny
              (subst (λ s. All (λ z. contains z (s ∷ xs) ≡ true) ys) (sym here) ps))
            (windows_tail y xs ys ny (
              windows_cons _ y ys (
                subst (λ s. All (λ p. precedes (s ∷ xs) p.0 p.1 ≡ true) (windows (y ∷ ys)))
                  (sym here) ws))))
  | inr n ↦
      let (z, w) =
        window_into (λ p. precedes (x ∷ xs) p.0 p.1 ≡ true) y x ys (rw (n, contains) at m) ws in
      absurd (cc (w, precedes_head z x xs))
]

-- ===== src/Order/Reports.antt =====
-- What an empty report of each part of the validators of src/rust/src/middleware_order.rs says.
use mathlib.Core.List.{filter_map}
use ores_middleware.Prelude.{
  ◌≡◌, inl, inr, refl, true, false, List, [], ◌∷◌, ◌++◌, Option, none, String, Bool-cases,
  Option-cases, All, arith,
}
use ores_middleware.Order.Stages.{MiddlewareStage, same_stage}
use ores_middleware.Order.Chain.{IsUnique, same_stage_sym}
use ores_middleware.Order.{
  contains, precedes, require_before, duplicates_from, missing, windows, reviewed_order,
}

filter_map-nil :
    {A B : Type 0} (f : A → Option B) (xs : List A)
    → filter_map f xs ≡ []
    → All (λ x. f x ≡ none) xs
unfolding filter_map
filter_map-nil f [] h = tt
filter_map-nil f (x ∷ xs) h = elim (Option-cases (f x)) [
  | inl e ↦ (e, filter_map-nil f xs (rw e at h))
  | inr (b, e) ↦ absurd (cc (rw e at h))
]

pub All-map :
    {A : Type 0} {P Q : A → Type 0} (xs : List A) → ((x : A) → P x → Q x) → All P xs → All Q xs
All-map [] f ps = tt
All-map (x ∷ xs) f (p, ps) = (f x p, All-map xs f ps)

contains-snoc :
    (t s : MiddlewareStage) (before : List MiddlewareStage)
    → contains t (before ++ s ∷ []) ≡ false
    → (contains t before ≡ false) × (same_stage s t ≡ false)
unfolding contains
contains-snoc t s [] h = (refl, ground (arith, h))
contains-snoc t s (x ∷ before) h = elim (Bool-cases (same_stage x t)) [
  | inl e ↦ absurd (cc (rw (contains, e) at h))
  | inr e ↦ let (b, n) = contains-snoc t s before (rw (contains, e) at h) in (rw (contains, e) b, n)
]

absent_from :
    (s : MiddlewareStage) (xs : List MiddlewareStage)
    → All (λ t. same_stage s t ≡ false) xs
    → contains s xs ≡ false
unfolding contains
absent_from s [] ns = refl
absent_from s (x ∷ xs) (n, ns) = rw (contains, same_stage_sym x s, n) (absent_from s xs ns)

pub duplicates_from-IsUnique :
    (before stages : List MiddlewareStage)
    → duplicates_from before stages ≡ []
    → All (λ s. contains s before ≡ false) stages × IsUnique stages
unfolding duplicates_from
duplicates_from-IsUnique before [] h = (tt, tt)
duplicates_from-IsUnique before (s ∷ stages) h = elim (Bool-cases (contains s before)) [
  | inl e ↦ absurd (cc (rw (duplicates_from, e) at h))
  | inr e ↦
      let (news, unique) =
        duplicates_from-IsUnique (before ++ s ∷ []) stages (rw (duplicates_from, e) at h) in
      (
        (e, All-map stages (λ t n. (contains-snoc t s before n).0) news),
        (
          absent_from s stages (All-map stages (λ t n. (contains-snoc t s before n).1) news),
          unique,
        ),
      )
]

pub absent-All :
    (s : MiddlewareStage) (xs : List MiddlewareStage)
    → contains s xs ≡ false
    → All (λ t. same_stage t s ≡ false) xs
unfolding contains
absent-All s [] h = tt
absent-All s (x ∷ xs) h = elim (Bool-cases (same_stage x s)) [
  | inl e ↦ absurd (cc (rw (contains, e) at h))
  | inr e ↦ (e, absent-All s xs (rw (contains, e) at h))
]

pub missing-All :
    (message : String) (stages order : List MiddlewareStage)
    → missing message stages order ≡ []
    → All (λ s. contains s stages ≡ true) order
unfolding missing
missing-All message stages [] h = tt
missing-All message stages (s ∷ order) h = elim (Bool-cases (contains s stages)) [
  | inl e ↦ (e, missing-All message stages order (rw (missing, e) at h))
  | inr e ↦ absurd (cc (rw (missing, e) at h))
]

require_before-none :
    (stages : List MiddlewareStage) (first second : MiddlewareStage) (code : String)
    → require_before stages first second code ≡ none
    → precedes stages first second ≡ true
unfolding require_before
require_before-none stages first second code h = elim (Bool-cases (precedes stages first second)) [
  | inl e ↦ e
  | inr e ↦ absurd (cc (rw (require_before, e) at h))
]

pub reviewed_order-precedes :
    (stages order : List MiddlewareStage)
    → reviewed_order stages order ≡ []
    → All (λ p. precedes stages p.0 p.1 ≡ true) (windows order)
unfolding reviewed_order
reviewed_order-precedes stages order h =
    All-map (windows order) (λ p n. require_before-none stages p.0 p.1 "reviewed-stage-order" n)
      (filter_map-nil _ (windows order) h)

-- ===== src/Composition/Cut.antt =====
-- The order rules of src/rust/src/composition.rs in terms of the sequence of the stages.
use ores_middleware.Prelude.Bytes.{Bytes, bytes_eq, bytes_eq_iff, one_of, bytes_eq_ne, bytes_eq_sym}
use ores_middleware.Prelude.Maps.{lookup}
use ores_middleware.Prelude.{
  ℕ, suc, ◌+◌, ◌≤◌, ◌<◌, ◌≡◌, ◌≢◌, ◌↔◌, ◌⊎◌, refl, sym, ap, ◌∙◌, inl, inr, Bool, true, false, not,
  ◌||◌, List, [], ◌∷◌, ◌++◌, Option, none, some, length, arith, Bool-cases, Option-cases,
  if◌then◌else◌,
}
use ores_middleware.Composition.{MiddlewareOrderingRule}
use ores_middleware.Composition.Cycle.{entries}
use ores_middleware.Composition.Validation.{positions_from, first_of, last_of, breaks, rule_breaks}
use ores_middleware.Composition.Positions.{
  places, entries-positions_from, last_place, separated, in_order, in_order-places,
}

-- The sequence splits into a part without `after` and a part without `before`.
abbrev pub IsCut : Bytes → Bytes → List Bytes → Type 0
IsCut before after names =
    (front : List Bytes) × (back : List Bytes) × (names ≡ front ++ back)
    × (one_of after front ≡ false)
    × (one_of before back ≡ false)

module _ (before after : Bytes) (distinct : before ≢ after) where
  IsCut-of_separated :
      (names : List Bytes) → separated before after names ≡ true → IsCut before after names
  unfolding separated one_of
  IsCut-of_separated [] e = ([], [], refl, refl, refl)
  IsCut-of_separated (name ∷ names) e = elim (Bool-cases (bytes_eq name after)) [
    | inl same ↦
        let absent : not (one_of before names) ≡ true = rw same at e in
        let different : bytes_eq before name ≡ false =
          bytes_eq_ne before name (λ e'. distinct (e' ∙ (bytes_eq_iff name after).0 same)) in
        ([], name ∷ names, refl, refl, ground (arith, absent, different))
    | inr other ↦
        let later : separated before after names ≡ true = rw other at e in
        let (front, back, is, no_after, no_before) = IsCut-of_separated names later in
        (
          name ∷ front,
          back,
          ap (λ xs. name ∷ xs) is,
          ground (arith, no_after, bytes_eq_sym after name, other),
          no_before,
        )
  ]

  separated_absent :
      (names : List Bytes) → one_of before names ≡ false → separated before after names ≡ true
  unfolding separated one_of
  separated_absent [] h = refl
  separated_absent (name ∷ names) h = ground (arith, separated_absent names)

  separated_cut :
      (front back : List Bytes)
      → one_of after front ≡ false
      → one_of before back ≡ false
      → separated before after (front ++ back) ≡ true
  unfolding separated one_of
  separated_cut [] back h k = separated_absent back k
  separated_cut (name ∷ front) back h k =
      ground (arith, separated_cut front back, bytes_eq_sym after name)

  pub separated_iff :
      (names : List Bytes) → (separated before after names ≡ true) ↔ IsCut before after names
  separated_iff names = (
    IsCut-of_separated names,
    λ (front, back, is, no_after, no_before). rw is (separated_cut front back no_after no_before),
  )

abbrev is_some {ℓ} : {A : Type ℓ} → Option A → Bool
is_some none = false
is_some (some a) = true

is_some-last :
    (index : ℕ) (stage : Bytes) (names : List Bytes)
    → is_some (last_of (places index stage names)) ≡ one_of stage names
is_some-last index stage names =
    let place = last_place index stage names in
    elim (Option-cases (last_of (places index stage names))) [
      | inl e ↦ let gone : one_of stage names ≡ false = rw e at place in rw (e, gone) refl
      | inr (k, e) ↦
          let there : (one_of stage names ≡ true) × (index ≤ k) = rw e at place in
          rw (e, there.0) refl
    ]

is_some-first :
    (index : ℕ) (stage : Bytes) (names : List Bytes)
    → is_some (first_of (places index stage names)) ≡ one_of stage names
unfolding places one_of first_of
is_some-first index stage [] = refl
is_some-first index stage (name ∷ names) =
    ground (arith, is_some-first (index + 1) stage names, bytes_eq_sym stage name)

-- Every stage named `before` stands before every stage named `after`, and where the rule requires both,
-- both are there.
abbrev pub Holds : List Bytes → MiddlewareOrderingRule → Type 0
Holds names rule =
    IsCut rule.before rule.after names
    × ((rule.require_both ≡ false)
        ⊎ (one_of rule.before names ≡ true) × (one_of rule.after names ≡ true))

breaks_iff :
    (both : Bool) (left right : Option ℕ)
    → (breaks both left right ≡ false) ↔ (
        (in_order left right ≡ true)
        × ((both ≡ false) ⊎ (is_some left ≡ true) × (is_some right ≡ true)))
unfolding breaks in_order
breaks_iff both none right = (λ e. (refl, inl e), λ a. ground (arith, a))
breaks_iff both (some l) none = (λ e. (refl, inl e), λ a. ground (arith, a))
breaks_iff both (some l) (some r) =
    (λ e. (ground (arith, e), inr (refl, refl)), λ a. ground (arith, a))

rule_breaks-places :
    (names : List Bytes) (rule : MiddlewareOrderingRule)
    → rule_breaks (positions_from 0 names []) rule
      ≡ breaks rule.require_both
          (last_of (places 0 rule.before names))
          (first_of (places 0 rule.after names))
unfolding rule_breaks
rule_breaks-places names rule =
    rw
      (
        rule_breaks,
        entries-positions_from 0 rule.before names [],
        entries-positions_from 0 rule.after names [],
      )
      (unfold entries lookup in refl)

pub rule_breaks_iff :
    (names : List Bytes) (rule : MiddlewareOrderingRule)
    → rule.before ≢ rule.after
    → (rule_breaks (positions_from 0 names []) rule ≡ false) ↔ Holds names rule
rule_breaks_iff names rule distinct =
    let l = last_of (places 0 rule.before names) in
    let f = first_of (places 0 rule.after names) in
    let opened = rule_breaks-places names rule in
    let split = breaks_iff rule.require_both l f in
    let ordered = in_order-places rule.before rule.after distinct 0 names in
    let cut = separated_iff rule.before rule.after distinct names in
    let left = is_some-last 0 rule.before names in
    let right = is_some-first 0 rule.after names in
    (
      λ e.
          let (order, both) = split.0 (sym opened ∙ e) in
          (cut.0 (sym ordered ∙ order), rw (left, right) at both),
      λ a. opened ∙ split.1 (ordered ∙ cut.1 a.0, rw (left, right) a.1),
    )

-- the index of the first occurrence of a stage
unfoldable pub index_of : Bytes → List Bytes → ℕ
index_of stage [] = 0
index_of stage (name ∷ names) = if bytes_eq name stage then 0 else suc (index_of stage names)

index-front :
    (stage : Bytes) (front back : List Bytes)
    → one_of stage front ≡ true
    → index_of stage (front ++ back) < length front
unfolding index_of one_of
index-front stage [] back at = absurd (cc at)
index-front stage (name ∷ front) back at =
    ground (arith, index-front stage front back, bytes_eq_sym stage name)

index-back :
    (stage : Bytes) (front back : List Bytes)
    → one_of stage front ≡ false
    → length front ≤ index_of stage (front ++ back)
unfolding index_of one_of
index-back stage [] back out = omega arith
index-back stage (name ∷ front) back out =
    ground (arith, index-back stage front back, bytes_eq_sym stage name)

one_of-append : (v : Bytes) (xs ys : List Bytes) → one_of v (xs ++ ys) ≡ one_of v xs || one_of v ys
unfolding one_of
one_of-append v [] ys = refl
one_of-append v (x ∷ xs) ys = ground (arith, one_of-append v xs ys)

-- First occurrences number the stages along a rule that holds.
pub index_of-lt :
    (before after : Bytes) (names : List Bytes)
    → IsCut before after names
    → one_of before names ≡ true
    → index_of before names < index_of after names
index_of-lt before after names (front, back, is, no_after, no_before) at =
    let at' : one_of before (front ++ back) ≡ true = rw is at at in
    let first : one_of before front ≡ true =
      ground (arith, at', one_of-append before front back, no_before) in
    rw is (omega (arith, index-front before front back first, index-back after front back no_after))

-- ===== src/Composition/Filters.antt =====
-- The filters, sets and sorted lists of src/rust/src/composition.rs.
use ores_middleware.Prelude.Bytes.{Bytes, bytes_eq, bytes_eq_iff, one_of}
use ores_middleware.Prelude.{
  ◌≡◌, ◌≢◌, ◌↔◌, refl, ap, ◌∙◌, inl, inr, Bool, true, false, ◌||◌, List, [], ◌∷◌, All, arith,
  Bool-cases, All-append_iff,
}
use ores_middleware.Routes.Validation.{sort, insert_sorted, bytes_leb}
use ores_middleware.Composition.{MiddlewareOrderIssue}
use ores_middleware.Composition.Shape.{issues_of, keep_if, set_insert, to_set, insert_first}
use ores_middleware.Composition.Nodes.{one_of-concat}

module _ {ℓ} {A : Type ℓ} (test : A → Bool) where
  pub issues_of_iff :
      (issue : A → MiddlewareOrderIssue) (xs : List A)
      → (issues_of test issue xs ≡ []) ↔ All (λ x. test x ≡ false) xs
  unfolding issues_of
  issues_of_iff issue [] = (λ e. tt, λ a. refl)
  issues_of_iff issue (x ∷ xs) =
      let rest = issues_of_iff issue xs in
      elim (Bool-cases (test x)) [
        | inl e ↦ rw e (λ h. absurd (cc h), λ a. absurd (cc a.0))
        | inr e ↦ rw e (λ h. (refl, rest.0 h), λ a. rest.1 a.1)
      ]

  pub keep_if-All : (xs : List A) → All (λ x. test x ≡ true) xs → keep_if test xs ≡ xs
  unfolding keep_if
  keep_if-All [] a = refl
  keep_if-All (x ∷ xs) (h, a) = rw h (ap (λ ys. x ∷ ys) (keep_if-All xs a))

  pub keep_if_none : (xs : List A) → (keep_if test xs ≡ []) ↔ All (λ x. test x ≡ false) xs
  unfolding keep_if
  keep_if_none [] = (λ e. tt, λ a. refl)
  keep_if_none (x ∷ xs) =
      let rest = keep_if_none xs in
      elim (Bool-cases (test x)) [
        | inl e ↦ rw e (λ h. absurd (cc h), λ a. absurd (cc a.0))
        | inr e ↦ rw e (λ h. (refl, rest.0 h), λ a. rest.1 a.1)
      ]

or_comm : (a b : Bool) → a || b ≡ b || a
or_comm true true = refl
or_comm true false = refl
or_comm false true = refl
or_comm false false = refl

pub one_of-to_set : (v : Bytes) (xs : List Bytes) → one_of v (to_set xs) ≡ one_of v xs
unfolding to_set set_insert one_of
one_of-to_set v [] = refl
one_of-to_set v (x ∷ xs) =
    let rest = one_of-to_set v xs in
    elim (Bool-cases (one_of x (to_set xs))) [
      | inl old ↦ rw old (elim (Bool-cases (bytes_eq v x)) [
        | inl same ↦
            let seen : one_of v (to_set xs) ≡ true =
              ap (λ j. one_of j (to_set xs)) ((bytes_eq_iff v x).0 same) ∙ old in
            rw same seen
        | inr other ↦ rw other rest
      ])
      | inr new ↦ rw new (
          one_of-concat v x (to_set xs)
          ∙ (ap (λ b. b || bytes_eq v x) rest ∙ or_comm (one_of v xs) (bytes_eq v x)))
    ]

module _ (P : Bytes → Type 0) where
  All-one_of : (v : Bytes) (xs : List Bytes) → one_of v xs ≡ true → All P xs → P v
  unfolding one_of
  All-one_of v [] at a = absurd (cc at)
  All-one_of v (x ∷ xs) at (p, a) = elim (Bool-cases (bytes_eq v x)) [
    | inl same ↦ rw ((bytes_eq_iff v x).0 same) p
    | inr other ↦ All-one_of v xs (ground (arith, at, other)) a
  ]

  pub All-to_set : (xs : List Bytes) → All P (to_set xs) ↔ All P xs
  unfolding to_set set_insert
  All-to_set [] = (λ a. tt, λ a. tt)
  All-to_set (x ∷ xs) =
      let rest = All-to_set xs in
      elim (Bool-cases (one_of x (to_set xs))) [
        | inl old ↦ rw old (λ a. (All-one_of x (to_set xs) old a, rest.0 a), λ a. rest.1 a.1)
        | inr new ↦
            let split = All-append_iff P (to_set xs) (x ∷ []) in
            rw new (
              λ a. let (set, (here, _)) = split.0 a in (here, rest.0 set),
              λ a. split.1 (rest.1 a.1, (a.0, tt)),
            )
      ]

insert_sorted-ne_nil : (x : Bytes) (xs : List Bytes) → insert_sorted x xs ≢ []
unfolding insert_sorted
insert_sorted-ne_nil x [] e = cc e
insert_sorted-ne_nil x (y ∷ ys) e = elim (Bool-cases (bytes_leb x y)) [
  | inl h ↦ cc (rw h at e)
  | inr h ↦ cc (rw h at e)
]

pub sort_nil : (xs : List Bytes) → (sort xs ≡ []) ↔ (xs ≡ [])
unfolding sort
sort_nil [] = (λ e. refl, λ e. refl)
sort_nil (x ∷ xs) = (λ e. absurd (insert_sorted-ne_nil x (sort xs) e), λ e. absurd (cc e))

set_insert-ne_nil : (x : Bytes) (set : List Bytes) → set_insert x set ≢ []
unfolding set_insert one_of
set_insert-ne_nil x [] e = cc e
set_insert-ne_nil x (y ∷ ys) e = elim (Bool-cases (one_of x (y ∷ ys))) [
  | inl h ↦ cc (rw h at e)
  | inr h ↦ cc (rw h at e)
]

pub insert_first_nil :
    (firsts set : List Bytes) → (insert_first firsts set ≡ []) ↔ ((firsts ≡ []) × (set ≡ []))
unfolding insert_first
insert_first_nil [] set = (λ e. (refl, e), λ a. a.1)
insert_first_nil (x ∷ xs) set = (λ e. absurd (set_insert-ne_nil x set e), λ a. absurd (cc a.0))

-- ===== src/Ranking/Scan.antt =====
-- The scan of src/rust/src/rate_limit_routes.rs and rate_limit_bindings.rs, from a score on.
use ores_middleware.Prelude.{
  ℕ, ◌≤◌, ◌≡◌, inl, inr, refl, sym, ◌∙◌, Bool, true, false, List, [], ◌∷◌, ◌++◌, Option, none, some,
  ◌==◌, ltb, arith, Bool-cases, Option-cases, if◌then◌else◌,
}
use mathlib.Core.List.{append_assoc, append-nil}
use ores_middleware.Ranking.{scan_by}

module _ {A : Type 0} (score : A → Option ℕ) where
  abbrev pub has : ℕ → Option ℕ → Bool
  has t none = false
  has t (some s) = s == t

  abbrev pub higher : ℕ → Option ℕ → ℕ
  higher t none = t
  higher t (some s) = if ltb t s then s else t

  unfoldable pub top : ℕ → List A → ℕ
  top best [] = best
  top best (rule ∷ rules) = top (higher best (score rule)) rules

  pub top_le : (best : ℕ) (rules : List A) → best ≤ top best rules
  unfolding top
  top_le best [] = omega arith
  top_le best (rule ∷ rules) = ground (arith, top_le (higher best (score rule)) rules)

  unfoldable pub keep : ℕ → List A → List A
  keep t [] = []
  keep t (rule ∷ rules) = if has t (score rule) then rule ∷ keep t rules else keep t rules

  tie :
      (best s t : ℕ) (m : List A) (r : A) (k : List A)
      → (s == best) ≡ true
      → (if best == t then m ++ r ∷ [] else []) ++ k
        ≡ (if best == t then m else []) ++ ((if s == t then r ∷ [] else []) ++ k)
  tie best s t m r k h = elim (Bool-cases (best == t)) [
    | inl e ↦ let e' : (s == t) ≡ true = ground (arith, h) in rw (e, e') (append_assoc m (r ∷ []) k)
    | inr e ↦ let e' : (s == t) ≡ false = ground (arith, h) in rw (e, e') refl
  ]

  module _ (best s : ℕ) (matches rules : List A) (rule : A) (is : score rule ≡ some s) where
    scan_raised :
        ltb best s ≡ true
        → scan_by score (some best) matches (rule ∷ rules)
          ≡ scan_by score (some s) (rule ∷ []) rules
    unfolding scan_by
    scan_raised h = rw (scan_by, is, h) refl

    scan_shared :
        ltb best s ≡ false
        → (s == best) ≡ true
        → scan_by score (some best) matches (rule ∷ rules)
          ≡ scan_by score (some best) (matches ++ rule ∷ []) rules
    unfolding scan_by
    scan_shared h k = rw (scan_by, is, h, k) refl

    scan_lower :
        ltb best s ≡ false
        → (s == best) ≡ false
        → scan_by score (some best) matches (rule ∷ rules) ≡ scan_by score (some best) matches rules
    unfolding scan_by
    scan_lower h k = rw (scan_by, is, h, k) refl

  pub scan_out :
      (best : Option ℕ) (matches rules : List A) (rule : A)
      → score rule ≡ none
      → scan_by score best matches (rule ∷ rules) ≡ scan_by score best matches rules
  unfolding scan_by
  scan_out best matches rules rule out = rw (scan_by, out) refl

  pub keep_out :
      (t : ℕ) (rule : A) (rules : List A) → score rule ≡ none → keep t (rule ∷ rules) ≡ keep t rules
  unfolding keep
  keep_out t rule rules out = rw (keep, out) refl

  pub keep_has :
      (t s : ℕ) (rule : A) (rules : List A)
      → score rule ≡ some s
      → keep t (rule ∷ rules) ≡ (if s == t then rule ∷ [] else []) ++ keep t rules
  unfolding keep
  keep_has t s rule rules is = elim (Bool-cases (s == t)) [
    | inl e ↦ rw (keep, is, e) refl
    | inr e ↦ rw (keep, is, e) refl
  ]

  -- The scan from a score with its rules: these if the score stays the highest, and then those of the
  -- rest that have the highest score.
  pub scan-keep :
      (best t : ℕ) (matches rules : List A)
      → t ≡ top best rules
      → scan_by score (some best) matches rules
        ≡ (if best == t then matches else []) ++ keep t rules
  unfolding scan_by top keep
  scan-keep best t matches [] e =
      let same : (best == t) ≡ true = ground arith in rw same (sym (append-nil matches))
  scan-keep best t matches (rule ∷ rules) e = elim (Option-cases (score rule)) [
    | inl out ↦
        rw (scan_out (some best) matches rules rule out, keep_out t rule rules out)
          (scan-keep best t matches rules (rw out at e))
    | inr (s, is) ↦
        let next : t ≡ top (if ltb best s then s else best) rules = rw is at e in
        rw (keep_has t s rule rules is) (elim (Bool-cases (ltb best s)) [
          | inl h ↦
              let up : t ≡ top s rules = rw h at next in
              let left : (best == t) ≡ false = ground (arith, top_le s rules) in
              rw (scan_raised best s matches rules rule is h, left)
                (scan-keep s t (rule ∷ []) rules up)
          | inr h ↦
              let stay : t ≡ top best rules = rw h at next in
              elim (Bool-cases (s == best)) [
                | inl k ↦ rw (scan_shared best s matches rules rule is h k) (
                    scan-keep best t (matches ++ rule ∷ []) rules stay
                    ∙ tie best s t matches rule (keep t rules) k)
                | inr k ↦
                    let other : (s == t) ≡ false = ground (arith, top_le best rules) in
                    rw (scan_lower best s matches rules rule is h k, other)
                      (scan-keep best t matches rules stay)
              ]
        ])
  ]

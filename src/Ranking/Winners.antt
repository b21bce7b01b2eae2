-- ===== src/Ranking/Winners.antt =====
-- The scan of src/rust/src/rate_limit_routes.rs and rate_limit_bindings.rs against the rules that no
-- other rule outranks.
use ores_middleware.Prelude.{
  ℕ, ◌≤◌, ◌≡◌, ◌⊎◌, inl, inr, refl, sym, ◌∙◌, ap, Bool, true, false, not, ◌&&◌, List, [], ◌∷◌,
  Option, none, some, ◌==◌, ltb, all, All, arith, Bool-cases, Option-cases, if◌then◌else◌,
}
use ores_middleware.Ranking.{scan_by}
use ores_middleware.Ranking.Scan.{
  higher, top, keep, top_le, scan_out, keep_out, keep_has, scan-keep,
}

module _ {A : Type 0} (score : A → Option ℕ) where
  -- whether a rule matches with more than this score
  abbrev pub outranks : Option ℕ → ℕ → Bool
  outranks none s = false
  outranks (some other) s = ltb s other

  -- A rule wins in a table if it matches and no rule of the table matches with a higher score.
  abbrev pub wins : List A → Option ℕ → Bool
  wins table none = false
  wins table (some s) = all (λ other. not (outranks (score other) s)) table

  -- the rules of a list that win in a table, in their order
  abbrev pub winners_of : List A → List A → List A
  winners_of table [] = []
  winners_of table (rule ∷ rules) =
      let rest = winners_of table rules in if wins table (score rule) then rule ∷ rest else rest

  abbrev IsAbove : ℕ → List A → Type 0
  IsAbove t rules = All (λ r. outranks (score r) t ≡ false) rules

  top-IsAbove : (best : ℕ) (rules : List A) → IsAbove (top score best rules) rules
  unfolding top
  top-IsAbove best [] = tt
  top-IsAbove best (rule ∷ rules) =
      let rest = top-IsAbove (higher score best (score rule)) rules in
      (
        elim (Option-cases (score rule)) [
          | inl out ↦ rw out refl
          | inr (s, is) ↦
              rw is (ground (arith, top_le score (if ltb best s then s else best) rules))
        ],
        rest,
      )

  top_least :
      (best s : ℕ) (rules : List A)
      → best ≤ s
      → wins rules (some s) ≡ true
      → top score best rules ≤ s
  unfolding top
  top_least best s [] le w = le
  top_least best s (rule ∷ rules) le w = elim (Option-cases (score rule)) [
    | inl out ↦ rw out (top_least best s rules le (rw out at w))
    | inr (x, is) ↦
        let both : not (ltb s x) && wins rules (some s) ≡ true = rw is at w in
        rw is (
          top_least (if ltb best x then x else best) s rules (ground (arith, both))
            (ground (arith, both)))
  ]

  -- What keeping the rules of a score needs of it to keep the winners.
  record IsTop (t : ℕ) (table : List A) : Type 0 where
    above : IsAbove t table
    least : (s : ℕ) → wins table (some s) ≡ true → t ≤ s

  wins_of : (t s : ℕ) (table : List A) → IsAbove t table → t ≤ s → wins table (some s) ≡ true
  wins_of t s [] above le = refl
  wins_of t s (rule ∷ table) (a, above) le = elim (Option-cases (score rule)) [
    | inl out ↦ rw out (wins_of t s table above le)
    | inr (x, is) ↦
        let low : ltb t x ≡ false = rw is at a in
        let low' : ltb s x ≡ false = ground (arith, low) in
        rw (is, low') (wins_of t s table above le)
  ]

  winners_of-keep :
      (t : ℕ) (table rules : List A)
      → IsTop t table
      → IsAbove t rules
      → keep score t rules ≡ winners_of table rules
  unfolding keep
  winners_of-keep t table [] tops above = refl
  winners_of-keep t table (rule ∷ rules) tops (a, above) = elim (Option-cases (score rule)) [
    | inl out ↦ rw out (winners_of-keep t table rules tops above)
    | inr (s, is) ↦
        let low : ltb t s ≡ false = rw is at a in
        elim (Bool-cases (s == t)) [
          | inl e ↦
              let w = wins_of t s table tops.above (ground (arith, e)) in
              rw (is, e, w) (ap (λ r. rule ∷ r) (winners_of-keep t table rules tops above))
          | inr e ↦ elim (Bool-cases (wins table (some s))) [
            | inl w ↦ absurd (ground (arith, tops.least s w, low, e))
            | inr w ↦ rw (is, e, w) (winners_of-keep t table rules tops above)
          ]
        ]
  ]

  no_winners :
      (table rules : List A) → All (λ r. score r ≡ none) rules → winners_of table rules ≡ []
  no_winners table [] h = refl
  no_winners table (rule ∷ rules) (out, h) = rw out (no_winners table rules h)

  scan_first :
      (s : ℕ) (rule : A) (rules : List A)
      → score rule ≡ some s
      → scan_by score none [] (rule ∷ rules) ≡ scan_by score (some s) (rule ∷ []) rules
  unfolding scan_by
  scan_first s rule rules is = rw (scan_by, is) refl

  -- No rule matches, or the scan keeps those of the highest score.
  scan_cases :
      (rules : List A)
      → ((scan_by score none [] rules ≡ []) × All (λ r. score r ≡ none) rules)
        ⊎ ((t : ℕ) × (scan_by score none [] rules ≡ keep score t rules) × IsTop t rules)
  unfolding scan_by
  scan_cases [] = inl (refl, tt)
  scan_cases (rule ∷ rules) = elim (Option-cases (score rule)) [
    | inl out ↦ elim (scan_cases rules) [
      | inl (nothing, all_out) ↦
          inl (scan_out score none [] rules rule out ∙ nothing, (out, all_out))
      | inr (t, kept, tops) ↦ inr (
        t,
        scan_out score none [] rules rule out ∙ kept ∙ sym (keep_out score t rule rules out),
        record { above = (rw out refl, tops.above); least = λ s w. tops.least s (rw out at w) },
      )
    ]
    | inr (s, is) ↦ inr (
      top score s rules,
      scan_first s rule rules is
          ∙ scan-keep score s (top score s rules) (rule ∷ []) rules refl
          ∙ sym (keep_has score (top score s rules) s rule rules is),
      record {
        above = (rw is (ground (arith, top_le score s rules)), top-IsAbove s rules);
        least = λ x w.
            let both : not (ltb x s) && wins rules (some x) ≡ true = rw is at w in
            top_least s x rules (ground (arith, both)) (ground (arith, both));
      },
    )
  ]

  -- The scan keeps the rules that match and that no other rule outranks, in their order.
  pub scan_by-winners_of : (rules : List A) → scan_by score none [] rules ≡ winners_of rules rules
  scan_by-winners_of rules = elim (scan_cases rules) [
    | inl (nothing, out) ↦ nothing ∙ sym (no_winners rules rules out)
    | inr (t, kept, tops) ↦ kept ∙ winners_of-keep t rules rules tops tops.above
  ]

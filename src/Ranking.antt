-- ===== src/Ranking.antt =====
-- The scan for the best score, which is the same loop in `resolve` of src/rust/src/rate_limit_routes.rs and of
-- src/rust/src/rate_limit_bindings.rs.
pub mod Scan
pub mod Winners
use ores_middleware.Prelude.{ℕ, List, [], ◌∷◌, ◌++◌, Option, none, some, ◌==◌, ltb, if◌then◌else◌}

module _ {A : Type 0} (score : A → Option ℕ) where
  -- the loop, with the best score and the rules that have it so far
  unfoldable pub scan_by : Option ℕ → List A → List A → List A
  scan_by best matches [] = matches
  scan_by best matches (rule ∷ rules) = elim (score rule) [
    | none ↦ scan_by best matches rules
    | some current ↦ elim best [
      | none ↦ scan_by (some current) (matches ++ rule ∷ []) rules
      | some highest ↦
          let raised = scan_by (some current) (rule ∷ []) rules in
          let shared = scan_by (some highest) (matches ++ rule ∷ []) rules in
          let lower = scan_by (some highest) matches rules in
          if ltb highest current then raised else if current == highest then shared else lower
    ]
  ]

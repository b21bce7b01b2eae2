-- ===== src/Composition/Sound.antt =====
-- What `active_order_cycle_issue` of src/rust/src/composition.rs reports.
use mathlib.Core.Logic.{⊎_elim}
use ores_middleware.Prelude.Bytes.{Bytes, bytes_eq_iff}
use ores_middleware.Prelude.{
  ℕ, ◌+◌, ◌<◌, ◌≡◌, ◌↔◌, ◌⊎◌, refl, inl, inr, true, false, List, [], ◌∷◌, map, Option, none, some,
  ◌==◌, length, All, arith, Bool-cases,
}
use ores_middleware.Composition.{
  MiddlewareOrderingRule, MiddlewareOrderPolicy, MiddlewareOrderIssue,
}
use ores_middleware.Composition.Shape.{keep_if}
use ores_middleware.Composition.Cycle.{
  Edge, Degrees, edge_eq, has_edge, edge_set, active, active_edges, adjacency_of, count_edges,
  stages_with, cycle_report, cycle_check, active_order_cycle_issue,
}
use ores_middleware.Composition.Kahn.{entries-adjacency_of}
use ores_middleware.Composition.Nodes.{left_out}
use ores_middleware.Composition.Visit.{Round, visit_ends}
use ores_middleware.Composition.Acyclic.{
  start-Round, left_out_none, none_left_out, left_out_zero, HasRank, all_taken, ranks,
}

module _ (P : Edge → Type 0) where
  All_edge : (e : Edge) (edges : List Edge) → has_edge e edges ≡ true → All P edges → P e
  unfolding has_edge
  All_edge e [] at a = absurd (cc at)
  All_edge (u, w) ((u', w') ∷ edges) at (p, a) = elim (Bool-cases (edge_eq (u, w) (u', w'))) [
    | inl same ↦
        let first = (bytes_eq_iff u u').0 (ground (arith, same)) in
        let second = (bytes_eq_iff w w').0 (ground (arith, same)) in rw (first, second) p
    | inr other ↦ All_edge (u, w) edges (ground (arith, at, other)) a
  ]

  -- a set has the members of its list
  All-edge_set : (edges : List Edge) → All P (edge_set edges) ↔ All P edges
  unfolding edge_set
  All-edge_set [] = (λ a. tt, λ a. tt)
  All-edge_set (e ∷ edges) =
      let rest = All-edge_set edges in
      elim (Bool-cases (has_edge e (edge_set edges))) [
        | inl old ↦ rw old (λ a. (All_edge e (edge_set edges) old a, rest.0 a), λ a. rest.1 a.1)
        | inr new ↦ rw new (λ a. (a.0, rest.0 a.1), λ a. (a.0, rest.1 a.1))
      ]

-- The ranks grow along a rule, unless it is not active.
abbrev pub Follows : (Bytes → ℕ) → List Bytes → MiddlewareOrderingRule → Type 0
Follows rank names rule = (active names rule ≡ false) ⊎ (rank rule.before < rank rule.after)

-- numbers for the stages that grow along every active rule
abbrev pub HasOrder : List Bytes → MiddlewareOrderPolicy → Type 0
HasOrder names policy = (rank : Bytes → ℕ) × All (Follows rank names) policy.rules

All-active :
    (rank : Bytes → ℕ) (names : List Bytes) (rules : List MiddlewareOrderingRule)
    → All
        (λ (e : Edge). rank e.0 < rank e.1)
        (map (λ rule. (rule.before, rule.after)) (keep_if (active names) rules))
      ↔ All (Follows rank names) rules
unfolding keep_if
All-active rank names [] = (λ a. tt, λ a. tt)
All-active rank names (rule ∷ rules) =
    let rest = All-active rank names rules in
    elim (Bool-cases (active names rule)) [
      | inl e ↦ rw e (
        λ a. (inr a.0, rest.0 a.1),
        λ a. (⊎_elim (λ out. absurd (cc out)) (λ lt. lt) a.0, rest.1 a.1),
      )
      | inr e ↦ rw e (λ a. (inl refl, rest.0 a), λ a. rest.1 a.1)
    ]

HasRank_iff :
    (names : List Bytes) (policy : MiddlewareOrderPolicy)
    → HasRank (active_edges names policy) ↔ HasOrder names policy
unfolding active_edges
HasRank_iff names policy =
    let edges = map (λ rule. (rule.before, rule.after)) (keep_if (active names) policy.rules) in
    (
      λ r. (
        r.0,
        (All-active r.0 names policy.rules).0 ((All-edge_set (λ e. r.0 e.0 < r.0 e.1) edges).0 r.1),
      ),
      λ r. (
        r.0,
        (All-edge_set (λ e. r.0 e.0 < r.0 e.1) edges).1 ((All-active r.0 names policy.rules).1 r.1),
      ),
    )

module _ (debug_names : List Bytes → Bytes) where
  -- the answer on a run that ends
  answer :
      (m : Degrees) (n : ℕ) (p : List Bytes) (edges : List Edge)
      → Round edges p m []
      → n + left_out p m ≡ length m
      → (cycle_report debug_names (m, n) ≡ none) ↔ HasRank edges
  unfolding cycle_report
  answer m n p edges end sum = (
    λ e.
        let full : (n == length m) ≡ true = elim (Bool-cases (n == length m)) [
          | inl same ↦ same
          | inr other ↦ absurd (cc (rw (cycle_report, other) at e))
        ] in
        let zero_left : left_out p m ≡ 0 = ground (arith, full, sum) in
        ranks edges p m end (λ v h. none_left_out p m v zero_left h),
    λ r.
        let zero_left : left_out p m ≡ 0 =
          left_out_zero p m (λ v h. all_taken edges p m end r (r.0 v + 1) v (omega arith) h) in
        let full : (n == length m) ≡ true = ground (arith, zero_left, sum) in rw full refl,
  )

  -- The check ends, and reports nothing exactly when the stages have ranks, in whatever order the edges
  -- come.
  cycle_check_lem :
      (edges : List Edge)
      → (report : Option MiddlewareOrderIssue) × (cycle_check debug_names edges ≡ some report)
        × ((report ≡ none) ↔ HasRank edges)
  unfolding cycle_check
  cycle_check_lem [] = (none, refl, (λ e. (λ v. 0, tt), λ r. refl))
  cycle_check_lem (e ∷ edges) =
      let all : List Edge = e ∷ edges in
      let start = count_edges all [] in
      let (m, p, n, ran, end, sum, size, keys) =
        visit_ends all (adjacency_of all []) (λ s. entries-adjacency_of s all []) (length start) []
          start (stages_with (λ k. k == 0) start) 0 (omega (arith, left_out_none start))
          (start-Round all) in
      (
        cycle_report debug_names (m, n),
        rw ran refl,
        answer m n p all end (omega (arith, sum, size, left_out_none start)),
      )

  -- The cycle check of a policy ends without a panic, on the fuel that it has. It reports a cycle unless the
  -- stages can be numbered so that the numbers grow along every rule that is well formed and has its
  -- two stages present, and it reports nothing if they can.
  pub active_order_cycle_issue_lem :
      (names : List Bytes) (policy : MiddlewareOrderPolicy)
      → (report : Option MiddlewareOrderIssue) × (active_order_cycle_issue debug_names names policy
          ≡ some report)
        × ((report ≡ none) ↔ HasOrder names policy)
  unfolding active_order_cycle_issue
  active_order_cycle_issue_lem names policy =
      let (report, e, found) = cycle_check_lem (active_edges names policy) in
      let ranked = HasRank_iff names policy in
      (report, e, (λ h. ranked.0 (found.0 h), λ r. found.1 (ranked.1 r)))

-- ===== src/Composition/Cycle.antt =====
-- `active_order_cycle_issue` of src/rust/src/composition.rs, Kahn's algorithm on the rules whose two
-- stages are present. The sets and maps keep the order of insertion. The loop runs on fuel, and a run
-- that meets a missing node, an underflow or the end of the fuel has no result. `debug_names` stands
-- for `{:?}` of a list of texts.
use mathlib.Core.Option
use ores_middleware.Prelude.Bytes.{Bytes, Bytes-discrete, codes, bytes_eq, one_of}
use ores_middleware.Prelude.Maps.{lookup, insert}
use ores_middleware.Prelude.{
  ℕ, zero, suc, ◌+◌, Bool, false, ◌&&◌, ◌||◌, List, [], ◌∷◌, ◌++◌, map, Option, none, some, ◌==◌,
  ltb, length, ℕ_discrete, if◌then◌else◌,
}
use ores_middleware.Routes.Validation.{sort}
use ores_middleware.Composition.{
  MiddlewareOrderingRule, MiddlewareOrderPolicy, MiddlewareOrderIssue, error,
}
use ores_middleware.Composition.Shape.{valid_order_rule, keep_if}

abbrev pub Edge : Type 0
Edge = Bytes × Bytes

abbrev pub edge_eq : Edge → Edge → Bool
edge_eq e f = bytes_eq e.0 f.0 && bytes_eq e.1 f.1

unfoldable pub has_edge : Edge → List Edge → Bool
unfolding bytes_eq
has_edge e [] = false
has_edge e (f ∷ edges) = edge_eq e f || has_edge e edges

unfoldable pub edge_set : List Edge → List Edge
unfolding has_edge
edge_set [] = []
edge_set (e ∷ edges) = let rest = edge_set edges in if has_edge e rest then rest else e ∷ rest

abbrev pub active : List Bytes → MiddlewareOrderingRule → Bool
active names rule = valid_order_rule rule && (one_of rule.before names && one_of rule.after names)

unfoldable pub active_edges : List Bytes → MiddlewareOrderPolicy → List Edge
unfolding keep_if edge_set
active_edges names policy =
    edge_set (map (λ rule. (rule.before, rule.after)) (keep_if (active names) policy.rules))

abbrev pub Degrees : Type 0
Degrees = List (Bytes × ℕ)

-- what a map holds under a key, or the default
unfoldable pub degree : Bytes → Degrees → ℕ
unfolding lookup Bytes-discrete ℕ_discrete
degree stage indegree = elim (lookup Bytes-discrete stage indegree) [ none ↦ 0 | some n ↦ n ]

unfoldable pub entries : {V : Type 0} → Bytes → List (Bytes × List V) → List V
unfolding lookup Bytes-discrete ℕ_discrete
entries key m = elim (lookup Bytes-discrete key m) [ none ↦ [] | some values ↦ values ]

-- `entry(key).or_default().push(value)`
unfoldable pub push_entry : {V : Type 0} → Bytes → V → List (Bytes × List V) → List (Bytes × List V)
unfolding insert entries
push_entry key value m = insert Bytes-discrete key (entries key m ++ value ∷ []) m

-- `indegree.entry(before).or_insert(0); *indegree.entry(after).or_insert(0) += 1`
unfoldable pub count_edge : Edge → Degrees → Degrees
unfolding insert degree
count_edge (before, after) indegree =
    let opened = insert Bytes-discrete before (degree before indegree) indegree in
    insert Bytes-discrete after (degree after opened + 1) opened

unfoldable pub count_edges : List Edge → Degrees → Degrees
unfolding count_edge
count_edges [] indegree = indegree
count_edges (e ∷ edges) indegree = count_edges edges (count_edge e indegree)

unfoldable pub adjacency_of : List Edge → List (Bytes × List Bytes) → List (Bytes × List Bytes)
unfolding push_entry
adjacency_of [] adjacency = adjacency
adjacency_of ((before, after) ∷ edges) adjacency =
    adjacency_of edges (push_entry before after adjacency)

-- the stages with a degree that passes the test
unfoldable pub stages_with : (ℕ → Bool) → Degrees → List Bytes
stages_with test [] = []
stages_with test ((stage, n) ∷ indegree) =
    let rest = stages_with test indegree in if test n then stage ∷ rest else rest

-- the loop over the stages that follow the one taken from the queue
unfoldable pub relax : List Bytes → Degrees → List Bytes → Option (Degrees × List Bytes)
unfolding lookup insert
relax [] indegree queue = some (indegree, queue)
relax (after ∷ next) indegree queue = elim (lookup Bytes-discrete after indegree) [
  | none ↦ none
  | some zero ↦ none
  | some (suc degree) ↦
      relax next (insert Bytes-discrete after degree indegree)
        (if degree == 0 then queue ++ after ∷ [] else queue)
]

-- the `while` loop: the degrees and the number of visited stages at its end
unfoldable pub visit :
    ℕ → List (Bytes × List Bytes) → Degrees → List Bytes → ℕ → Option (Degrees × ℕ)
unfolding relax entries
visit fuel adjacency indegree [] visited = some (indegree, visited)
visit zero adjacency indegree (stage ∷ queue) visited = none
visit (suc fuel) adjacency indegree (stage ∷ queue) visited =
    elim (relax (entries stage adjacency) indegree queue) [
      | none ↦ none
      | some (indegree', queue') ↦ visit fuel adjacency indegree' queue' (visited + 1)
    ]

module _ (debug_names : List Bytes → Bytes) where
  abbrev pub cycle_issue : List Bytes → MiddlewareOrderIssue
  cycle_issue candidates = record {
    code = codes "consumer-order-cycle";
    message =
        codes "active consumer middleware ordering rules contain a cycle involving "
        ++ debug_names candidates;
    severity = error;
    stage = none;
  }

  -- what is reported at the end of the loop
  unfoldable pub cycle_report : Degrees × ℕ → Option MiddlewareOrderIssue
  unfolding stages_with
  cycle_report (indegree, visited) =
      if visited == length indegree
      then none
      else some (cycle_issue (sort (stages_with (λ n. ltb 0 n) indegree)))

  -- from the set of the active edges on; every stage is taken from the queue at most once
  unfoldable pub cycle_check : List Edge → Option (Option MiddlewareOrderIssue)
  unfolding count_edges adjacency_of stages_with visit cycle_report
  cycle_check [] = some none
  cycle_check (e ∷ edges) =
      let indegree = count_edges (e ∷ edges) [] in
      Option.map cycle_report (
        visit (length indegree) (adjacency_of (e ∷ edges) []) indegree
          (stages_with (λ n. n == 0) indegree) 0)

  unfoldable pub active_order_cycle_issue :
      List Bytes → MiddlewareOrderPolicy → Option (Option MiddlewareOrderIssue)
  unfolding active_edges cycle_check
  active_order_cycle_issue names policy = cycle_check (active_edges names policy)

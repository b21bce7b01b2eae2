-- ===== src/Composition/Visit.antt =====
-- The `while` loop of the cycle check of src/rust/src/composition.rs, from the empty run on.
use ores_middleware.Prelude.Bytes.{Bytes, bytes_eq, bytes_eq_iff, one_of, bytes_eq_refl}
use ores_middleware.Prelude.{
  ℕ, zero, suc, ◌+◌, ◌≤◌, ◌≡◌, refl, sym, ap, ◌∙◌, inl, inr, true, false, List, [], ◌∷◌, Option,
  some, length, All, arith, Bool-cases,
}
use ores_middleware.Composition.Cycle.{Edge, Degrees, entries, relax, visit}
use ores_middleware.Composition.Kahn.{holds, targets, missing, count, missing-cons, AreNodes}
use ores_middleware.Composition.Nodes.{left_out, left_out-cons}
use ores_middleware.Composition.Loops.{Mid, Same, relax_ends}

module _ (edges : List Edge) where
  -- Each stage of the list was taken after all the stages with an edge to it, the last one first.
  abbrev pub IsOrdered : List Bytes → Type 0
  IsOrdered [] = Unit
  IsOrdered (s ∷ p) = (missing p edges s ≡ 0) × (one_of s p ≡ false) × IsOrdered p

  -- between two rounds of the outer loop
  pub record Round (p : List Bytes) (m : Degrees) (queue : List Bytes) : Type 0 where
    pub mid : Mid edges p [] m queue
    pub ordered : IsOrdered p
    pub nodes : AreNodes m edges

  AreNodes-Same :
      (p : List Bytes) (m m' : Degrees) (es : List Edge)
      → Same edges p m m'
      → AreNodes m es
      → AreNodes m' es
  AreNodes-Same p m m' [] s a = tt
  AreNodes-Same p m m' (e ∷ es) s ((h, k), a) =
      ((s.keys e.0 ∙ h, s.keys e.1 ∙ k), AreNodes-Same p m m' es s a)

  targets_known :
      (s : Bytes) (m : Degrees) (es : List Edge)
      → AreNodes m es
      → All (λ v. holds v m ≡ true) (targets s es)
  unfolding targets
  targets_known s m [] a = tt
  targets_known s m ((u, w) ∷ es) ((h, k), a) = elim (Bool-cases (bytes_eq u s)) [
    | inl e ↦ rw e (k, targets_known s m es a)
    | inr e ↦ rw e (targets_known s m es a)
  ]

  -- the first stage of the queue is taken, and its targets are to be told
  module _ (p queue : List Bytes) (s : Bytes) (m : Degrees) (round : Round p m (s ∷ queue)) where
    here : one_of s (s ∷ queue) ≡ true
    unfolding one_of
    here = rw (bytes_eq_refl s) refl

    new : one_of s p ≡ false
    new = round.mid.fresh s here

    taken : missing p edges s ≡ 0
    unfolding one_of count
    taken =
        let zero_now = round.mid.zeros s (round.mid.nodes s here) in
        let value = round.mid.degrees s in ground (arith, zero_now, value, here)

    pop-Mid : Mid edges (s ∷ p) (targets s edges) m queue
    unfolding one_of count
    pop-Mid = record {
      unique = round.mid.unique;
      degrees = λ v.
          let value = round.mid.degrees v in omega (arith, value, missing-cons s p edges v new);
      zeros = λ v h. let now = round.mid.zeros v h in ground (arith, now);
      nodes = λ v at. round.mid.nodes v (ground (arith, at));
      fresh = λ v at. elim (Bool-cases (bytes_eq v s)) [
        | inl e ↦
            let again : one_of s queue ≡ true =
              ap (λ j. one_of j queue) (sym ((bytes_eq_iff v s).0 e)) ∙ at in
            absurd (cc (sym again ∙ round.mid.distinct.0))
        | inr e ↦ rw e (round.mid.fresh v (ground (arith, at, e)))
      ];
      distinct = round.mid.distinct.1;
      known = targets_known s m edges round.nodes;
    }

    pop-left_out : left_out (s ∷ p) m + 1 ≡ left_out p m
    pop-left_out = left_out-cons s p m round.mid.unique (round.mid.nodes s here) new

    -- a round keeps the invariant and the nodes
    abbrev Next : Type 0
    Next =
        (m' : Degrees) × (queue' : List Bytes) × (relax (targets s edges) m queue
          ≡ some (m', queue'))
        × Round (s ∷ p) m' queue'
        × Same edges (s ∷ p) m m'

    pop_ends : Next
    pop_ends =
        let (m', queue', e, mid, same) =
          relax_ends edges (s ∷ p) (targets s edges) m queue pop-Mid in
        (
          m',
          queue',
          e,
          record {
            mid = mid;
            ordered = (taken, new, round.ordered);
            nodes = AreNodes-Same (s ∷ p) m m' edges same round.nodes;
          },
          same,
        )

  module _ (adjacency : List (Bytes × List Bytes))
      (agree : (s : Bytes) → entries s adjacency ≡ targets s edges) where
    -- the end of the loop: the degrees, the list of the stages taken and their number
    abbrev pub Ended : List Bytes → Degrees → ℕ → Option (Degrees × ℕ) → Type 0
    Ended p m visited out =
        (m' : Degrees) × (p' : List Bytes) × (n : ℕ) × (out ≡ some (m', n))
        × Round p' m' []
        × (n + left_out p' m' ≡ visited + left_out p m)
        × (length m' ≡ length m)
        × ((v : Bytes) → holds v m' ≡ holds v m)

    -- Fuel for each node that is left suffices.
    pub visit_ends :
        (fuel : ℕ) (p : List Bytes) (m : Degrees) (queue : List Bytes) (visited : ℕ)
        → left_out p m ≤ fuel
        → Round p m queue
        → Ended p m visited (visit fuel adjacency m queue visited)
    unfolding visit
    visit_ends zero p m [] visited le round = (m, p, visited, refl, round, refl, refl, λ v. refl)
    visit_ends (suc fuel) p m [] visited le round =
        (m, p, visited, refl, round, refl, refl, λ v. refl)
    visit_ends zero p m (s ∷ queue) visited le round =
        absurd (omega (arith, pop-left_out p queue s m round))
    visit_ends (suc fuel) p m (s ∷ queue) visited le round =
        let (m1, queue1, e, next, same) = pop_ends p queue s m round in
        let fewer = pop-left_out p queue s m round in
        let (m', p', n, e', end, sum, size, keys) =
          visit_ends fuel (s ∷ p) m1 queue1 (visited + 1) (omega (arith, fewer, same.rest)) next in
        (
          m',
          p',
          n,
          rw (visit, agree s, e) e',
          end,
          omega (arith, sum, fewer, same.rest),
          size ∙ same.size,
          λ v. keys v ∙ same.keys v,
        )

-- ===== src/Composition/Acyclic.antt =====
-- The cycle check of src/rust/src/composition.rs against its specification: numbers for the stages that
-- grow along every edge.
use ores_middleware.Prelude.Bytes.{
  Bytes, Bytes-discrete, bytes_eq, bytes_eq_iff, one_of, bytes_eq_refl, bytes_eq_ne,
}
use ores_middleware.Prelude.Maps.{lookup, IsUnique}
use ores_middleware.Prelude.{
  ℕ, zero, suc, ◌+◌, ◌≤◌, ◌<◌, ◌≡◌, ◌≢◌, refl, sym, ap, ◌∙◌, inl, inr, Bool, true, false, ◌&&◌,
  List, [], ◌∷◌, ◌==◌, length, All, arith, Bool-cases, if◌then◌else◌, All-of, All-zip,
}
use ores_middleware.Composition.Cycle.{Edge, Degrees, degree, count_edges, stages_with}
use ores_middleware.Composition.Kahn.{
  holds, missing, count, degree-count_edges, count_edges-AreNodes, count_edges-IsUnique,
}
use ores_middleware.Composition.Nodes.{Distinct, left_out}
use ores_middleware.Composition.Visit.{IsOrdered, Round}

module _ (test : ℕ → Bool) where
  stages_absent :
      (v : Bytes) (m : Degrees) → All (λ e. e.0 ≢ v) m → one_of v (stages_with test m) ≡ false
  unfolding one_of stages_with
  stages_absent v [] h = refl
  stages_absent v ((k, n) ∷ m) (h, hs) = elim (Bool-cases (test n)) [
    | inl e ↦ rw (e, bytes_eq_ne v k (λ same. h (sym same))) (stages_absent v m hs)
    | inr e ↦ rw e (stages_absent v m hs)
  ]

  one_of-stages_with :
      (v : Bytes) (m : Degrees)
      → IsUnique Bytes-discrete m
      → one_of v (stages_with test m) ≡ holds v m && test (degree v m)
  unfolding one_of stages_with holds degree lookup
  one_of-stages_with v [] u = refl
  one_of-stages_with v ((k, n) ∷ m) (u, us) = elim (Bytes-discrete k v) [
    | yes e ↦ ground (arith, stages_absent v m (rw e at u), bytes_eq_refl v, e)
    | no ne ↦ ground (arith, one_of-stages_with v m us, bytes_eq_ne v k (λ same. ne (sym same)))
  ]

  stages_with-Distinct : (m : Degrees) → IsUnique Bytes-discrete m → Distinct (stages_with test m)
  unfolding stages_with
  stages_with-Distinct [] u = tt
  stages_with-Distinct ((k, n) ∷ m) (u, us) = elim (Bool-cases (test n)) [
    | inl e ↦ rw e (stages_absent k m u, stages_with-Distinct m us)
    | inr e ↦ rw e (stages_with-Distinct m us)
  ]

pub left_out_none : (m : Degrees) → left_out [] m ≡ length m
unfolding left_out one_of
left_out_none [] = refl
left_out_none ((k, n) ∷ m) = ground (arith, left_out_none m)

-- the state before the first round
pub start-Round :
    (edges : List Edge)
    → Round edges [] (count_edges edges []) (stages_with (λ n. n == 0) (count_edges edges []))
unfolding one_of count degree lookup
start-Round edges =
    let m = count_edges edges [] in
    let unique = count_edges-IsUnique edges [] tt in
    let queued = λ (v : Bytes). one_of-stages_with (λ n. n == 0) v m unique in
    let value : (v : Bytes) → degree v m ≡ missing [] edges v + count v [] =
      λ v. omega (arith, degree-count_edges edges v []) in
    record {
      mid = record {
        unique = unique;
        degrees = λ v. value v;
        zeros = λ v h. ground (arith, queued v, h);
        nodes = λ v at. ground (arith, queued v, at);
        fresh = λ v at. refl;
        distinct = stages_with-Distinct (λ n. n == 0) m unique;
        known = tt;
      };
      ordered = tt;
      nodes = count_edges-AreNodes edges [];
    }

-- Nothing is left out exactly when every node is in the list.
pub none_left_out :
    (p : List Bytes) (m : Degrees) (v : Bytes)
    → left_out p m ≡ 0
    → holds v m ≡ true
    → one_of v p ≡ true
unfolding left_out holds lookup
none_left_out p [] v z h = absurd (cc h)
none_left_out p ((k, n) ∷ m) v z h = elim (Bytes-discrete k v) [
  | yes e ↦ let at : one_of k p ≡ true = ground (arith, z) in rw (← e) at
  | no ne ↦ none_left_out p m v (omega (arith, z)) (ground arith)
]

pub left_out_zero :
    (p : List Bytes) (m : Degrees)
    → ((v : Bytes) → holds v m ≡ true → one_of v p ≡ true)
    → left_out p m ≡ 0
unfolding left_out holds lookup
left_out_zero p [] taken = refl
left_out_zero p ((k, n) ∷ m) taken =
    let at : one_of k p ≡ true = taken k (ground arith) in
    rw at (omega (arith, left_out_zero p m (λ v h. taken v (ground (arith, h)))))

-- All the nodes are taken: numbers by the order in which they were.
position : List Bytes → Bytes → ℕ
position [] v = 0
position (s ∷ p) v = if bytes_eq v s then suc (length p) else position p v

position-le : (p : List Bytes) (v : Bytes) → position p v ≤ length p
unfolding position
position-le [] v = omega arith
position-le (s ∷ p) v = ground (arith, position-le p v)

module _ (edges : List Edge) where
  -- a number for each stage, growing along the edges
  abbrev pub HasRank : Type 0
  HasRank = (rank : Bytes → ℕ) × All (λ e. rank e.0 < rank e.1) edges

  missing_none :
      (p : List Bytes) (es : List Edge) (v : Bytes)
      → missing p es v ≡ 0
      → All (λ e. e.1 ≡ v → one_of e.0 p ≡ true) es
  unfolding missing
  missing_none p [] v h = tt
  missing_none p ((u, w) ∷ es) v h =
      (λ same. ground (arith, (bytes_eq_iff w v).1 same), missing_none p es v (omega arith))

  none_missing :
      (p : List Bytes) (es : List Edge) (v : Bytes)
      → All (λ e. e.1 ≡ v → one_of e.0 p ≡ true) es
      → missing p es v ≡ 0
  unfolding missing
  none_missing p [] v h = refl
  none_missing p ((u, w) ∷ es) v (h, hs) = elim (Bool-cases (bytes_eq w v)) [
    | inl e ↦ rw (e, h ((bytes_eq_iff w v).0 e)) (omega (arith, none_missing p es v hs))
    | inr e ↦ rw e (omega (arith, none_missing p es v hs))
  ]

  outside :
      (u s : Bytes) (p : List Bytes) → one_of u p ≡ true → one_of s p ≡ false → bytes_eq u s ≡ false
  outside u s p at new = elim (Bool-cases (bytes_eq u s)) [
    | inl e ↦ absurd (cc (sym at ∙ (ap (λ j. one_of j p) ((bytes_eq_iff u s).0 e) ∙ new)))
    | inr e ↦ e
  ]

  -- Along an edge to a stage that was taken, the positions grow.
  abbrev Grows : List Bytes → Edge → Type 0
  Grows p e = one_of e.1 p ≡ true → (one_of e.0 p ≡ true) × (position p e.0 < position p e.1)

  grows :
      (s : Bytes) (p : List Bytes) (e : Edge)
      → one_of s p ≡ false
      → (e.1 ≡ s → one_of e.0 p ≡ true)
      → Grows p e
      → Grows (s ∷ p) e
  unfolding one_of position
  grows s p (u, w) new before later at = elim (Bool-cases (bytes_eq w s)) [
    | inl e ↦
        let first : one_of u p ≡ true = before ((bytes_eq_iff w s).0 e) in
        rw (e, outside u s p first new) (first, omega (arith, position-le p u))
    | inr e ↦
        let (first, lt) = later (ground (arith, at, e)) in
        rw (e, outside u s p first new) (first, lt)
  ]

  positions_grow : (p : List Bytes) → IsOrdered edges p → All (Grows p) edges
  unfolding one_of
  positions_grow [] o = All-of (Grows []) (λ e at. absurd (cc at)) edges
  positions_grow (s ∷ p) (miss, new, o) =
      All-zip (λ e. e.1 ≡ s → one_of e.0 p ≡ true) (Grows p) (Grows (s ∷ p))
        (λ e before later. grows s p e new before later) edges (missing_none p edges s miss)
        (positions_grow p o)

  -- at the end of the loop
  module _ (p : List Bytes) (m : Degrees) (end : Round edges p m []) where
    -- If the stages have ranks, then every node was taken.
    pub all_taken :
        (r : HasRank) (n : ℕ) (v : Bytes) → r.0 v < n → holds v m ≡ true → one_of v p ≡ true
    unfolding one_of count
    all_taken r zero v lt h = absurd (omega arith)
    all_taken (rank, growing) (suc n) v lt h =
        let gone : missing p edges v ≡ 0 = none_missing p edges v (
          All-zip (λ e. rank e.0 < rank e.1) (λ e. (holds e.0 m ≡ true) × (holds e.1 m ≡ true))
            (λ e. e.1 ≡ v → one_of e.0 p ≡ true)
            (λ e up node same.
              all_taken (rank, growing) n e.0 (omega (arith, up, ap rank same)) node.0)
            edges growing end.nodes) in
        let value = end.mid.degrees v in
        let taken = end.mid.zeros v h in ground (arith, gone, value, taken)

    -- If every node was taken, then the positions are ranks.
    pub ranks : ((v : Bytes) → holds v m ≡ true → one_of v p ≡ true) → HasRank
    ranks taken = (
      position p,
      All-zip (Grows p) (λ e. (holds e.0 m ≡ true) × (holds e.1 m ≡ true))
          (λ e. position p e.0 < position p e.1) (λ e up node. (up (taken e.1 node.1)).1) edges
          (positions_grow p end.ordered) end.nodes,
    )

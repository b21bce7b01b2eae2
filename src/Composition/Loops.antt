-- ===== src/Composition/Loops.antt =====
-- The two loops of the cycle check of src/rust/src/composition.rs: an invariant, and that they end.
use ores_middleware.Prelude.Bytes.{
  Bytes, Bytes-discrete, bytes_eq, bytes_eq_iff, one_of, bytes_eq_refl, bytes_eq_sym,
}
use mathlib.Core.Path.{subst}
use ores_middleware.Prelude.Maps.{IsUnique, insert-IsUnique, insert, length-insert_old}
use ores_middleware.Prelude.{
  ℕ, suc, ◌+◌, ◌≡◌, refl, sym, ap, ◌∙◌, inl, inr, true, false, ◌&&◌, ◌||◌, List, [], ◌∷◌, ◌++◌,
  Option, some, ◌==◌, length, All, arith, Bool-cases, if◌then◌else◌,
}
use ores_middleware.Composition.Cycle.{Edge, Degrees, degree, relax}
use ores_middleware.Composition.Kahn.{
  holds, lookup_of_holds, holds-insert, degree-insert, missing, count,
}
use ores_middleware.Composition.Nodes.{
  Distinct, one_of-concat, Distinct-concat, left_out, left_out-insert,
}

module _ (edges : List Edge) where
  -- between two steps of the inner loop: the stages taken from the queue, those still to be told
  pub record Mid (p next : List Bytes) (m : Degrees) (queue : List Bytes) : Type 0 where
    pub unique : IsUnique Bytes-discrete m
    pub degrees : (v : Bytes) → degree v m ≡ missing p edges v + count v next
    pub zeros : (v : Bytes) → holds v m ≡ true → (degree v m == 0) ≡ one_of v queue || one_of v p
    pub nodes : (v : Bytes) → one_of v queue ≡ true → holds v m ≡ true
    pub fresh : (v : Bytes) → one_of v queue ≡ true → one_of v p ≡ false
    pub distinct : Distinct queue
    pub known : All (λ v. holds v m ≡ true) next

  -- the same keys
  pub record Same (p : List Bytes) (m m' : Degrees) : Type 0 where
    pub keys : (v : Bytes) → holds v m' ≡ holds v m
    pub size : length m' ≡ length m
    pub rest : left_out p m' ≡ left_out p m

  Same-insert :
      (p : List Bytes) (k : Bytes) (n : ℕ) (m : Degrees)
      → holds k m ≡ true
      → Same p m (insert Bytes-discrete k n m)
  Same-insert p k n m h = record {
    keys = λ v. holds-insert k v n m ∙ elim (Bool-cases (bytes_eq k v)) [
      | inl e ↦ rw e (sym h ∙ ap (λ j. holds j m) ((bytes_eq_iff k v).0 e))
      | inr e ↦ rw e refl
    ];
    size = length-insert_old Bytes-discrete k n (degree k m) m (lookup_of_holds k m h);
    rest = left_out-insert p k n m h;
  }

  All-Same :
      (p : List Bytes) (m m' : Degrees) (xs : List Bytes)
      → Same p m m'
      → All (λ v. holds v m ≡ true) xs
      → All (λ v. holds v m' ≡ true) xs
  All-Same p m m' [] s a = tt
  All-Same p m m' (x ∷ xs) s (h, hs) = (s.keys x ∙ h, All-Same p m m' xs s hs)

  -- one degree falls by one, and its stage joins the queue when nothing is left
  module _ (p next : List Bytes) (w : Bytes) (m : Degrees) (queue : List Bytes) (n : ℕ)
      (mid : Mid p (w ∷ next) m queue) (is : degree w m ≡ suc n) where
    abbrev lowered : Degrees
    lowered = insert Bytes-discrete w n m

    abbrev joined : List Bytes
    joined = if n == 0 then queue ++ w ∷ [] else queue

    unqueued : one_of w queue || one_of w p ≡ false
    unqueued = sym (mid.zeros w mid.known.0) ∙ rw is (ground arith)

    lowered-degrees : (v : Bytes) → degree v lowered ≡ missing p edges v + count v next
    unfolding count
    lowered-degrees v =
        let before = mid.degrees v in
        degree-insert w v n m ∙ elim (Bool-cases (bytes_eq w v)) [
          | inl e ↦
              let at : degree v m ≡ suc n =
                ap (λ j. degree j m) (sym ((bytes_eq_iff w v).0 e)) ∙ is in
              rw e (ground (arith, before, at, e))
          | inr e ↦ rw e (ground (arith, before, e))
        ]

    one_of-joined : (v : Bytes) → one_of v joined ≡ (n == 0 && bytes_eq w v) || one_of v queue
    one_of-joined v = ground (arith, one_of-concat v w queue, bytes_eq_sym v w)

    -- what holds of the lowered stage and of the queue holds of the new queue
    joined_rule :
        (P : Bytes → Type 0)
        → P w
        → ((v : Bytes) → one_of v queue ≡ true → P v)
        → (v : Bytes) → one_of v joined ≡ true
        → P v
    joined_rule P here there v at = elim (Bool-cases (bytes_eq w v)) [
      | inl e ↦ subst P ((bytes_eq_iff w v).0 e) here
      | inr e ↦ there v (ground (arith, one_of-joined v))
    ]

    lowered-zeros :
        (v : Bytes)
        → holds v lowered ≡ true
        → (degree v lowered == 0) ≡ one_of v joined || one_of v p
    lowered-zeros v h =
        let before = mid.zeros v (sym ((Same-insert p w n m mid.known.0).keys v) ∙ h) in
        let value = degree-insert w v n m in
        rw (one_of-joined v) (elim (Bool-cases (bytes_eq w v)) [
          | inl e ↦
              let out : one_of v queue || one_of v p ≡ false =
                ap (λ j. one_of j queue || one_of j p) (sym ((bytes_eq_iff w v).0 e)) ∙ unqueued in
              ground (arith, value, e, out)
          | inr e ↦ ground (arith, value, before, e)
        ])

    joined-Distinct : Distinct joined
    joined-Distinct = elim (Bool-cases (n == 0)) [
      | inl e ↦ rw e (Distinct-concat w queue mid.distinct (ground (arith, unqueued)))
      | inr e ↦ rw e mid.distinct
    ]

    lowered-Mid : Mid p next lowered joined
    lowered-Mid =
        let same = Same-insert p w n m mid.known.0 in
        record {
          unique = insert-IsUnique Bytes-discrete w n m mid.unique;
          degrees = lowered-degrees;
          zeros = lowered-zeros;
          nodes =
              λ v at. same.keys v ∙ joined_rule (λ x. holds x m ≡ true) mid.known.0 mid.nodes v at;
          fresh = joined_rule (λ x. one_of x p ≡ false) (ground (arith, unqueued)) mid.fresh;
          distinct = joined-Distinct;
          known = All-Same p m lowered next same mid.known.1;
        }

  Same-trans : (p : List Bytes) (a b c : Degrees) → Same p a b → Same p b c → Same p a c
  Same-trans p a b c s t = record {
    keys = λ v. t.keys v ∙ s.keys v;
    size = t.size ∙ s.size;
    rest = t.rest ∙ s.rest;
  }

  abbrev pub Told : List Bytes → Degrees → Option (Degrees × List Bytes) → Type 0
  Told p m out =
      (m' : Degrees) × (queue' : List Bytes) × (out ≡ some (m', queue'))
      × Mid p [] m' queue'
      × Same p m m'

  relax_at :
      (next : List Bytes) (w : Bytes) (m : Degrees) (queue : List Bytes) (n : ℕ)
      → holds w m ≡ true
      → degree w m ≡ suc n
      → relax (w ∷ next) m queue
        ≡ relax next (insert Bytes-discrete w n m) (if n == 0 then queue ++ w ∷ [] else queue)
  unfolding relax
  relax_at next w m queue n h is = rw (relax, lookup_of_holds w m h, is) refl

  positive :
      (p next : List Bytes) (w : Bytes) (m : Degrees) (queue : List Bytes)
      → Mid p (w ∷ next) m queue
      → (n : ℕ) × (degree w m ≡ suc n)
  unfolding count
  positive p next w m queue mid =
      let before = mid.degrees w in
      (missing p edges w + count w next, ground (arith, before, bytes_eq_refl w))

  -- the inner loop ends with all stages told
  pub relax_ends :
      (p next : List Bytes) (m : Degrees) (queue : List Bytes)
      → Mid p next m queue
      → Told p m (relax next m queue)
  unfolding relax
  relax_ends p [] m queue mid =
      (m, queue, refl, mid, record { keys = λ v. refl; size = refl; rest = refl })
  relax_ends p (w ∷ next) m queue mid =
      let (n, is) = positive p next w m queue mid in
      let (m', queue', e, end, same) =
        relax_ends p next (insert Bytes-discrete w n m) (if n == 0 then queue ++ w ∷ [] else queue)
          (lowered-Mid p next w m queue n mid is) in
      (
        m',
        queue',
        relax_at next w m queue n mid.known.0 is ∙ e,
        end,
        Same-trans p m (insert Bytes-discrete w n m) m' (Same-insert p w n m mid.known.0) same,
      )

-- ===== src/Composition/Positions.antt =====
-- The positions of src/rust/src/composition.rs: what the map of the indexes holds, and when the last
-- position of one stage is before the first of another.
use mathlib.Core.List.{append_assoc, append-nil}
use ores_middleware.Prelude.Bytes.{Bytes, bytes_eq, bytes_eq_iff, one_of, bytes_eq_ne, bytes_eq_sym}
use ores_middleware.Prelude.{
  ℕ, ◌+◌, ◌≤◌, ◌≡◌, ◌≢◌, refl, sym, ap, ◌∙◌, inl, inr, Bool, true, false, not, List, [], ◌∷◌, ◌++◌,
  Option, none, some, ltb, length, arith, Bool-cases, Option-cases, if◌then◌else◌,
}
use ores_middleware.Composition.Cycle.{entries, push_entry}
use ores_middleware.Composition.Validation.{positions_from, first_of, last_of}
use ores_middleware.Composition.Kahn.{entries-push, count}

-- the indexes at which a stage stands
unfoldable pub places : ℕ → Bytes → List Bytes → List ℕ
places index stage [] = []
places index stage (name ∷ names) =
    let rest = places (index + 1) stage names in
    (if bytes_eq name stage then index ∷ [] else []) ++ rest

pub entries-positions_from :
    (index : ℕ) (stage : Bytes) (names : List Bytes) (m : List (Bytes × List ℕ))
    → entries stage (positions_from index names m) ≡ entries stage m ++ places index stage names
unfolding positions_from places
entries-positions_from index stage [] m = sym (append-nil (entries stage m))
entries-positions_from index stage (name ∷ names) m =
    entries-positions_from (index + 1) stage names (push_entry name index m)
    ∙ (ap (λ xs. xs ++ places (index + 1) stage names) (entries-push name stage index m)
        ∙ append_assoc (entries stage m) (if bytes_eq name stage then index ∷ [] else [])
            (places (index + 1) stage names))

pub length-places :
    (index : ℕ) (stage : Bytes) (names : List Bytes)
    → length (places index stage names) ≡ count stage names
unfolding places count
length-places index stage [] = refl
length-places index stage (name ∷ names) = ground (arith, length-places (index + 1) stage names)

first_place :
    (index k : ℕ) (stage : Bytes) (names : List Bytes)
    → first_of (places index stage names) ≡ some k
    → index ≤ k
unfolding places first_of
first_place index k stage [] e = absurd (cc e)
first_place index k stage (name ∷ names) e = elim (Bool-cases (bytes_eq name stage)) [
  | inl same ↦ let here : some index ≡ some k = rw same at e in ground (arith, here)
  | inr other ↦
      let later : first_of (places (index + 1) stage names) ≡ some k = rw other at e in
      omega (arith, first_place (index + 1) k stage names later)
]

last_of-ne_none : (x : ℕ) (xs : List ℕ) → last_of (x ∷ xs) ≢ none
unfolding last_of
last_of-ne_none x [] e = cc e
last_of-ne_none x (y ∷ xs) e = last_of-ne_none y xs e

last_of_alone : (x : ℕ) (xs : List ℕ) → last_of xs ≡ none → last_of (x ∷ xs) ≡ some x
unfolding last_of
last_of_alone x [] e = refl
last_of_alone x (y ∷ xs) e = absurd (last_of-ne_none y xs e)

last_of_rest : (x k : ℕ) (xs : List ℕ) → last_of xs ≡ some k → last_of (x ∷ xs) ≡ some k
unfolding last_of
last_of_rest x k [] e = absurd (cc e)
last_of_rest x k (y ∷ xs) e = e

-- the places of a list with a name more
module _ (index : ℕ) (stage name : Bytes) (names : List Bytes) where
  places_here :
      bytes_eq name stage ≡ true
      → places index stage (name ∷ names) ≡ index ∷ places (index + 1) stage names
  unfolding places
  places_here e = rw e refl

  places_there :
      bytes_eq name stage ≡ false
      → places index stage (name ∷ names) ≡ places (index + 1) stage names
  unfolding places
  places_there e = rw e refl

-- whether a stage has a last position, and from where on
abbrev pub LastPlace : ℕ → Bytes → List Bytes → Option ℕ → Type 0
LastPlace index stage names none = one_of stage names ≡ false
LastPlace index stage names (some k) = (one_of stage names ≡ true) × (index ≤ k)

pub last_place :
    (index : ℕ) (stage : Bytes) (names : List Bytes)
    → LastPlace index stage names (last_of (places index stage names))
unfolding one_of
last_place index stage [] = unfold places last_of in refl
last_place index stage (name ∷ names) =
    let later = last_place (index + 1) stage names in
    elim (Bool-cases (bytes_eq name stage)) [
      | inl same ↦
          let found : bytes_eq stage name ≡ true = bytes_eq_sym stage name ∙ same in
          rw (places_here index stage name names same)
            (elim (Option-cases (last_of (places (index + 1) stage names))) [
              | inl e ↦
                  rw (last_of_alone index (places (index + 1) stage names) e)
                    (rw found refl, omega arith)
              | inr (k, e) ↦
                  let there : (one_of stage names ≡ true) × (index + 1 ≤ k) = rw e at later in
                  rw (last_of_rest index k (places (index + 1) stage names) e)
                    (rw found refl, omega (arith, there.1))
            ])
      | inr other ↦
          let skipped : bytes_eq stage name ≡ false = bytes_eq_sym stage name ∙ other in
          rw (places_there index stage name names other)
            (elim (Option-cases (last_of (places (index + 1) stage names))) [
              | inl e ↦
                  let gone : one_of stage names ≡ false = rw e at later in rw e (rw skipped gone)
              | inr (k, e) ↦
                  let there : (one_of stage names ≡ true) × (index + 1 ≤ k) = rw e at later in
                  rw e (rw skipped there.0, omega (arith, there.1))
            ])
    ]

-- `before` does not stand in the list from the first `after` on
unfoldable pub separated : Bytes → Bytes → List Bytes → Bool
separated before after [] = true
separated before after (name ∷ names) =
    let rest = separated before after names in
    if bytes_eq name after then not (one_of before names) else rest

-- no last position at or after a first one
unfoldable pub in_order : Option ℕ → Option ℕ → Bool
in_order (some left) (some right) = ltb left right
in_order (some left) none = true
in_order none right = true

module _ (before after : Bytes) (distinct : before ≢ after) where
  at_before :
      (index : ℕ) (names : List Bytes)
      → in_order
          (last_of (places (index + 1) before names))
          (first_of (places (index + 1) after names))
        ≡ separated before after names
      → in_order
          (last_of (index ∷ places (index + 1) before names))
          (first_of (places (index + 1) after names))
        ≡ separated before after names
  unfolding in_order
  at_before index names later = elim (Option-cases (last_of (places (index + 1) before names))) [
    | inl e ↦
        let fine : true ≡ separated before after names = rw e at later in
        rw (last_of_alone index (places (index + 1) before names) e)
          (elim (Option-cases (first_of (places (index + 1) after names))) [
            | inl e' ↦ rw e' fine
            | inr (r, e') ↦
                let le = first_place (index + 1) r after names e' in
                let lt : ltb index r ≡ true = ground (arith, le) in rw (e', lt) fine
          ])
    | inr (k, e) ↦ rw (last_of_rest index k (places (index + 1) before names) e) (rw e at later)
  ]

  pub in_order-places :
      (index : ℕ) (names : List Bytes)
      → in_order (last_of (places index before names)) (first_of (places index after names))
        ≡ separated before after names
  unfolding in_order separated
  in_order-places index [] = unfold places last_of first_of in refl
  in_order-places index (name ∷ names) =
      let later = in_order-places (index + 1) names in
      let last = last_place (index + 1) before names in
      elim (Bool-cases (bytes_eq name after)) [
        | inl same ↦
            let other : bytes_eq name before ≡ false =
              bytes_eq_ne name before (λ e. distinct (sym e ∙ (bytes_eq_iff name after).0 same)) in
            rw
              (
                places_there index before name names other,
                places_here index after name names same,
                same,
              )
              (unfold first_of in
                elim (Option-cases (last_of (places (index + 1) before names))) [
                  | inl e ↦
                      let gone : one_of before names ≡ false = rw e at last in rw (e, gone) refl
                  | inr (k, e) ↦
                      let there : (one_of before names ≡ true) × (index + 1 ≤ k) = rw e at last in
                      rw (e, there.0) (ground (arith, there.1))
                ])
        | inr different ↦
            rw (places_there index after name names different, different)
              (elim (Bool-cases (bytes_eq name before)) [
                | inl same ↦
                    rw (places_here index before name names same) (at_before index names later)
                | inr other ↦ rw (places_there index before name names other) later
              ])
      ]

-- ===== src/Prelude/Maps.antt =====
-- A `BTreeMap` as an association list with at most one entry for a key. The order of the entries is
-- left open: what a caller reads of it does not depend on it.
use Prim.Native.Nat.{◌+◌, ◌≤◌}
use mathlib.Core.Path.{◌≡◌, refl, sym, ◌∙◌, subst}
use mathlib.Core.Logic.{◌≢◌, ◌⊎◌, inl, inr, ite, if_pos, if_neg}
use mathlib.Core.Bool.{Bool}
use mathlib.Core.Option.{Option, none, some}
use mathlib.Core.List.{List, [], ◌∷◌}
use native.Mathlib.Omega.{arith}
use ores_middleware.Prelude.Lists.{length, All}
use ores_middleware.Prelude.Tests.{if◌then◌else◌, Bool-cases}

pub some_inj {ℓ} : {A : Type ℓ} {a b : A} → some a ≡ some b → a ≡ b
some_inj e = cc

module _ {ℓ} {K V : Type ℓ} (dec : Discrete K) where
  unfoldable pub lookup : K → List (K × V) → Option V
  lookup k [] = none
  lookup k ((j, v) ∷ m) = ite (dec j k) (some v) (lookup k m)

  -- `BTreeMap::insert`
  unfoldable pub insert : K → V → List (K × V) → List (K × V)
  insert k v [] = (k, v) ∷ []
  insert k v ((j, w) ∷ m) = ite (dec j k) ((k, v) ∷ m) ((j, w) ∷ insert k v m)

  -- `BTreeMap::remove`
  unfoldable pub remove : K → List (K × V) → List (K × V)
  remove k [] = []
  remove k ((j, w) ∷ m) = ite (dec j k) m ((j, w) ∷ remove k m)

  -- `BTreeMap::retain`, for a test that reads the value
  unfoldable pub retain : (V → Bool) → List (K × V) → List (K × V)
  retain p [] = []
  retain p ((j, w) ∷ m) = if p w then (j, w) ∷ retain p m else retain p m

  abbrev pub IsUnique : List (K × V) → Type ℓ
  IsUnique [] = Unit
  IsUnique ((j, w) ∷ m) = All (λ e. e.0 ≢ j) m × IsUnique m

  pub lookup-head : (k : K) (v : V) (m : List (K × V)) → lookup k ((k, v) ∷ m) ≡ some v
  unfolding lookup
  lookup-head k v m = ground arith

  pub lookup-tail :
      (k j : K) (v : V) (m : List (K × V)) → j ≢ k → lookup k ((j, v) ∷ m) ≡ lookup k m
  unfolding lookup
  lookup-tail k j v m h = ground arith

  pub lookup-insert :
      (k j : K) (v : V) (m : List (K × V))
      → lookup j (insert k v m) ≡ ite (dec k j) (some v) (lookup j m)
  unfolding lookup insert
  lookup-insert k j v [] = refl
  lookup-insert k j v ((i, w) ∷ m) = ground (arith, lookup-insert k j v m)

  pub lookup-remove_ne : (k j : K) (m : List (K × V)) → j ≢ k → lookup j (remove k m) ≡ lookup j m
  unfolding lookup remove
  lookup-remove_ne k j [] h = refl
  lookup-remove_ne k j ((i, w) ∷ m) h = ground (arith, lookup-remove_ne k j m h)

  pub lookup-insert_self : (k : K) (v : V) (m : List (K × V)) → lookup k (insert k v m) ≡ some v
  lookup-insert_self k v m = ground (arith, lookup-insert k k v m)

  pub lookup-insert_ne :
      (k j : K) (v : V) (m : List (K × V)) → k ≢ j → lookup j (insert k v m) ≡ lookup j m
  lookup-insert_ne k j v m h = ground (arith, lookup-insert k j v m)

  pub lookup_absent : (j : K) (m : List (K × V)) → All (λ e. e.0 ≢ j) m → lookup j m ≡ none
  unfolding lookup
  lookup_absent j [] h = refl
  lookup_absent j ((i, w) ∷ m) (h, hs) = ground (arith, lookup_absent j m hs)

  pub absent_of_lookup : (j : K) (m : List (K × V)) → lookup j m ≡ none → All (λ e. e.0 ≢ j) m
  unfolding lookup
  absent_of_lookup j [] h = tt
  absent_of_lookup j ((i, w) ∷ m) h = ground (arith, absent_of_lookup j m)

  pub lookup-remove_self : (k : K) (m : List (K × V)) → IsUnique m → lookup k (remove k m) ≡ none
  unfolding lookup remove
  lookup-remove_self k [] u = refl
  lookup-remove_self k ((i, w) ∷ m) (u, us) = elim (dec i k) [
    | yes e ↦ rw (if_pos _ e) (lookup_absent k m (rw e at u))
    | no ne ↦ rw (if_neg _ ne) (rw (if_neg _ ne) (lookup-remove_self k m us))
  ]

  -- What is kept passed the test, and what passed the test is kept.
  pub lookup-retain :
      (p : V → Bool) (j : K) (m : List (K × V))
      → IsUnique m
      → lookup j (retain p m)
        ≡ elim (lookup j m) [ none ↦ none | some v ↦ if p v then some v else none ]
  unfolding lookup retain
  lookup-retain p j [] u = refl
  lookup-retain p j ((i, w) ∷ m) (u, us) = elim (dec i j) [
    | yes e ↦
        let gone : lookup j m ≡ none = lookup_absent j m (rw e at u) in
        let rest : lookup j (retain p m) ≡ none = lookup-retain p j m us ∙ rw gone in
        ground (arith, gone, rest)
    | no ne ↦ ground (arith, lookup-retain p j m us)
  ]

  module _ (P : K × V → Type ℓ) where
    pub All-insert : (k : K) (v : V) (m : List (K × V)) → P (k, v) → All P m → All P (insert k v m)
    unfolding insert
    All-insert k v [] p h = (p, tt)
    All-insert k v ((i, w) ∷ m) p (q, h) = elim (dec i k) [
      | yes e ↦ rw (if_pos _ e) (p, h)
      | no ne ↦ rw (if_neg _ ne) (q, All-insert k v m p h)
    ]

    pub All-remove : (k : K) (m : List (K × V)) → All P m → All P (remove k m)
    unfolding remove
    All-remove k [] h = tt
    All-remove k ((i, w) ∷ m) (q, h) = elim (dec i k) [
      | yes e ↦ rw (if_pos _ e) h
      | no ne ↦ rw (if_neg _ ne) (q, All-remove k m h)
    ]

    pub All-retain : (p : V → Bool) (m : List (K × V)) → All P m → All P (retain p m)
    unfolding retain
    All-retain p [] h = tt
    All-retain p ((i, w) ∷ m) (q, h) = elim (Bool-cases (p w)) [
      | inl kept ↦ rw kept (q, All-retain p m h)
      | inr gone ↦ rw gone (All-retain p m h)
    ]

    -- a property of all entries holds of the entry that is found
    pub All-lookup : (k : K) (v : V) (m : List (K × V)) → All P m → lookup k m ≡ some v → P (k, v)
    unfolding lookup
    All-lookup k v [] h e = cc
    All-lookup k v ((i, w) ∷ m) (q, h) e = elim (dec i k) [
      | yes same ↦
          let found : some w ≡ some v = rw (if_pos _ same) at e in
          rw (← same) (subst (λ x. P (i, x)) (some_inj found) q)
      | no ne ↦ All-lookup k v m h (rw (if_neg _ ne) at e)
    ]

  pub insert-IsUnique : (k : K) (v : V) (m : List (K × V)) → IsUnique m → IsUnique (insert k v m)
  unfolding insert
  insert-IsUnique k v [] u = (tt, tt)
  insert-IsUnique k v ((i, w) ∷ m) (u, us) = elim (dec i k) [
    | yes e ↦ rw (if_pos _ e) (rw e at u, us)
    | no ne ↦
        rw (if_neg _ ne)
          (All-insert (λ e. e.0 ≢ i) k v m (λ e. ne (sym e)) u, insert-IsUnique k v m us)
  ]

  pub remove-IsUnique : (k : K) (m : List (K × V)) → IsUnique m → IsUnique (remove k m)
  unfolding remove
  remove-IsUnique k [] u = tt
  remove-IsUnique k ((i, w) ∷ m) (u, us) = elim (dec i k) [
    | yes e ↦ rw (if_pos _ e) us
    | no ne ↦ rw (if_neg _ ne) (All-remove (λ e. e.0 ≢ i) k m u, remove-IsUnique k m us)
  ]

  pub retain-IsUnique : (p : V → Bool) (m : List (K × V)) → IsUnique m → IsUnique (retain p m)
  unfolding retain
  retain-IsUnique p [] u = tt
  retain-IsUnique p ((i, w) ∷ m) (u, us) = elim (Bool-cases (p w)) [
    | inl kept ↦ rw kept (All-retain (λ e. e.0 ≢ i) p m u, retain-IsUnique p m us)
    | inr gone ↦ rw gone (retain-IsUnique p m us)
  ]

  pub length-retain : (p : V → Bool) (m : List (K × V)) → length (retain p m) ≤ length m
  unfolding retain
  length-retain p [] = omega arith
  length-retain p ((i, w) ∷ m) = ground (arith, length-retain p m)

  pub length-insert_new :
      (k : K) (v : V) (m : List (K × V)) → lookup k m ≡ none → length (insert k v m) ≡ length m + 1
  unfolding insert lookup
  length-insert_new k v [] h = omega arith
  length-insert_new k v ((i, w) ∷ m) h = ground (arith, length-insert_new k v m)

  pub length-insert_old :
      (k : K) (v w : V) (m : List (K × V)) → lookup k m ≡ some w → length (insert k v m) ≡ length m
  unfolding insert lookup
  length-insert_old k v w [] h = cc
  length-insert_old k v w ((i, x) ∷ m) h = ground (arith, length-insert_old k v w m)

  pub length-remove :
      (k : K) (w : V) (m : List (K × V)) → lookup k m ≡ some w → length (remove k m) + 1 ≡ length m
  unfolding remove lookup
  length-remove k w [] h = cc
  length-remove k w ((i, x) ∷ m) h = ground (arith, length-remove k w m)

  -- two different keys written over a map
  pub lookup-insert_two :
      (a b j : K) (x y : V) (m : List (K × V))
      → a ≢ b
      → (lookup a (insert a x (insert b y m)) ≡ some x)
        × (lookup b (insert a x (insert b y m)) ≡ some y)
        × ((j ≡ a) ⊎ (j ≡ b) ⊎ (lookup j (insert a x (insert b y m)) ≡ lookup j m))
  lookup-insert_two a b j x y m h = (
    lookup-insert_self a x (insert b y m),
    lookup-insert_ne a b x (insert b y m) h ∙ lookup-insert_self b y m,
    elim (dec j a) [
      | yes e ↦ inl e
      | no ne ↦ elim (dec j b) [
        | yes e ↦ inr (inl e)
        | no ne' ↦ inr (
            inr (
              lookup-insert_ne a j x (insert b y m) (λ e. ne (sym e))
              ∙ lookup-insert_ne b j y m (λ e. ne' (sym e))))
      ]
    ],
  )

-- ===== src/Composition/Kahn.antt =====
-- The maps and counts behind the cycle check of src/rust/src/composition.rs.
use mathlib.Core.List.{append_assoc, append-nil}
use ores_middleware.Prelude.Bytes.{
  Bytes, Bytes-discrete, bytes_eq, bytes_eq_iff, one_of, bytes_eq_refl, bytes_eq_ne,
}
use ores_middleware.Prelude.Maps.{
  lookup, insert, lookup-insert_self, lookup-insert_ne, IsUnique, insert-IsUnique,
}
use ores_middleware.Prelude.{
  ℕ, ◌+◌, ◌≡◌, refl, sym, ap, ◌∙◌, inl, inr, Bool, true, false, not, ◌&&◌, ◌||◌, List, [], ◌∷◌,
  ◌++◌, none, some, All, arith, Bool-cases, Option-cases, ℕ_discrete, if◌then◌else◌,
}
use ores_middleware.Composition.Cycle.{
  Edge, Degrees, degree, entries, push_entry, count_edge, count_edges, adjacency_of,
}

-- whether a map has a key
unfoldable pub holds : Bytes → Degrees → Bool
unfolding lookup Bytes-discrete ℕ_discrete
holds key m = elim (lookup Bytes-discrete key m) [ none ↦ false | some _ ↦ true ]

pub lookup_of_holds :
    (j : Bytes) (m : Degrees) → holds j m ≡ true → lookup Bytes-discrete j m ≡ some (degree j m)
unfolding holds degree
lookup_of_holds j m h = elim (Option-cases (lookup Bytes-discrete j m)) [
  | inl out ↦ absurd (cc (rw (holds, out) at h))
  | inr (n, is) ↦ rw (degree, is) refl
]

pub holds-insert :
    (k j : Bytes) (n : ℕ) (m : Degrees)
    → holds j (insert Bytes-discrete k n m) ≡ bytes_eq k j || holds j m
unfolding holds
holds-insert k j n m = elim (Bytes-discrete k j) [
  | yes e ↦ rw (← e) (rw (bytes_eq_refl k, holds, lookup-insert_self Bytes-discrete k n m) refl)
  | no ne ↦ rw (bytes_eq_ne k j ne, holds, lookup-insert_ne Bytes-discrete k j n m ne) refl
]

pub degree-insert :
    (k j : Bytes) (n : ℕ) (m : Degrees)
    → degree j (insert Bytes-discrete k n m) ≡ (if bytes_eq k j then n else degree j m)
unfolding degree
degree-insert k j n m = elim (Bytes-discrete k j) [
  | yes e ↦ rw (← e) (rw (bytes_eq_refl k, degree, lookup-insert_self Bytes-discrete k n m) refl)
  | no ne ↦ rw (bytes_eq_ne k j ne, degree, lookup-insert_ne Bytes-discrete k j n m ne) refl
]

pub entries-push :
    {V : Type 0} (k j : Bytes) (v : V) (m : List (Bytes × List V))
    → entries j (push_entry k v m) ≡ entries j m ++ (if bytes_eq k j then v ∷ [] else [])
unfolding entries push_entry
entries-push k j v m = elim (Bytes-discrete k j) [
  | yes e ↦ rw (← e) (
      rw (bytes_eq_refl k, entries, lookup-insert_self Bytes-discrete k (entries k m ++ v ∷ []) m)
        refl)
  | no ne ↦
      rw
        (
          bytes_eq_ne k j ne,
          entries,
          lookup-insert_ne Bytes-discrete k j (entries k m ++ v ∷ []) m ne,
        )
        (sym (append-nil (entries j m)))
]

-- the stages that follow a stage
unfoldable pub targets : Bytes → List Edge → List Bytes
targets s [] = []
targets s ((u, w) ∷ edges) =
    let rest = targets s edges in (if bytes_eq u s then w ∷ [] else []) ++ rest

pub entries-adjacency_of :
    (s : Bytes) (edges : List Edge) (m : List (Bytes × List Bytes))
    → entries s (adjacency_of edges m) ≡ entries s m ++ targets s edges
unfolding adjacency_of targets
entries-adjacency_of s [] m = sym (append-nil (entries s m))
entries-adjacency_of s ((u, w) ∷ edges) m =
    entries-adjacency_of s edges (push_entry u w m)
    ∙ (ap (λ xs. xs ++ targets s edges) (entries-push u s w m)
        ∙ append_assoc (entries s m) (if bytes_eq u s then w ∷ [] else []) (targets s edges))

abbrev pub bit : Bool → ℕ
bit true = 1
bit false = 0

-- the edges into a stage from stages that are not in the list
unfoldable pub missing : List Bytes → List Edge → Bytes → ℕ
missing p [] v = 0
missing p ((u, w) ∷ edges) v = bit (bytes_eq w v && not (one_of u p)) + missing p edges v

unfoldable pub count : Bytes → List Bytes → ℕ
count v [] = 0
count v (w ∷ ws) = bit (bytes_eq w v) + count v ws

pub count-append : (v : Bytes) (xs ys : List Bytes) → count v (xs ++ ys) ≡ count v xs + count v ys
unfolding count
count-append v [] ys = omega arith
count-append v (x ∷ xs) ys = omega (arith, count-append v xs ys)

-- a stage that joins the list takes its own edges out
missing_step :
    (s : Bytes) (p : List Bytes) (u w v : Bytes)
    → one_of s p ≡ false
    → bit (bytes_eq w v && not (one_of u p))
      ≡ bit (bytes_eq w v && not (one_of u (s ∷ p))) + count v (if bytes_eq u s then w ∷ [] else [])
unfolding one_of count
missing_step s p u w v new = elim (Bool-cases (bytes_eq u s)) [
  | inl same ↦
      let outside : one_of u p ≡ false = rw ((bytes_eq_iff u s).0 same) new in
      rw (same, outside) (ground arith)
  | inr different ↦ rw different (omega arith)
]

pub missing-cons :
    (s : Bytes) (p : List Bytes) (edges : List Edge) (v : Bytes)
    → one_of s p ≡ false
    → missing p edges v ≡ missing (s ∷ p) edges v + count v (targets s edges)
unfolding missing targets
missing-cons s p [] v new = unfold count in omega arith
missing-cons s p ((u, w) ∷ edges) v new = omega (
  arith,
  missing_step s p u w v new,
  missing-cons s p edges v new,
  count-append v (if bytes_eq u s then w ∷ [] else []) (targets s edges),
)

degree-count_edge :
    (u w v : Bytes) (m : Degrees) → degree v (count_edge (u, w) m) ≡ degree v m + bit (bytes_eq w v)
unfolding count_edge
degree-count_edge u w v m =
    let opened = insert Bytes-discrete u (degree u m) m in
    let same : (j : Bytes) → degree j opened ≡ degree j m = λ j.
      degree-insert u j (degree u m) m ∙ elim (Bool-cases (bytes_eq u j)) [
        | inl e ↦ rw e (ap (λ k. degree k m) ((bytes_eq_iff u j).0 e))
        | inr e ↦ rw e refl
      ] in
    degree-insert w v (degree w opened + 1) opened ∙ elim (Bool-cases (bytes_eq w v)) [
      | inl e ↦ rw e (ap (λ n. n + 1) (same w ∙ ap (λ k. degree k m) ((bytes_eq_iff w v).0 e)))
      | inr e ↦ rw e (omega (arith, same v))
    ]

pub degree-count_edges :
    (edges : List Edge) (v : Bytes) (m : Degrees)
    → degree v (count_edges edges m) ≡ degree v m + missing [] edges v
unfolding count_edges missing one_of
degree-count_edges [] v m = omega arith
degree-count_edges ((u, w) ∷ edges) v m =
    ground (arith, degree-count_edges edges v (count_edge (u, w) m), degree-count_edge u w v m)

pub holds-count_edge :
    (u w v : Bytes) (m : Degrees)
    → holds v (count_edge (u, w) m) ≡ bytes_eq w v || (bytes_eq u v || holds v m)
unfolding count_edge
holds-count_edge u w v m =
    let opened = insert Bytes-discrete u (degree u m) m in
    holds-insert w v (degree w opened + 1) opened
    ∙ ap (λ b. bytes_eq w v || b) (holds-insert u v (degree u m) m)

pub count_edges_keeps :
    (edges : List Edge) (v : Bytes) (m : Degrees)
    → holds v m ≡ true
    → holds v (count_edges edges m) ≡ true
unfolding count_edges
count_edges_keeps [] v m h = h
count_edges_keeps ((u, w) ∷ edges) v m h =
    count_edges_keeps edges v (count_edge (u, w) m) (ground (arith, holds-count_edge u w v m))

-- every stage of an edge is a node
abbrev pub AreNodes : Degrees → List Edge → Type 0
AreNodes m edges = All (λ e. (holds e.0 m ≡ true) × (holds e.1 m ≡ true)) edges

pub count_edges-AreNodes : (edges : List Edge) (m : Degrees) → AreNodes (count_edges edges m) edges
unfolding count_edges
count_edges-AreNodes [] m = tt
count_edges-AreNodes ((u, w) ∷ edges) m =
    let next = count_edge (u, w) m in
    (
      (
        count_edges_keeps edges u next (ground (arith, holds-count_edge u w u m, bytes_eq_refl u)),
        count_edges_keeps edges w next (ground (arith, holds-count_edge u w w m, bytes_eq_refl w)),
      ),
      count_edges-AreNodes edges next,
    )

pub count_edges-IsUnique :
    (edges : List Edge) (m : Degrees)
    → IsUnique Bytes-discrete m
    → IsUnique Bytes-discrete (count_edges edges m)
unfolding count_edges count_edge
count_edges-IsUnique [] m u = u
count_edges-IsUnique ((a, b) ∷ edges) m u =
    let opened = insert Bytes-discrete a (degree a m) m in
    count_edges-IsUnique edges (count_edge (a, b) m) (
      insert-IsUnique Bytes-discrete b (degree b opened + 1) opened
        (insert-IsUnique Bytes-discrete a (degree a m) m u))

-- ===== src/Registry/Oldest.antt =====
-- The victim that a full registry gives up (`min_by` in src/rust/src/hardening.rs).
use ores_middleware.Prelude.Maps.{lookup, IsUnique}
use ores_middleware.Prelude.Members.{In, lookup_of_In}
use ores_middleware.Prelude.{
  ◌≤◌, ◌<◌, ◌≡◌, ◌≢◌, ◌⊎◌, inl, inr, refl, true, false, List, [], ◌∷◌, none, some, length, All,
  arith, Bool-cases,
}
use ores_middleware.Registry.{
  BreakerKey, BreakerKey-discrete, RegistryEntry, oldest_from, oldest, used_before,
}

abbrev Entry : Type 0
Entry = BreakerKey × RegistryEntry

abbrev IsLeast : Entry → List Entry → Type 0
IsLeast w m = All (λ e. w.1.last_used ≤ e.1.last_used) m

used_before_le : (a b : Entry) → used_before a b ≡ true → a.1.last_used ≤ b.1.last_used
used_before_le a b h = ground arith

not-used_before_le : (a b : Entry) → used_before a b ≡ false → b.1.last_used ≤ a.1.last_used
not-used_before_le a b h = ground arith

oldest_from_lem :
    (best : Entry) (m : List Entry)
    → (w : Entry) × (w.0 ≡ oldest_from best m)
      × ((w ≡ best) ⊎ In w m)
      × (w.1.last_used ≤ best.1.last_used)
      × IsLeast w m
unfolding oldest_from
oldest_from_lem best [] = (best, refl, inl refl, omega arith, tt)
oldest_from_lem best (e ∷ m) = elim (Bool-cases (used_before e best)) [
  | inl sooner ↦
      let (w, same, at, least, all_least) = oldest_from_lem e m in
      (
        w,
        rw sooner same,
        inr at,
        omega (arith, least, used_before_le e best sooner),
        (least, all_least),
      )
  | inr later ↦
      let (w, same, at, least, all_least) = oldest_from_lem best m in
      (
        w,
        rw later same,
        elim at [ inl p ↦ inl p | inr q ↦ inr (inr q) ],
        least,
        (omega (arith, least, not-used_before_le e best later), all_least),
      )
]

-- The victim of a registry without repeated keys has an entry, and none was used before it.
pub oldest_lem :
    (k : BreakerKey) (m : List Entry)
    → IsUnique BreakerKey-discrete m
    → oldest m ≡ some k
    → (e : RegistryEntry) × (lookup BreakerKey-discrete k m ≡ some e)
      × All (λ f. e.last_used ≤ f.1.last_used) m
unfolding oldest
oldest_lem k [] u h = cc
oldest_lem k (x ∷ m) u h =
    let (w, same, at, least, all_least) = oldest_from_lem x m in
    let name : w.0 ≡ k = cc in
    (w.1, rw (← name) (lookup_of_In BreakerKey-discrete w (x ∷ m) u at), (least, all_least))

pub oldest-ne-none : (m : List Entry) → 0 < length m → oldest m ≢ none
unfolding oldest
oldest-ne-none [] h = absurd (omega arith)
oldest-ne-none (x ∷ m) h = cc

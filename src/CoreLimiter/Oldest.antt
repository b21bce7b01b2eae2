-- ===== src/CoreLimiter/Oldest.antt =====
-- The entry that a full store of integrations/ores-rate-limit-core-rust/src/core_rate_limiter.rs gives up.
use ores_middleware.Prelude.Maps.{lookup, IsUnique}
use ores_middleware.Prelude.Members.{In, lookup_of_In}
use ores_middleware.Prelude.{
  ◌<◌, ◌≡◌, ◌≢◌, ◌⊎◌, inl, inr, refl, true, false, List, [], ◌∷◌, none, some, length, All, arith,
  Bool-cases, ltb, ◌==◌, ◌||◌, ◌&&◌,
}
use ores_middleware.CoreLimiter.{
  CoreApi, StateKey, StateEntry, StateKey-discrete, seen_before, oldest_from, oldest,
}

module _ (api : CoreApi) where
  abbrev Entry : Type 0
  Entry = StateKey api × StateEntry api

  -- `a` was not seen before `b`, by the pairs that `min_by_key` compares.
  abbrev pub NotBefore : StateEntry api → StateEntry api → Type 0
  NotBefore a b =
      (ltb a.last_seen_ms b.last_seen_ms
        || a.last_seen_ms == b.last_seen_ms && ltb a.generation b.generation)
      ≡ false

  NotBefore-self : (a : StateEntry api) → NotBefore a a
  NotBefore-self a = ground arith

  NotBefore-trans : (a b c : StateEntry api) → NotBefore b a → NotBefore c b → NotBefore c a
  NotBefore-trans a b c h k = ground arith

  NotBefore-of : (a b : Entry) → seen_before api a b ≡ true → NotBefore b.1 a.1
  NotBefore-of a b h = ground arith

  -- No entry of the list was seen before `w`.
  abbrev pub IsOldest : StateEntry api → List Entry → Type 0
  IsOldest w m = All (λ e. NotBefore e.1 w) m

  oldest_from_lem :
      (best : Entry) (m : List Entry)
      → (w : Entry) × (w.0 ≡ oldest_from api best m)
        × ((w ≡ best) ⊎ In w m)
        × NotBefore best.1 w.1
        × IsOldest w.1 m
  unfolding oldest_from
  oldest_from_lem best [] = (best, refl, inl refl, NotBefore-self best.1, tt)
  oldest_from_lem best (e ∷ m) = elim (Bool-cases (seen_before api e best)) [
    | inl sooner ↦
        let (w, same, at, least, all_least) = oldest_from_lem e m in
        (
          w,
          rw sooner same,
          inr at,
          NotBefore-trans w.1 e.1 best.1 least (NotBefore-of e best sooner),
          (least, all_least),
        )
    | inr later ↦
        let (w, same, at, least, all_least) = oldest_from_lem best m in
        (
          w,
          rw later same,
          elim at [ inl p ↦ inl p | inr q ↦ inr (inr q) ],
          least,
          (NotBefore-trans w.1 best.1 e.1 least later, all_least),
        )
  ]

  -- The victim of a store without repeated keys has an entry, and none was seen before it.
  pub oldest_lem :
      (k : StateKey api) (m : List Entry)
      → IsUnique (StateKey-discrete api) m
      → oldest api m ≡ some k
      → (e : StateEntry api) × (lookup (StateKey-discrete api) k m ≡ some e) × IsOldest e m
  unfolding oldest
  oldest_lem k [] u h = cc
  oldest_lem k (x ∷ m) u h =
      let (w, same, at, least, all_least) = oldest_from_lem x m in
      let name : w.0 ≡ k = cc in
      (w.1, rw (← name) (lookup_of_In (StateKey-discrete api) w (x ∷ m) u at), (least, all_least))

  pub oldest-ne-none : (m : List Entry) → 0 < length m → oldest api m ≢ none
  unfolding oldest
  oldest-ne-none [] h = absurd (omega arith)
  oldest-ne-none (x ∷ m) h = cc

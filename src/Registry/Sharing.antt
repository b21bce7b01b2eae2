-- ===== src/Registry/Sharing.antt =====
-- Which callers of `CircuitBreakerRegistry` share a breaker (src/rust/src/hardening.rs).
use ores_middleware.Prelude.Maps.{some_inj}
use ores_middleware.Prelude.{
  ℕ, ◌<◌, ◌≡◌, ◌⊎◌, inl, inr, refl, sym, ap, ◌∙◌, none, some, [], ◌∷◌, length, arith, Option-cases,
  ◌++◌, length-append,
}
use ores_middleware.Resilience.{CircuitBreaker, Result, ok}
use ores_middleware.Resilience
use ores_middleware.Registry.{
  BreakerKey, BreakerKey-discrete, RegistryEntry, CircuitBreakerRegistry, expire, make_room,
  get_or_insert,
}
use ores_middleware.Registry.Laws.{find, IsBounded, expire-IsBounded, find-expire, make_room_cases}
use ores_middleware.Registry.Safety.{
  after_hit, after_miss, get_or_insert_self, get_or_insert_others,
}

-- Every entry's breaker was allocated, and no two keys have the same one.
pub record IsSeparate (r : CircuitBreakerRegistry) : Type 0 where
  pub allocated :
      (j : BreakerKey) (e : RegistryEntry) → find j r ≡ some e → e.breaker < length r.heap
  pub separate :
      (j i : BreakerKey) (e f : RegistryEntry)
      → find j r ≡ some e
      → find i r ≡ some f
      → e.breaker ≡ f.breaker
      → j ≡ i

heap-expire : (now : ℕ) (r : CircuitBreakerRegistry) → (expire now r).heap ≡ r.heap
unfolding expire
heap-expire now r = refl

heap-make_room : (r : CircuitBreakerRegistry) → IsBounded r → (make_room r).heap ≡ r.heap
heap-make_room r v = elim (make_room_cases r v) [
  | inl (room, same) ↦ rw same
  | inr (victim, e, found, crowded, least, same) ↦ rw same
]

find-expire_back :
    (now : ℕ) (j : BreakerKey) (r : CircuitBreakerRegistry) {e : RegistryEntry}
    → IsBounded r
    → find j (expire now r) ≡ some e
    → find j r ≡ some e
find-expire_back now j r v h = ground (arith, find-expire now j r v)

module _ (now : ℕ) (k : BreakerKey) (r : CircuitBreakerRegistry) {b : CircuitBreaker}
    (v : IsBounded r) (built : Resilience.new r.config.breaker ≡ ok b) where
  -- A live key keeps its breaker, and no breaker is allocated; otherwise the key gets a new closed
  -- breaker at the end of the heap. The other breakers stay as they are.
  pub get_or_insert_breaker :
      ((e : RegistryEntry) × (find k (expire now r) ≡ some e)
        × ((get_or_insert now k r).1 ≡ ok e.breaker)
        × ((get_or_insert now k r).0.heap ≡ r.heap))
      ⊎ ((find k (expire now r) ≡ none)
          × ((get_or_insert now k r).1 ≡ ok (length r.heap))
          × ((get_or_insert now k r).0.heap ≡ r.heap ++ b ∷ []))
  get_or_insert_breaker = elim (Option-cases (find k (expire now r))) [
    | inr (e, hit) ↦
        let (_, same, heap, _, _) = after_hit now k r v built e hit in
        inl (e, hit, same, heap ∙ heap-expire now r)
    | inl miss ↦
        let (_, same, heap, _, _) = after_miss now k r v built miss in
        let kept : (make_room (expire now r)).heap ≡ r.heap =
          heap-make_room (expire now r) (expire-IsBounded now r v) ∙ heap-expire now r in
        inr (miss, rw kept at same, rw kept at heap)
  ]

  heap_grows : (i : ℕ) → i < length r.heap → i < length (get_or_insert now k r).0.heap
  heap_grows i h = elim get_or_insert_breaker [
    | inl (e, hit, same, heap) ↦ rw heap h
    | inr (miss, same, heap) ↦ rw heap (omega (arith, length-append r.heap (b ∷ [])))
  ]

  -- the breaker of `k` is allocated, and was no other key's
  own_breaker :
      IsSeparate r
      → (e : RegistryEntry) → find k (get_or_insert now k r).0 ≡ some e
      → (e.breaker < length (get_or_insert now k r).0.heap)
        × ((i : BreakerKey) (f : RegistryEntry) → find i r ≡ some f → e.breaker ≡ f.breaker → k ≡ i)
  own_breaker s e here =
      let (n, res, found) = get_or_insert_self now k r v built in
      let own : e.breaker ≡ n =
        ap (λ (x : RegistryEntry). x.breaker) (some_inj (sym here ∙ found)) in
      elim get_or_insert_breaker [
        | inl (x, hit, same, heap) ↦
            let at : n ≡ x.breaker = cc in
            let old = find-expire_back now k r v hit in
            (
              rw (own, at, heap) (s.allocated k x old),
              λ i f g eq. s.separate k i x f old g (sym at ∙ sym own ∙ eq),
            )
        | inr (miss, same, heap) ↦
            let at : n ≡ length r.heap = cc in
            (
              rw (own, at, heap) (omega (arith, length-append r.heap (b ∷ []))),
              λ i f g eq. absurd (omega (arith, s.allocated i f g)),
            )
      ]

  -- Two keys never share a breaker: a caller's failures count for its own key alone.
  pub get_or_insert-IsSeparate : IsSeparate r → IsSeparate (get_or_insert now k r).0
  get_or_insert-IsSeparate s = record {
    allocated = λ j e h. elim (BreakerKey-discrete k j) [
      | yes it ↦ (own_breaker s e (ap (λ x. find x (get_or_insert now k r).0) it ∙ h)).0
      | no other ↦
          let (old, _) = get_or_insert_others now k r v built j other h in
          heap_grows e.breaker (s.allocated j e old)
    ];
    separate = λ j i e f h g same. elim (BreakerKey-discrete k j) [
      | yes it ↦ elim (BreakerKey-discrete k i) [
        | yes it' ↦ sym it ∙ it'
        | no other ↦
            let (old, _) = get_or_insert_others now k r v built i other g in
            sym it
            ∙ (own_breaker s e (ap (λ x. find x (get_or_insert now k r).0) it ∙ h)).1 i f old same
      ]
      | no other ↦
          let (old, _) = get_or_insert_others now k r v built j other h in
          elim (BreakerKey-discrete k i) [
            | yes it ↦
                sym (
                  (own_breaker s f (ap (λ x. find x (get_or_insert now k r).0) it ∙ g)).1 j e old
                    (sym same))
                ∙ it
            | no other' ↦
                let (old', _) = get_or_insert_others now k r v built i other' g in
                s.separate j i e f old old' same
          ]
    ];
  }

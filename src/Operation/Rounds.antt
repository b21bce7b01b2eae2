-- ===== src/Operation/Rounds.antt =====
-- In which order the boundary of src/rust/src/operation.rs looks at its three futures.
use ores_middleware.Prelude.{
  ℕ, ◌+◌, ◌<◌, ◌≡◌, ◌⊎◌, inl, inr, refl, ap, ◌∙◌, true, false, List, [], ◌∷◌, ◌++◌, Option, none,
  some, Bool-cases, Option-cases, leb, arith, if◌then◌else◌, ◌==◌,
}
use ores_middleware.Prelude.Bytes.{Bytes, codes}
use ores_middleware.Stage.{RequestContext}
use ores_middleware.Operation.{
  OperationDescriptor, OperationFailure, cancelled, deadline_exceeded, failed, HandlerEnd,
  BoundaryEvent, outcome, cancellation, expiry, Round, is_expired, select, checked_add,
  run_controlled, boundary_outcome, operation_failure, normalize_descriptor,
}

module _ {T W : Type 0} (poll : W → Option (HandlerEnd T) × W) (timeout deadline : Option ℕ) where
  -- Rounds in which nothing is ready: not the cancellation, not the deadline, and then the handler,
  -- which each of them polls once.
  pub data Waits : List Round → W → W → Type 0 where
    start : (w : W) → Waits [] w w
    wait :
        {round : Round} {rounds : List Round} {w next last : W}
        → round.is_cancelled ≡ false
        → is_expired timeout deadline round.now ≡ false
        → poll w ≡ (none, next)
        → Waits rounds next last
        → Waits (round ∷ rounds) w last

  -- What a round makes of the state before it, if it is the last: the cancellation goes before the
  -- deadline, and both before the handler, which is then not polled.
  pub data Ends (round : Round) (w : W) : BoundaryEvent T → W → Type 0 where
    by_cancellation : round.is_cancelled ≡ true → Ends round w cancellation w
    by_deadline :
        round.is_cancelled ≡ false
        → is_expired timeout deadline round.now ≡ true
        → Ends round w expiry w
    by_handler :
        {end : HandlerEnd T} {next : W}
        → round.is_cancelled ≡ false
        → is_expired timeout deadline round.now ≡ false
        → poll w ≡ (some end, next)
        → Ends round w (outcome end) next

  module _ (round : Round) (rounds : List Round) (w : W) where
    select_cancelled :
        round.is_cancelled ≡ true
        → select poll timeout deadline (round ∷ rounds) w ≡ (some cancellation, w)
    unfolding select
    select_cancelled c = rw (select, c) refl

    select_expired :
        round.is_cancelled ≡ false
        → is_expired timeout deadline round.now ≡ true
        → select poll timeout deadline (round ∷ rounds) w ≡ (some expiry, w)
    unfolding select
    select_expired c e = rw (select, c, e) refl

    select_ended :
        {end : HandlerEnd T}
        → round.is_cancelled ≡ false
        → is_expired timeout deadline round.now ≡ false
        → (poll w).0 ≡ some end
        → select poll timeout deadline (round ∷ rounds) w ≡ (some (outcome end), (poll w).1)
    unfolding select
    select_ended c e p = rw (select, c, e, p) refl

    select_pending :
        round.is_cancelled ≡ false
        → is_expired timeout deadline round.now ≡ false
        → (poll w).0 ≡ none
        → select poll timeout deadline (round ∷ rounds) w
          ≡ select poll timeout deadline rounds (poll w).1
    unfolding select
    select_pending c e p = rw (select, c, e, p) refl

  -- The select either still waits after all its rounds, or one round is the first that ends it, and the
  -- rounds after that one do nothing.
  pub select_cases :
      (rounds : List Round) (w : W)
      → ((last : W) × (select poll timeout deadline rounds w ≡ (none, last)) × Waits rounds w last)
        ⊎ ((before : List Round) × (round : Round) × (after : List Round) × (middle : W)
            × (event : BoundaryEvent T) × (last : W) × (rounds ≡ before ++ round ∷ after)
            × Waits before w middle
            × Ends round middle event last
            × (select poll timeout deadline rounds w ≡ (some event, last)))
  unfolding select
  select_cases [] w = inl (w, refl, start w)
  select_cases (round ∷ rounds) w = elim (Bool-cases round.is_cancelled) [
    | inl c ↦ inr (
      [],
      round,
      rounds,
      w,
      cancellation,
      w,
      refl,
      start w,
      by_cancellation c,
      select_cancelled round rounds w c,
    )
    | inr c ↦ elim (Bool-cases (is_expired timeout deadline round.now)) [
      | inl e ↦ inr (
        [],
        round,
        rounds,
        w,
        expiry,
        w,
        refl,
        start w,
        by_deadline c e,
        select_expired round rounds w c e,
      )
      | inr e ↦ elim (Option-cases (poll w).0) [
        | inr (end, p) ↦ inr (
          [],
          round,
          rounds,
          w,
          outcome end,
          (poll w).1,
          refl,
          start w,
          by_handler c e (ap (λ o. (o, (poll w).1)) p),
          select_ended round rounds w c e p,
        )
        | inl p ↦
            let pending : poll w ≡ (none, (poll w).1) = ap (λ o. (o, (poll w).1)) p in
            elim (select_cases rounds (poll w).1) [
              | inl (last, still, waits) ↦
                  inl (last, select_pending round rounds w c e p ∙ still, wait c e pending waits)
              | inr (before, ending, after, middle, event, last, cut, waits, ends, found) ↦ inr (
                round ∷ before,
                ending,
                after,
                middle,
                event,
                last,
                ap (λ l. round ∷ l) cut,
                wait c e pending waits,
                ends,
                select_pending round rounds w c e p ∙ found,
              )
            ]
      ]
    ]
  ]

no_budget-expired :
    (instant_max now budget : ℕ)
    → (budget ≡ 0) ⊎ (instant_max < now + budget)
    → is_expired (some budget) (checked_add instant_max now budget) now ≡ true
unfolding is_expired
no_budget-expired instant_max now budget (inl e) = rw e refl
no_budget-expired instant_max now budget (inr big) =
    let over : leb (now + budget) instant_max ≡ false = ground (arith, big) in
    elim (Bool-cases (budget == 0)) [
      | inl zero_budget ↦ rw zero_budget refl
      | inr positive ↦ rw (positive, over) refl
    ]

-- A zero budget, or one that no instant can represent, rejects the operation in the first round, without
-- polling the handler: as cancelled if the cancellation is ready too, and else by the deadline.
pub run_controlled_no_budget :
    {T W : Type 0} (instant_max : ℕ) (context : RequestContext) (descriptor : OperationDescriptor)
    (error_type : Bytes) (budget : ℕ) (poll : W → Option (HandlerEnd T) × W) (first : Round)
    (rounds : List Round) (w : W)
    → (budget ≡ 0) ⊎ (instant_max < first.now + budget)
    → (f : OperationFailure) × (run_controlled instant_max context descriptor error_type
          (some budget)
          poll
          first
          rounds
          w
        ≡ (some (failed f), w))
      × (f.kind ≡ (if first.is_cancelled then cancelled else deadline_exceeded))
unfolding run_controlled boundary_outcome operation_failure
run_controlled_no_budget instant_max context descriptor error_type budget poll first rounds w h =
    elim (Bool-cases first.is_cancelled) [
      | inl c ↦ (
        operation_failure (normalize_descriptor descriptor) context.request_id context.trace_id
            cancelled (codes "Cancelled"),
        rw
            (
              run_controlled,
              select_cancelled poll (some budget) (checked_add instant_max first.now budget) first
                  rounds w c,
            )
            refl,
        rw c refl,
      )
      | inr c ↦ (
        operation_failure (normalize_descriptor descriptor) context.request_id context.trace_id
            deadline_exceeded (codes "DeadlineExceeded"),
        rw
            (
              run_controlled,
              select_expired poll (some budget) (checked_add instant_max first.now budget) first
                  rounds w c (no_budget-expired instant_max first.now budget h),
            )
            refl,
        rw c refl,
      )
    ]

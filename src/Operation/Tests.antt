-- ===== src/Operation/Tests.antt =====
-- A small handler for the theorems on controlled operations: its third poll fails, and its state counts
-- the polls.
use ores_middleware.Prelude.Bytes.{codes}
use ores_middleware.Prelude.{
  ℕ, ◌+◌, ◌≡◌, ◌⊎◌, inl, refl, ap, false, List, [], ◌∷◌, ◌++◌, Option, none, some, ltb,
  if◌then◌else◌,
}
use ores_middleware.Stage.{RequestContext}
use ores_middleware.Operation.{
  OperationDescriptor, OperationFailure, http, request, error, deadline_exceeded, failed,
  HandlerEnd, errored, BoundaryEvent, Round, select, run_controlled, operation_failure,
}
use ores_middleware.Operation.Bounds.{IsBounded, run_controlled-IsBounded}
use ores_middleware.Operation.Rounds.{Waits, Ends, select_cases, run_controlled_no_budget}

abbrev third_fails : ℕ → Option (HandlerEnd ℕ) × ℕ
third_fails polls = (if ltb polls 2 then none else some errored, polls + 1)

abbrev at : ℕ → Round
at now = record { is_cancelled = false; now = now }

abbrev later : List Round
later = at 2 ∷ at 3 ∷ at 4 ∷ []

abbrev context : RequestContext
context = record {
  request_id = codes "r";
  trace_id = codes "t";
  span_id = none;
  tenant_id = none;
  user_id = none;
  locale = none;
  started_at_unix_ms = 0;
  deadline_unix_ms = none;
  baggage = [];
}

abbrev orders : OperationDescriptor
orders = record { transport = http; scope = request; name = codes "orders read" }

abbrev failure : OperationFailure
unfolding operation_failure
failure =
    operation_failure (record orders { name = codes "operation" }) (codes "r") (codes "t") error
      (codes "OrderError")

third_run :
    run_controlled 100 context orders (codes "app::OrderError") (some 10) third_fails (at 1) later 0
    ≡ (some (failed failure), 3)
unfolding run_controlled failure
third_run = refl

run_controlled-IsBounded_example : IsBounded context orders failure
run_controlled-IsBounded_example =
    run_controlled-IsBounded 100 context orders (codes "app::OrderError") (some 10) third_fails
      (at 1) later 0 failure (ap (λ r. r.0) third_run)

select_cases_example :
    ((last : ℕ) × (select third_fails none none later 0 ≡ (none, last))
      × Waits third_fails none none later 0 last)
    ⊎ ((before : List Round) × (round : Round) × (after : List Round) × (middle : ℕ)
        × (event : BoundaryEvent ℕ) × (last : ℕ) × (later ≡ before ++ round ∷ after)
        × Waits third_fails none none before 0 middle
        × Ends third_fails none none round middle event last
        × (select third_fails none none later 0 ≡ (some event, last)))
select_cases_example = select_cases third_fails none none later 0

run_controlled_no_budget_example :
    (f : OperationFailure) × (run_controlled 100 context orders
        (codes "E")
        (some 0)
        third_fails
        (at 1)
        later
        0
      ≡ (some (failed f), 0))
    × (f.kind ≡ deadline_exceeded)
run_controlled_no_budget_example =
    run_controlled_no_budget 100 context orders (codes "E") 0 third_fails (at 1) later 0 (inl refl)

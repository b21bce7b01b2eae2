-- ===== src/Operation.antt =====
-- Controlled operations of src/rust/src/operation.rs. A handler is its poll, a function of the state `W`
-- of everything it may change; a round is one poll of the select, with what the world holds then.
-- Spans, log contexts and task locals are left out.
mod Bounds
mod Rounds
mod Tests
use ores_middleware.Prelude.Bytes.{Bytes, codes, is_empty, is_ascii_alphanumeric}
use ores_middleware.Prelude.{
  ℕ, ◌+◌, Bool, true, false, not, ◌&&◌, ◌||◌, List, [], ◌∷◌, Option, none, some, String, ◌==◌, leb,
  length, all, if◌then◌else◌,
}
use ores_middleware.Stage.{RequestContext}

pub data OperationTransport : Type 0 where
  http lambda tcp websocket : OperationTransport

pub data OperationScope : Type 0 where
  request connection message callback : OperationScope

pub data OperationFailureKind : Type 0 where
  error panic cancelled deadline_exceeded : OperationFailureKind

pub record OperationDescriptor : Type 0 where
  pub transport : OperationTransport
  pub scope : OperationScope
  pub name : Bytes

pub record OperationFailure : Type 0 where
  pub kind : OperationFailureKind
  pub code : String
  pub transport : OperationTransport
  pub scope : OperationScope
  pub operation : Bytes
  pub request_id : Bytes
  pub trace_id : Bytes
  pub error_type : Bytes

pub data OperationOutcome (T : Type 0) : Type 0 where
  completed : T → OperationOutcome T
  failed : OperationFailure → OperationOutcome T

abbrev pub token_byte : ℕ → Bool
token_byte byte =
    is_ascii_alphanumeric byte || (byte == b'_' || byte == b'-' || byte == b'.' || byte == b':')

unfoldable pub safe_token : Bytes → ℕ → Bool
safe_token value max_len =
    not (is_empty value) && leb (length value) max_len && all token_byte value

unfoldable pub normalize_descriptor : OperationDescriptor → OperationDescriptor
unfolding safe_token
normalize_descriptor descriptor =
    if not (safe_token descriptor.name 128)
    then record descriptor { name = codes "operation" }
    else descriptor

-- `rsplit("::").next()`: what follows the last two colons
unfoldable pub after_colons : Bytes → Bytes → Bytes
after_colons piece [] = piece
after_colons piece (c ∷ []) = piece
after_colons piece (c ∷ d ∷ s) =
    let found = after_colons s (d ∷ s) in
    let later = after_colons piece (d ∷ s) in if c == b':' && d == b':' then found else later

unfoldable pub bounded_error_type : Bytes → Bytes
unfolding after_colons safe_token
bounded_error_type name =
    let short : Bytes = after_colons name name in
    if safe_token short 64 then short else codes "error"

abbrev pub failure_code : OperationFailureKind → String
failure_code error = "operation_failed"
failure_code panic = "operation_panicked"
failure_code cancelled = "operation_cancelled"
failure_code deadline_exceeded = "operation_deadline_exceeded"

unfoldable pub operation_failure :
    OperationDescriptor
    → (request_id trace_id : Bytes) → OperationFailureKind
    → (error_type : Bytes) → OperationFailure
operation_failure descriptor request_id trace_id kind error_type = record {
  kind = kind;
  code = failure_code kind;
  transport = descriptor.transport;
  scope = descriptor.scope;
  operation = descriptor.name;
  request_id = request_id;
  trace_id = trace_id;
  error_type = error_type;
}

-- what a handler's future comes to, under `catch_unwind`
pub data HandlerEnd (T : Type 0) : Type 0 where
  returned : T → HandlerEnd T
  errored : HandlerEnd T
  unwound : HandlerEnd T

-- Whether the cancellation is ready at a poll, and the time then.
pub record Round : Type 0 where
  pub is_cancelled : Bool
  pub now : ℕ

-- `BoundaryEvent`, with what the handler came to in place of the outcome that `run_scoped` makes of it
pub data BoundaryEvent (T : Type 0) : Type 0 where
  outcome : HandlerEnd T → BoundaryEvent T
  cancellation : BoundaryEvent T
  expiry : BoundaryEvent T

-- `Instant::checked_add`, for the last instant that the clock can represent
abbrev pub checked_add : (instant_max now budget : ℕ) → Option ℕ
checked_add instant_max now budget =
    if leb (now + budget) instant_max then some (now + budget) else none

-- The future `expiry`: whether it is ready at a time.
unfoldable pub is_expired : (timeout deadline : Option ℕ) → ℕ → Bool
is_expired none deadline now = false
is_expired (some budget) deadline now =
    if budget == 0 then true else elim deadline [ none ↦ true | some at ↦ leb at now ]

module _ {T W : Type 0} (poll : W → Option (HandlerEnd T) × W) where
  -- The rounds of the biased select, until something is ready; `none` if it still waits.
  unfoldable pub select :
      (timeout deadline : Option ℕ) → List Round → W → Option (BoundaryEvent T) × W
  unfolding is_expired
  select timeout deadline [] w = (none, w)
  select timeout deadline (round ∷ rounds) w =
      if round.is_cancelled
      then (some cancellation, w)
      else if is_expired timeout deadline round.now
      then (some expiry, w)
      else (let (polled, w') = poll w in
          elim polled [
            | some end ↦ (some (outcome end), w')
            | none ↦ select timeout deadline rounds w'
          ])

-- `run_scoped`, of what the handler's future came to
unfoldable pub run_scoped :
    {T : Type 0}
    → RequestContext
    → OperationDescriptor
    → (error_type : Bytes) → HandlerEnd T
    → OperationOutcome T
unfolding operation_failure bounded_error_type
run_scoped context descriptor error_type (returned value) = completed value
run_scoped context descriptor error_type errored = failed (
    operation_failure descriptor context.request_id context.trace_id error
      (bounded_error_type error_type))
run_scoped context descriptor error_type unwound =
    failed (operation_failure descriptor context.request_id context.trace_id panic (codes "panic"))

unfoldable pub boundary_outcome :
    {T : Type 0}
    → RequestContext
    → OperationDescriptor
    → (error_type : Bytes) → BoundaryEvent T
    → OperationOutcome T
unfolding run_scoped operation_failure
boundary_outcome context descriptor error_type (outcome end) =
    run_scoped context descriptor error_type end
boundary_outcome context descriptor error_type cancellation =
    failed (
      operation_failure descriptor context.request_id context.trace_id cancelled
        (codes "Cancelled"))
boundary_outcome context descriptor error_type expiry = failed (
    operation_failure descriptor context.request_id context.trace_id deadline_exceeded
      (codes "DeadlineExceeded"))

-- `run_controlled`; `error_type` is the name of the handler's error type. The budget starts at the time
-- of the first round.
unfoldable pub run_controlled :
    {T W : Type 0}
    → (instant_max : ℕ) → RequestContext
    → OperationDescriptor
    → (error_type : Bytes) → (timeout : Option ℕ) → (W → Option (HandlerEnd T) × W)
    → Round
    → List Round
    → W
    → Option (OperationOutcome T) × W
unfolding select boundary_outcome normalize_descriptor
run_controlled instant_max context descriptor error_type timeout poll first rounds w =
    let deadline : Option ℕ = elim timeout [
      | none ↦ none
      | some budget ↦ checked_add instant_max first.now budget
    ] in
    let (event, w') = select poll timeout deadline (first ∷ rounds) w in
    (
      elim event [
        | none ↦ none
        | some ready ↦
            some (boundary_outcome context (normalize_descriptor descriptor) error_type ready)
      ],
      w',
    )

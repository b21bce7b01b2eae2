-- ===== src/Operation/Bounds.antt =====
-- What the failures of src/rust/src/operation.rs disclose.
use ores_middleware.Prelude.Bytes.{Bytes}
use ores_middleware.Prelude.{
  ℕ, ◌≡◌, inl, inr, refl, true, List, ◌∷◌, Option, none, some, Bool-cases,
}
use ores_middleware.Prelude.Maps.{some_inj}
use ores_middleware.Stage.{RequestContext}
use ores_middleware.Operation.{
  OperationDescriptor, OperationFailure, OperationOutcome, completed, failed, HandlerEnd, returned,
  errored, unwound, BoundaryEvent, outcome, cancellation, expiry, Round, safe_token,
  normalize_descriptor, bounded_error_type, after_colons, operation_failure, boundary_outcome,
  select, checked_add, run_controlled, OperationFailureKind, failure_code,
}

normalize_descriptor-safe :
    (descriptor : OperationDescriptor)
    → safe_token (normalize_descriptor descriptor).name 128 ≡ true
unfolding normalize_descriptor
normalize_descriptor-safe descriptor = elim (Bool-cases (safe_token descriptor.name 128)) [
  | inl safe ↦ rw (normalize_descriptor, safe) safe
  | inr unsafe ↦ rw (normalize_descriptor, unsafe) refl
]

bounded_error_type-safe : (name : Bytes) → safe_token (bounded_error_type name) 64 ≡ true
unfolding bounded_error_type
bounded_error_type-safe name = elim (Bool-cases (safe_token (after_colons name name) 64)) [
  | inl safe ↦ rw (bounded_error_type, safe) safe
  | inr unsafe ↦ rw (bounded_error_type, unsafe) refl
]

-- A failure of a request under a descriptor: it has the request's identifiers, and its texts are short
-- tokens, whatever names came in.
pub record IsBounded (context : RequestContext) (descriptor : OperationDescriptor)
    (f : OperationFailure) : Type 0 where
  pub request_id : f.request_id ≡ context.request_id
  pub trace_id : f.trace_id ≡ context.trace_id
  pub transport : f.transport ≡ descriptor.transport
  pub scope : f.scope ≡ descriptor.scope
  pub code : f.code ≡ failure_code f.kind
  pub operation : safe_token f.operation 128 ≡ true
  pub error_type : safe_token f.error_type 64 ≡ true

normalize_descriptor-same :
    (descriptor : OperationDescriptor)
    → ((normalize_descriptor descriptor).transport ≡ descriptor.transport)
      × ((normalize_descriptor descriptor).scope ≡ descriptor.scope)
unfolding normalize_descriptor
normalize_descriptor-same descriptor = elim (Bool-cases (safe_token descriptor.name 128)) [
  | inl safe ↦ rw (normalize_descriptor, safe) (refl, refl)
  | inr unsafe ↦ rw (normalize_descriptor, unsafe) (refl, refl)
]

operation_failure-IsBounded :
    (context : RequestContext) (descriptor : OperationDescriptor) (kind : OperationFailureKind)
    (error_type : Bytes)
    → safe_token error_type 64 ≡ true
    → IsBounded context descriptor (
        operation_failure
          (normalize_descriptor descriptor)
          context.request_id
          context.trace_id
          kind
          error_type)
unfolding operation_failure
operation_failure-IsBounded context descriptor kind error_type safe = record {
  request_id = refl;
  trace_id = refl;
  transport = (normalize_descriptor-same descriptor).0;
  scope = (normalize_descriptor-same descriptor).1;
  code = refl;
  operation = normalize_descriptor-safe descriptor;
  error_type = safe;
}

-- an outcome whose failure, if it is one, is bounded
abbrev FailsBounded :
    {T : Type 0} → RequestContext → OperationDescriptor → OperationOutcome T → Type 0
FailsBounded context descriptor (completed _) = Unit
FailsBounded context descriptor (failed f) = IsBounded context descriptor f

boundary_outcome-FailsBounded :
    {T : Type 0} (context : RequestContext) (descriptor : OperationDescriptor) (error_type : Bytes)
    (event : BoundaryEvent T)
    → FailsBounded context descriptor
        (boundary_outcome context (normalize_descriptor descriptor) error_type event)
unfolding boundary_outcome safe_token
boundary_outcome-FailsBounded context descriptor error_type (outcome (returned value)) = tt
boundary_outcome-FailsBounded context descriptor error_type (outcome errored) =
    operation_failure-IsBounded context descriptor _ _ (bounded_error_type-safe error_type)
boundary_outcome-FailsBounded context descriptor error_type (outcome unwound) =
    operation_failure-IsBounded context descriptor _ _ refl
boundary_outcome-FailsBounded context descriptor error_type cancellation =
    operation_failure-IsBounded context descriptor _ _ refl
boundary_outcome-FailsBounded context descriptor error_type expiry =
    operation_failure-IsBounded context descriptor _ _ refl

reported-IsBounded :
    {T : Type 0} (context : RequestContext) (descriptor : OperationDescriptor) (error_type : Bytes)
    (event : Option (BoundaryEvent T)) (f : OperationFailure)
    → (elim event as (λ _. Option (OperationOutcome T)) [
      | none ↦ none
      | some ready ↦
          some (boundary_outcome context (normalize_descriptor descriptor) error_type ready)
    ])
      ≡ some (failed f)
    → IsBounded context descriptor f
reported-IsBounded context descriptor error_type none f e = absurd (cc e)
reported-IsBounded context descriptor error_type (some ready) f e =
    let bounded = boundary_outcome-FailsBounded context descriptor error_type ready in
    rw (some_inj e) at bounded

-- Every failure that a controlled operation reports carries the identifiers of its own request, the
-- transport and scope of its descriptor and the code of its kind, and names the operation and the error
-- by tokens of at most 128 and 64 safe bytes.
pub run_controlled-IsBounded :
    {T W : Type 0} (instant_max : ℕ) (context : RequestContext) (descriptor : OperationDescriptor)
    (error_type : Bytes) (timeout : Option ℕ) (poll : W → Option (HandlerEnd T) × W) (first : Round)
    (rounds : List Round) (w : W) (f : OperationFailure)
    → (run_controlled instant_max context descriptor error_type timeout poll first rounds w).0
      ≡ some (failed f)
    → IsBounded context descriptor f
unfolding run_controlled
run_controlled-IsBounded instant_max context descriptor error_type timeout poll first rounds w f e =
    reported-IsBounded context descriptor error_type
      (select poll timeout
        (elim timeout [ none ↦ none | some budget ↦ checked_add instant_max first.now budget ])
        (first ∷ rounds) w).0
      f e

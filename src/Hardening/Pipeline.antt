-- ===== src/Hardening/Pipeline.antt =====
-- `HardenedStagePipeline` of src/rust/src/hardening.rs. A hook is run by `tokio::spawn` and joined
-- under the deadline; what `join_with_deadline` makes of it is the hook's `Joined` result, which
-- may depend on the deadline and on the state `W` of everything beside the pipeline.
use ores_middleware.Prelude.Bytes.{Bytes, codes}
use ores_middleware.Prelude.{
  ℕ, ◌+◌, ◌-◌, Bool, true, false, not, ◌&&◌, List, [], ◌∷◌, ◌++◌, reverse, Option, none, some, leb,
  length, if◌then◌else◌,
}
use ores_middleware.Stage.{StageInput, StageResponse, StageDecision, continue, respond, reject}
use ores_middleware.Hardening.Attributes.{validate_stage_attributes, is_ok}
use ores_middleware.Hardening.Problem.{sanitized_problem_response}

pub data FinalizerFailureMode : Type 0 where
  fail_open fail_closed : FinalizerFailureMode

pub data LifecycleFailureKind : Type 0 where
  panic cancelled deadline_exceeded : LifecycleFailureKind

pub data FinalizerOutcome : Type 0 where
  succeeded : FinalizerOutcome
  failed : LifecycleFailureKind → FinalizerOutcome

pub record FinalizerEvent : Type 0 where
  pub stage : Bytes
  pub outcome : FinalizerOutcome

pub data Joined (A : Type 0) : Type 0 where
  joined : A → Joined A
  broken : LifecycleFailureKind → Joined A

-- What tokio reports of a spawned task that is awaited up to a deadline.
pub data TaskEnd (A : Type 0) : Type 0 where
  returned : A → TaskEnd A
  panicked : TaskEnd A
  aborted : TaskEnd A
  pending_at_deadline : TaskEnd A

-- `join_with_deadline` and `classify_join_error`; a task is pending only under a deadline
unfoldable pub join_with_deadline : {A : Type 0} → TaskEnd A → Joined A
join_with_deadline (returned a) = joined a
join_with_deadline panicked = broken panic
join_with_deadline aborted = broken cancelled
join_with_deadline pending_at_deadline = broken deadline_exceeded

pub record HardenedStage (Value W : Type 0) : Type 0 where
  pub name : Bytes
  pub request : Option ℕ → StageInput Value → W → TaskEnd (StageDecision Value) × W
  pub response : Option ℕ → StageInput Value → StageResponse → W → TaskEnd StageResponse × W
  pub finalizer_failure_mode : FinalizerFailureMode

pub record HardenedExecution : Type 0 where
  pub response : StageResponse
  pub finalizers : List FinalizerEvent

abbrev pub max_hardened_stages : ℕ
max_hardened_stages = 64

unfoldable pub try_with_stage :
    {Value W : Type 0}
    → HardenedStage Value W
    → List (HardenedStage Value W)
    → Option (List (HardenedStage Value W))
try_with_stage stage stages =
    if leb max_hardened_stages (length stages) then none else some (stages ++ stage ∷ [])

-- The deadline of the request in wall milliseconds, as an instant; `-` stops at zero.
unfoldable pub monotonic_deadline : (now_wall_ms now : ℕ) → Option ℕ → Option ℕ
monotonic_deadline now_wall_ms now none = none
monotonic_deadline now_wall_ms now (some deadline_unix_ms) =
    some (now + (deadline_unix_ms - now_wall_ms))

abbrev pub failure_code : LifecycleFailureKind → Bytes
failure_code panic = codes "stage_panic"
failure_code cancelled = codes "stage_cancelled"
failure_code deadline_exceeded = codes "stage_deadline_exceeded"

abbrev pub is_fail_closed : FinalizerFailureMode → Bool
is_fail_closed fail_closed = true
is_fail_closed fail_open = false

abbrev pub event : Bytes → FinalizerOutcome → FinalizerEvent
event stage outcome = record { stage = stage; outcome = outcome }

-- the variables of the loop of `unwind_hardened`
pub record Unwinding : Type 0 where
  pub response : StageResponse
  pub finalizers : List FinalizerEvent
  pub terminal_failure : Bool

-- the response of the pipeline's own failures
abbrev pub internal_problem :
    {Value : Type 0}
    → (ℕ → Bytes → Option Bytes → Option Bytes)
    → Bytes
    → StageInput Value
    → StageResponse
internal_problem document code input =
    sanitized_problem_response document 500 code (some input.context.request_id) []

-- the event of the stage whose own request hook failed comes last
abbrev pub push_event :
    {W : Type 0} → FinalizerEvent → HardenedExecution × W → HardenedExecution × W
push_event e (x, w) = (record x { finalizers = x.finalizers ++ e ∷ [] }, w)

module _ {Value W : Type 0} (document : ℕ → Bytes → Option Bytes → Option Bytes) where
  -- one round of `unwind_hardened`, after the hook was joined
  unfoldable pub finalized :
      HardenedStage Value W → StageInput Value → Unwinding → Joined StageResponse → Unwinding
  finalized stage input u (joined next) = record u {
    response = if u.terminal_failure then u.response else next;
    finalizers = u.finalizers ++ event stage.name succeeded ∷ [];
  }
  finalized stage input u (broken kind) =
      let closing : Bool = is_fail_closed stage.finalizer_failure_mode && not u.terminal_failure in
      record {
        response =
            if closing
            then internal_problem document (codes "finalizer_failure") input
            else u.response;
        finalizers = u.finalizers ++ event stage.name (failed kind) ∷ [];
        terminal_failure = if closing then true else u.terminal_failure;
      }

  -- the loop, over the entered stages from the last to the first
  unfoldable pub unwind_from :
      Option ℕ → List (HardenedStage Value W × StageInput Value) → Unwinding → W → Unwinding × W
  unfolding finalized join_with_deadline
  unwind_from deadline [] u w = (u, w)
  unwind_from deadline ((stage, input) ∷ entered) u w =
      let (end, w') = stage.response deadline input u.response w in
      unwind_from deadline entered (finalized stage input u (join_with_deadline end)) w'

  unfoldable pub unwind_hardened :
      Option ℕ
      → List (HardenedStage Value W × StageInput Value)
      → StageResponse
      → W
      → HardenedExecution × W
  unfolding unwind_from
  unwind_hardened deadline entered response w =
      let (u, w') =
        unwind_from deadline (reverse entered)
          (record { response = response; finalizers = []; terminal_failure = false }) w in
      (record { response = u.response; finalizers = u.finalizers }, w')

module _ {Value W : Type 0} (to_vec : Value → Option Bytes)
    (document : ℕ → Bytes → Option Bytes → Option Bytes) where
  -- the loop of `execute`
  unfoldable pub execute_from :
      Option ℕ
      → List (HardenedStage Value W × StageInput Value)
      → (StageInput Value → W → StageResponse × W)
      → List (HardenedStage Value W)
      → StageInput Value
      → W
      → HardenedExecution × W
  unfolding unwind_hardened join_with_deadline
  execute_from deadline entered handler [] input w =
      let (response, w') = handler input w in unwind_hardened document deadline entered response w'
  execute_from deadline entered handler (stage ∷ stages) input w =
      let (end, w') = stage.request deadline input w in
      elim (join_with_deadline end) [
        | joined decision ↦ elim decision [
          | continue next ↦
              if is_ok (validate_stage_attributes to_vec next.attributes)
              then execute_from deadline (entered ++ (stage, next) ∷ []) handler stages next w'
              else unwind_hardened document deadline (entered ++ (stage, next) ∷ [])
                  (internal_problem document (codes "stage_attributes_invalid") next) w'
          | respond response ↦
              unwind_hardened document deadline (entered ++ (stage, input) ∷ []) response w'
          | reject rejection ↦
              unwind_hardened document deadline (entered ++ (stage, input) ∷ [])
                (sanitized_problem_response document rejection.status rejection.code
                  (some input.context.request_id) rejection.headers)
                w'
        ]
        | broken kind ↦ push_event (event stage.name (failed kind)) (
            unwind_hardened document deadline entered
              (internal_problem document (failure_code kind) input) w')
      ]

  unfoldable pub execute :
      (now_wall_ms now : ℕ)
      → List (HardenedStage Value W)
      → (StageInput Value → W → StageResponse × W)
      → StageInput Value
      → W
      → HardenedExecution × W
  unfolding execute_from monotonic_deadline
  execute now_wall_ms now stages handler input w =
      if is_ok (validate_stage_attributes to_vec input.attributes)
      then execute_from (monotonic_deadline now_wall_ms now input.context.deadline_unix_ms) []
          handler stages input w
      else (
        record {
          response = internal_problem document (codes "stage_attributes_invalid") input;
          finalizers = [];
        },
        w,
      )

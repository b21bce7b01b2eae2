-- ===== src/Stage.antt =====
-- The stage pipeline of src/rust/src/stage.rs, with the request data of integrations.rs and
-- context.rs. A stage is its two hooks; what they do beside returning (logs, stores, time) is the
-- state `W` that every call takes and returns. `Value` stands for `serde_json::Value`, and
-- `problem_body` for the encoding of the problem document by `serde_json::to_vec`.
pub mod Nested
mod Tests
use ores_middleware.Prelude.Bytes.{Bytes, Bytes-discrete, codes}
use ores_middleware.Prelude.Maps.{insert}
use ores_middleware.Prelude.{ℕ, Bool, List, [], ◌∷◌, ◌++◌, reverse, Option, none, some}

pub record RequestMetadata : Type 0 where
  pub method : Bytes
  pub path : Bytes
  pub headers : List (Bytes × Bytes)
  pub remote_ip : Option Bytes
  pub content_length : Option ℕ
  pub transport_secure : Bool

pub record RequestContext : Type 0 where
  pub request_id : Bytes
  pub trace_id : Bytes
  pub span_id : Option Bytes
  pub tenant_id : Option Bytes
  pub user_id : Option Bytes
  pub locale : Option Bytes
  pub started_at_unix_ms : ℕ
  pub deadline_unix_ms : Option ℕ
  pub baggage : List (Bytes × Bytes)

pub record StageInput (Value : Type 0) : Type 0 where
  pub request : RequestMetadata
  pub context : RequestContext
  pub decoded_payload : Option Value
  pub attributes : List (Bytes × Value)

pub record StageResponse : Type 0 where
  pub status : ℕ
  pub headers : List (Bytes × Bytes)
  pub body : Bytes

pub record StageRejection : Type 0 where
  pub status : ℕ
  pub code : Bytes
  pub message : Bytes
  pub headers : List (Bytes × Bytes)

pub data StageDecision (Value : Type 0) : Type 0 where
  continue : StageInput Value → StageDecision Value
  respond : StageResponse → StageDecision Value
  reject : StageRejection → StageDecision Value

pub with_attribute : {Value : Type 0} → Bytes → Value → StageInput Value → StageInput Value
with_attribute key value input = record input {
  attributes = insert Bytes-discrete key value input.attributes;
}

pub record Handler (Value W : Type 0) : Type 0 where
  pub name : Bytes
  pub request : StageInput Value → W → StageDecision Value × W
  pub response : StageInput Value → StageResponse → W → StageResponse × W

-- `collect` into a map keeps the last value of a key.
pub problem : (ℕ → Bytes → Bytes) → StageRejection → StageResponse
problem problem_body rejection = record {
  status = rejection.status;
  headers = insert Bytes-discrete (codes "cache-control") (codes "no-store") (
      insert Bytes-discrete (codes "content-type") (codes "application/problem+json")
        rejection.headers);
  body = problem_body rejection.status rejection.code;
}

module _ {Value W : Type 0} (problem_body : ℕ → Bytes → Bytes) where
  -- the loop of `unwind`, over the entered stages from the last to the first
  pub unwind_from :
      List (Handler Value W × StageInput Value) → StageResponse → W → StageResponse × W
  unwind_from [] response w = (response, w)
  unwind_from ((stage, input) ∷ entered) response w =
      let (next, w') = stage.response input response w in unwind_from entered next w'

  pub unwind : List (Handler Value W × StageInput Value) → StageResponse → W → StageResponse × W
  unfolding unwind_from
  unwind entered = unwind_from (reverse entered)

  -- the loop of `execute`
  pub execute_from :
      List (Handler Value W × StageInput Value)
      → (StageInput Value → W → StageResponse × W)
      → List (Handler Value W)
      → StageInput Value
      → W
      → StageResponse × W
  unfolding unwind problem
  execute_from entered handler [] input w =
      let (response, w') = handler input w in unwind entered response w'
  execute_from entered handler (stage ∷ stages) input w =
      let received : StageInput Value = input in
      let (decision, w') = stage.request input w in
      elim decision [
        | continue next ↦ execute_from (entered ++ (stage, next) ∷ []) handler stages next w'
        | respond response ↦ unwind (entered ++ (stage, received) ∷ []) response w'
        | reject rejection ↦
            unwind (entered ++ (stage, received) ∷ []) (problem problem_body rejection) w'
      ]

  pub execute :
      List (Handler Value W)
      → (StageInput Value → W → StageResponse × W)
      → StageInput Value
      → W
      → StageResponse × W
  unfolding execute_from
  execute stages handler = execute_from [] handler stages

-- ===== src/Stage/Tests.antt =====
-- The pipeline of src/rust/src/stage.rs on two stages that count their calls, and its theorems there.
use ores_middleware.Prelude.Bytes.{Bytes, codes}
use ores_middleware.Prelude.{ℕ, ◌+◌, ◌≡◌, true, [], ◌∷◌, none}
use ores_middleware.Stage.{
  StageInput, StageResponse, StageRejection, continue, reject, Handler, execute,
}
use ores_middleware.Stage.Nested.{nested, execute-nested}

abbrev encode : ℕ → Bytes → Bytes
encode status code = code

abbrev refusal : StageRejection
refusal = record { status = 403; code = codes "denied"; message = codes "secret"; headers = [] }

abbrev empty_input : StageInput ℕ
empty_input = record {
  request = record {
    method = codes "GET";
    path = codes "/";
    headers = [];
    remote_ip = none;
    content_length = none;
    transport_secure = true;
  };
  context = record {
    request_id = codes "r1";
    trace_id = codes "t1";
    span_id = none;
    tenant_id = none;
    user_id = none;
    locale = none;
    started_at_unix_ms = 0;
    deadline_unix_ms = none;
    baggage = [];
  };
  decoded_payload = none;
  attributes = [];
}

abbrev counting : Handler ℕ ℕ
counting = record {
  name = codes "counting";
  request = λ input w. (continue input, w + 1);
  response = λ input response w. (response, w + 10);
}

abbrev refusing : Handler ℕ ℕ
refusing = record {
  name = codes "refusing";
  request = λ input w. (reject refusal, w + 1);
  response = λ input response w. (response, w + 10);
}

abbrev answer : StageInput ℕ → ℕ → StageResponse × ℕ
answer input w = (record { status = 200; headers = []; body = codes "ok" }, w + 100)

abbrev silent : StageInput ℕ → ℕ → StageResponse × ℕ
silent input w = (record { status = 204; headers = []; body = [] }, w)

execute-nested_example :
    execute encode (counting ∷ refusing ∷ []) answer empty_input 0
    ≡ nested encode (counting ∷ refusing ∷ []) answer empty_input 0
execute-nested_example = execute-nested encode answer (counting ∷ refusing ∷ []) empty_input 0

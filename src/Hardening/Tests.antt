-- ===== src/Hardening/Tests.antt =====
-- The hardened path of src/rust/src/hardening.rs on small requests, and its theorems there.
use ores_middleware.Prelude.Bytes.{Bytes, Bytes-discrete, codes}
use ores_middleware.Prelude.Maps.{lookup}
use ores_middleware.Prelude.{
  ℕ, ◌+◌, ◌≤◌, ◌≡◌, ◌↔◌, ◌⊎◌, inr, refl, true, List, [], ◌∷◌, ◌++◌, reverse, Option, none, some,
  length, All, ℕ_discrete,
}
use ores_middleware.Stage.{StageInput, StageResponse, continue, reject}
use ores_middleware.Hardening.Attributes.{
  max_stage_attributes, max_stage_attribute_bytes, validate_stage_attributes,
  validate_stage_attributes_iff,
}
use ores_middleware.Hardening.Attributes
use ores_middleware.Hardening.Headers.{max_raw_headers, max_header_bytes, admit_raw_headers}
use ores_middleware.Hardening.Pairs.{IsAdmissible, bytes_of, values_of, joined_from, MayRepeat}
use ores_middleware.Hardening.Admission.{admit_raw_headers-IsAdmissible, admit_raw_headers-lookup}
use ores_middleware.Hardening.Pipeline.{
  fail_open, fail_closed, returned, panicked, HardenedStage, monotonic_deadline, execute,
}
use ores_middleware.Hardening.Finalizers.{event_names}
use ores_middleware.Hardening.Fetch.{default_policy, fetch_request, rejection}
use ores_middleware.Hardening.SameOrigin.{IsAdmitted, fetch_request_iff}
use ores_middleware.Hardening.Entered.{entering, execute_finalizers}

abbrev two_accepts : List (Bytes × Bytes)
two_accepts =
    (codes "Accept", codes "a") ∷ (codes "Host", codes "h") ∷ (codes "accept", codes "b") ∷ []

abbrev admitted : List (Bytes × Bytes)
admitted = (codes "accept", codes "a, b") ∷ (codes "host", codes "h") ∷ []

two_accepts-admitted : admit_raw_headers two_accepts ≡ inr admitted
unfolding admit_raw_headers Bytes-discrete ℕ_discrete
two_accepts-admitted = refl

admit_raw_headers-IsAdmissible_example :
    (length two_accepts ≤ max_raw_headers)
    × All IsAdmissible two_accepts
    × (bytes_of two_accepts ≤ max_header_bytes)
admit_raw_headers-IsAdmissible_example =
    admit_raw_headers-IsAdmissible two_accepts admitted two_accepts-admitted

admit_raw_headers-lookup_example :
    (lookup Bytes-discrete (codes "accept") admitted
      ≡ joined_from none (values_of (codes "accept") two_accepts))
    × ((length (values_of (codes "accept") two_accepts) ≤ 1) ⊎ MayRepeat (codes "accept"))
admit_raw_headers-lookup_example =
    admit_raw_headers-lookup (codes "accept") two_accepts admitted two_accepts-admitted

-- every value is encoded as one byte
abbrev to_vec : ℕ → Option Bytes
to_vec value = some (value ∷ [])

validate_stage_attributes_iff_example :
    (validate_stage_attributes to_vec ((codes "user", 7) ∷ []) ≡ none) ↔ (
      (length {A = Bytes × ℕ} ((codes "user", 7) ∷ []) ≤ max_stage_attributes)
      × All (Attributes.IsAdmissible to_vec) ((codes "user", 7) ∷ [])
      × (Attributes.bytes_of to_vec ((codes "user", 7) ∷ []) ≤ max_stage_attribute_bytes))
validate_stage_attributes_iff_example =
    validate_stage_attributes_iff to_vec ((codes "user", 7) ∷ [])

abbrev document : ℕ → Bytes → Option Bytes → Option Bytes
document status code request_id = some code

abbrev empty_input : StageInput ℕ
empty_input = record {
  request = record {
    method = codes "GET";
    path = codes "/";
    headers = [];
    remote_ip = none;
    content_length = none;
    transport_secure = true;
  };
  context = record {
    request_id = codes "r1";
    trace_id = codes "t1";
    span_id = none;
    tenant_id = none;
    user_id = none;
    locale = none;
    started_at_unix_ms = 0;
    deadline_unix_ms = none;
    baggage = [];
  };
  decoded_payload = none;
  attributes = [];
}

abbrev steady : HardenedStage ℕ ℕ
steady = record {
  name = codes "steady";
  request = λ deadline input w. (returned (continue input), w + 1);
  response = λ deadline input response w. (returned response, w + 10);
  finalizer_failure_mode = fail_open;
}

-- its response hook panics
abbrev breaking : HardenedStage ℕ ℕ
breaking = record {
  name = codes "breaking";
  request = λ deadline input w. (returned (continue input), w + 1);
  response = λ deadline input response w. (panicked, w + 10);
  finalizer_failure_mode = fail_closed;
}

abbrev answer : StageInput ℕ → ℕ → StageResponse × ℕ
answer input w = (record { status = 200; headers = []; body = codes "ok" }, w + 100)

abbrev entered : List (HardenedStage ℕ ℕ × StageInput ℕ)
entered = (steady, empty_input) ∷ (breaking, empty_input) ∷ []

execute_finalizers_example :
    event_names
      (execute to_vec document 0 0 (steady ∷ breaking ∷ []) answer empty_input 0).0.finalizers
    ≡ reverse (entering to_vec none (steady ∷ breaking ∷ []) empty_input 0).0
      ++ (entering to_vec none (steady ∷ breaking ∷ []) empty_input 0).1
unfolding validate_stage_attributes monotonic_deadline
execute_finalizers_example =
    execute_finalizers to_vec document 0 0 (steady ∷ breaking ∷ []) answer empty_input 0 refl

-- a mutation from another site, with a cookie
abbrev cross_site : StageInput ℕ
cross_site = record empty_input {
  request = record empty_input.request {
    method = codes "post";
    headers = (codes "Cookie", codes "s=1") ∷ (codes "Sec-Fetch-Site", codes "cross-site") ∷ [];
  };
}

fetch_request_iff_example :
    (fetch_request default_policy cross_site ≡ continue cross_site)
    ↔ IsAdmitted default_policy cross_site
fetch_request_iff_example = fetch_request_iff default_policy cross_site

cross_site_denied :
    fetch_request default_policy cross_site
    ≡ reject (
        rejection
          (codes "fetch_metadata_cross_site_denied")
          (codes "Cross-site ambient-credential mutation denied"))
unfolding fetch_request
cross_site_denied = refl

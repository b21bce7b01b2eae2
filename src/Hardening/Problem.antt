-- ===== src/Hardening/Problem.antt =====
-- Sanitised problem responses of src/rust/src/hardening.rs. `document` stands for the encoding of a
-- `ProblemDocument` by `serde_json::to_vec`, `none` for its error. Maps are read in the order of
-- their lists, which is that of their keys.
use ores_middleware.Prelude.Bytes.{
  Bytes, Bytes-discrete, codes, is_empty, is_ascii_lowercase, is_ascii_digit, is_ascii_alphanumeric,
  to_ascii_lowercase, one_of,
}
use ores_middleware.Prelude.Maps.{insert}
use ores_middleware.Prelude.{
  ℕ, Bool, not, ◌&&◌, ◌||◌, List, [], ◌∷◌, Option, none, some, ◌==◌, leb, ltb, length, all, any,
  if◌then◌else◌,
}
use ores_middleware.Stage.{StageResponse}

unfoldable pub is_forbidden_header_value_byte : ℕ → Bool
is_forbidden_header_value_byte c =
    c == 0 || c == 13 || c == 10 || (ltb c 0x20 && not (c == 9)) || c == 0x7f

pub code_byte : ℕ → Bool
code_byte c = is_ascii_lowercase c || is_ascii_digit c || c == b'_'

unfoldable pub sanitize_problem_code : Bytes → Bytes
unfolding code_byte
sanitize_problem_code value =
    if not (is_empty value) && leb (length value) 64 && all code_byte value
    then value
    else codes "middleware_rejection"

request_id_byte : ℕ → Bool
request_id_byte c =
    is_ascii_alphanumeric c || (c == b'-' || c == b'_' || c == b'.' || c == b':' || c == b'/')

unfoldable pub sanitize_request_id : Bytes → Option Bytes
unfolding request_id_byte
sanitize_request_id value =
    if is_empty value || ltb 128 (length value)
    then none
    else if all request_id_byte value
    then some value
    else none

abbrev pub safe_response_headers : List Bytes
safe_response_headers =
    codes "retry-after"
    ∷ codes "ratelimit"
    ∷ codes "ratelimit-policy"
    ∷ codes "ratelimit-limit"
    ∷ codes "ratelimit-remaining"
    ∷ codes "ratelimit-reset"
    ∷ codes "x-request-id"
    ∷ codes "x-ores-request-id"
    ∷ []

unfoldable pub sanitize_safe_response_header : Bytes → Bytes → Option (Bytes × Bytes)
unfolding is_forbidden_header_value_byte one_of to_ascii_lowercase
sanitize_safe_response_header name value =
    let lowered : Bytes = to_ascii_lowercase name in
    if not (one_of lowered safe_response_headers)
      || is_empty value
      || ltb 256 (length value)
      || any is_forbidden_header_value_byte value
    then none
    else some (lowered, value)

abbrev pub and_then : {A B : Type 0} → Option A → (A → Option B) → Option B
and_then none f = none
and_then (some a) f = f a

-- the headers that pass, collected into the map `kept`
pub safe_headers_into : List (Bytes × Bytes) → List (Bytes × Bytes) → List (Bytes × Bytes)
unfolding sanitize_safe_response_header insert
safe_headers_into kept [] = kept
safe_headers_into kept ((name, value) ∷ rest) =
    safe_headers_into
      (elim (sanitize_safe_response_header name value) [
        | none ↦ kept
        | some (n, v) ↦ insert Bytes-discrete n v kept
      ])
      rest

abbrev or_else : Option Bytes → Bytes → Bytes
or_else none d = d
or_else (some a) d = a

unfoldable pub sanitized_problem_response :
    (ℕ → Bytes → Option Bytes → Option Bytes)
    → ℕ
    → Bytes
    → Option Bytes
    → List (Bytes × Bytes)
    → StageResponse
unfolding sanitize_problem_code sanitize_request_id safe_headers_into insert
sanitized_problem_response document status code request_id safe_headers = record {
  status = status;
  headers = insert Bytes-discrete (codes "cache-control") (codes "no-store") (
      insert Bytes-discrete (codes "content-type") (codes "application/problem+json")
        (safe_headers_into [] safe_headers));
  body =
      or_else
        (document status (sanitize_problem_code code) (and_then request_id sanitize_request_id))
        (codes "{\"title\":\"Request rejected\"}");
}

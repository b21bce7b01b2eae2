-- ===== src/Hardening/Fetch.antt =====
-- `FetchMetadataStage` of src/rust/src/hardening.rs. The set of unsafe methods is the list of its
-- elements.
use ores_middleware.Prelude.Bytes.{
  Bytes, codes, is_empty, is_ascii_lowercase, is_ascii_digit, to_ascii_lowercase, bytes_eq, one_of,
}
use ores_middleware.Prelude.{
  ℕ, Bool, true, false, not, ◌&&◌, ◌||◌, List, [], ◌∷◌, Option, none, some, leb, ◌==◌, length, all,
  any, if◌then◌else◌,
}
use ores_middleware.Stage.{StageInput, StageRejection, StageDecision, continue, reject}

pub record FetchMetadataPolicy : Type 0 where
  pub enabled : Bool
  pub allow_missing : Bool
  pub allow_same_site : Bool
  pub unsafe_methods : List Bytes

abbrev pub default_policy : FetchMetadataPolicy
default_policy = record {
  enabled = true;
  allow_missing = true;
  allow_same_site = true;
  unsafe_methods = codes "DELETE" ∷ codes "PATCH" ∷ codes "POST" ∷ codes "PUT" ∷ [];
}

unfoldable pub eq_ignore_ascii_case : Bytes → Bytes → Bool
unfolding to_ascii_lowercase bytes_eq
eq_ignore_ascii_case a b = bytes_eq (to_ascii_lowercase a) (to_ascii_lowercase b)

unfoldable pub unsafe_method : FetchMetadataPolicy → Bytes → Bool
unfolding eq_ignore_ascii_case
unsafe_method policy method =
    any (λ candidate. eq_ignore_ascii_case candidate method) policy.unsafe_methods

-- the value of the first header of that name
unfoldable pub find_header : Bytes → List (Bytes × Bytes) → Option Bytes
unfolding eq_ignore_ascii_case
find_header name [] = none
find_header name ((candidate, value) ∷ headers) =
    if eq_ignore_ascii_case candidate name then some value else find_header name headers

abbrev pub token_byte : ℕ → Bool
token_byte byte = is_ascii_lowercase byte || is_ascii_digit byte || byte == b'-'

unfoldable pub valid_fetch_token : Bytes → Bool
valid_fetch_token value = not (is_empty value) && leb (length value) 32 && all token_byte value

abbrev pub site_values : List Bytes
site_values = codes "same-origin" ∷ codes "same-site" ∷ codes "cross-site" ∷ codes "none" ∷ []

abbrev pub mode_values : List Bytes
mode_values =
    codes "cors" ∷ codes "navigate" ∷ codes "no-cors" ∷ codes "same-origin" ∷ codes "websocket" ∷ []

-- `StageRejection::new` with the status of this stage
abbrev pub rejection : Bytes → Bytes → StageRejection
rejection code message = record { status = 403; code = code; message = message; headers = [] }

abbrev pub invalid : StageRejection
invalid =
    rejection (codes "fetch_metadata_invalid") (codes "Fetch Metadata policy rejected the request")

-- The tests of the four headers that reject a request.
unfoldable pub closed_invalid : List Bytes → Option Bytes → Bool
unfolding valid_fetch_token one_of
closed_invalid values none = false
closed_invalid values (some value) = not (valid_fetch_token value) || not (one_of value values)

unfoldable pub dest_invalid : Option Bytes → Bool
unfolding valid_fetch_token
dest_invalid none = false
dest_invalid (some value) = not (valid_fetch_token value)

unfoldable pub user_invalid : Option Bytes → Bool
unfolding bytes_eq
user_invalid none = false
user_invalid (some value) = not (bytes_eq value (codes "?1"))

abbrev pub is_some : Option Bytes → Bool
is_some none = false
is_some (some _) = true

module _ {Value : Type 0} (policy : FetchMetadataPolicy) (input : StageInput Value) where
  abbrev header : Bytes → Option Bytes
  header name = find_header name input.request.headers

  -- the decision by the site of a mutation with ambient credentials
  unfoldable pub site_decision : Option Bytes → StageDecision Value
  unfolding bytes_eq
  site_decision none =
      if policy.allow_missing
      then continue input
      else reject (
          rejection (codes "fetch_metadata_required")
            (codes "Fetch Metadata is required for this request"))
  site_decision (some site) =
      if bytes_eq site (codes "cross-site")
      then reject (
          rejection (codes "fetch_metadata_cross_site_denied")
            (codes "Cross-site ambient-credential mutation denied"))
      else if bytes_eq site (codes "same-site") && not policy.allow_same_site
      then reject (
          rejection (codes "fetch_metadata_same_site_denied")
            (codes "Same-site ambient-credential mutation denied"))
      else continue input

  unfoldable pub fetch_request : StageDecision Value
  unfolding unsafe_method find_header closed_invalid dest_invalid user_invalid site_decision
  fetch_request =
      if not policy.enabled
      then continue input
      else if closed_invalid site_values (header (codes "sec-fetch-site"))
          || closed_invalid mode_values (header (codes "sec-fetch-mode"))
      then reject invalid
      else if dest_invalid (header (codes "sec-fetch-dest"))
      then reject invalid
      else if user_invalid (header (codes "sec-fetch-user"))
      then reject invalid
      else if not (unsafe_method policy input.request.method)
          || not (is_some (header (codes "cookie")))
      then continue input
      else site_decision (header (codes "sec-fetch-site"))

-- ===== src/Principal/Values.antt =====
-- What each signal reads from the request: `signal_value`, `claim` and `ip_prefix` of
-- src/rust/src/rate_limit.rs. `parse_ip` and `show_ip` stand for the textual form of an address in
-- the Rust standard library; an address is its octets.
use ores_middleware.Prelude.Bytes.{
  Bytes, Bytes-discrete, codes, is_empty, is_ascii_lowercase, to_ascii_lowercase,
}
use ores_middleware.Prelude.Text.{trim}
use ores_middleware.Prelude.Maps.{lookup}
use ores_middleware.Prelude.{
  ℕ, zero, suc, ◌-◌, Bool, not, List, [], ◌∷◌, ◌++◌, map, Option, none, some, if◌then◌else◌,
}
use ores_middleware.Stage.{RequestMetadata, RequestContext}
use ores_middleware.Principal.Signals.{
  RateLimitSignal, ip, ip_prefix, user, subject, email, tenant, organization, session, device,
  api_key, route, method,
}

pub record AuthDecision : Type 0 where
  pub user_id : Option Bytes
  pub tenant_id : Option Bytes
  pub claims : List (Bytes × Bytes)

pub data IpAddr : Type 0 where
  v4 : (a b c d : ℕ) → IpAddr
  v6 : (octets : List ℕ) → IpAddr

upper : ℕ → ℕ
upper c = if is_ascii_lowercase c then c - 32 else c

unfoldable pub to_ascii_uppercase : Bytes → Bytes
unfolding upper
to_ascii_uppercase = map upper

-- `octets[7..]` set to zero
abbrev mask_after : ℕ → List ℕ → List ℕ
mask_after n [] = []
mask_after zero (b ∷ s) = 0 ∷ mask_after zero s
mask_after (suc n) (b ∷ s) = b ∷ mask_after n s

abbrev pub and_then : {A B : Type 0} → Option A → (A → Option B) → Option B
and_then none f = none
and_then (some a) f = f a

abbrev pub filter_option : {A : Type 0} → (A → Bool) → Option A → Option A
filter_option p none = none
filter_option p (some a) = if p a then some a else none

-- `find_map` over the names
unfoldable pub find_claim : List (Bytes × Bytes) → List Bytes → Option Bytes
unfolding lookup
find_claim claims [] = none
find_claim claims (name ∷ names) =
    let later = find_claim claims names in
    elim (lookup Bytes-discrete name claims) [ none ↦ later | some value ↦ some value ]

unfoldable pub claim : AuthDecision → List Bytes → Option Bytes
unfolding find_claim trim
claim auth names =
    filter_option (λ value. not (is_empty (trim value))) (find_claim auth.claims names)

module _ (parse_ip : Bytes → Option IpAddr) (show_ip : IpAddr → Bytes) where
  unfoldable pub masked : IpAddr → Bytes
  masked (v4 a b c d) = show_ip (v4 a b c 0) ++ codes "/24"
  masked (v6 octets) = show_ip (v6 (mask_after 7 octets)) ++ codes "/56"

  unfoldable pub prefix_of : Bytes → Option Bytes
  unfolding masked
  prefix_of value = and_then (parse_ip value) (λ address. some (masked address))

  unfoldable pub signal_value :
      RequestContext
      → RequestMetadata
      → AuthDecision
      → Option Bytes
      → RateLimitSignal
      → Option Bytes
  unfolding prefix_of claim to_ascii_lowercase to_ascii_uppercase
  signal_value context request auth effective_client_ip ip = effective_client_ip
  signal_value context request auth effective_client_ip ip_prefix =
      and_then effective_client_ip prefix_of
  signal_value context request auth effective_client_ip user = context.user_id
  signal_value context request auth effective_client_ip subject = context.user_id
  signal_value context request auth effective_client_ip email =
      and_then (claim auth (codes "email" ∷ codes "email_address" ∷ []))
        (λ value. some (to_ascii_lowercase (trim value)))
  signal_value context request auth effective_client_ip tenant = context.tenant_id
  signal_value context request auth effective_client_ip organization =
      claim auth (codes "organization_id" ∷ codes "org_id" ∷ [])
  signal_value context request auth effective_client_ip session =
      claim auth (codes "session_id" ∷ codes "sid" ∷ [])
  signal_value context request auth effective_client_ip device = claim auth (codes "device_id" ∷ [])
  signal_value context request auth effective_client_ip api_key =
      claim auth (codes "api_key_id" ∷ codes "client_id" ∷ [])
  signal_value context request auth effective_client_ip route = some request.path
  signal_value context request auth effective_client_ip method =
      some (to_ascii_uppercase request.method)

-- ===== src/Principal/Injective.antt =====
-- The message that is authenticated for a principal (src/rust/src/rate_limit.rs) determines the
-- namespace, the key version, the signals and their values.
use mathlib.Core.List.{append_assoc, append-nil}
use ores_middleware.Prelude.Bytes.{Bytes, codes, bytes_eq}
use ores_middleware.Prelude.{
  ◌^◌, ◌<◌, ◌≡◌, ◌⊎◌, inl, refl, sym, ap, ◌∙◌, Bool, true, false, ◌&&◌, ◌||◌, List, [], ◌∷◌, ◌++◌,
  Option, String, length, any, All, if◌then◌else◌, arith,
}
use ores_middleware.Principal.Signals.{
  RateLimitSignal, ip, ip_prefix, user, subject, email, tenant, organization, session, device,
  api_key, route, method, is_principal_signal, tag,
}
use ores_middleware.Principal.Encoding.{length_prefixed, length_prefixed_inj}
use ores_middleware.Principal.Derivation.{
  RateLimitPrincipal, is_some, presented, encode_signals, derive_rate_limit_principal, hmac_message,
}

-- the material in one piece
abbrev pub material : (RateLimitSignal → Option Bytes) → List RateLimitSignal → Bytes
material value [] = []
material value (s ∷ signals) =
    length_prefixed (tag s) ++ (length_prefixed (presented (value s)) ++ material value signals)

-- the signals that make a principal
abbrev pub identifies : (RateLimitSignal → Option Bytes) → RateLimitSignal → Bool
identifies value s = is_principal_signal s && is_some (value s)

encode_signals-material :
    (value : RateLimitSignal → Option Bytes) (canonical : Bytes) (has : Bool)
    (signals : List RateLimitSignal)
    → (encode_signals value canonical has signals).0 ≡ canonical ++ material value signals
unfolding encode_signals
encode_signals-material value canonical has [] = sym (append-nil canonical)
encode_signals-material value canonical has (s ∷ signals) =
    encode_signals-material value
      (canonical ++ length_prefixed (tag s) ++ length_prefixed (presented (value s)))
      (has || identifies value s) signals
    ∙ append_assoc (canonical ++ length_prefixed (tag s)) (length_prefixed (presented (value s))) _
    ∙ append_assoc canonical (length_prefixed (tag s)) _

or_assoc : (a b c : Bool) → ((a || b) || c) ≡ (a || (b || c))
or_assoc true b c = refl
or_assoc false b c = refl

encode_signals-any :
    (value : RateLimitSignal → Option Bytes) (canonical : Bytes) (has : Bool)
    (signals : List RateLimitSignal)
    → (encode_signals value canonical has signals).1 ≡ (has || any (identifies value) signals)
unfolding encode_signals
encode_signals-any value canonical true [] = refl
encode_signals-any value canonical false [] = refl
encode_signals-any value canonical has (s ∷ signals) =
    encode_signals-any value
      (canonical ++ length_prefixed (tag s) ++ length_prefixed (presented (value s)))
      (has || identifies value s) signals
    ∙ or_assoc has _ _

from_tag : Bytes → RateLimitSignal
unfolding bytes_eq
from_tag t =
    if bytes_eq t (codes "ip")
    then ip
    else if bytes_eq t (codes "ip-prefix")
    then ip_prefix
    else if bytes_eq t (codes "user")
    then user
    else if bytes_eq t (codes "subject")
    then subject
    else if bytes_eq t (codes "email")
    then email
    else if bytes_eq t (codes "tenant")
    then tenant
    else if bytes_eq t (codes "organization")
    then organization
    else if bytes_eq t (codes "session")
    then session
    else if bytes_eq t (codes "device")
    then device
    else if bytes_eq t (codes "api-key")
    then api_key
    else if bytes_eq t (codes "route")
    then route
    else method

tag_lem : (s : RateLimitSignal) → (from_tag (tag s) ≡ s) × (length (tag s) < 2 ^ 64)
unfolding from_tag
tag_lem ip = (refl, omega arith)
tag_lem ip_prefix = (refl, omega arith)
tag_lem user = (refl, omega arith)
tag_lem subject = (refl, omega arith)
tag_lem email = (refl, omega arith)
tag_lem tenant = (refl, omega arith)
tag_lem organization = (refl, omega arith)
tag_lem session = (refl, omega arith)
tag_lem device = (refl, omega arith)
tag_lem api_key = (refl, omega arith)
tag_lem route = (refl, omega arith)
tag_lem method = (refl, omega arith)

tag_inj : (s t : RateLimitSignal) → tag s ≡ tag t → s ≡ t
tag_inj s t e = sym (tag_lem s).0 ∙ ap from_tag e ∙ (tag_lem t).0

-- a value whose length fits the prefix
abbrev pub Fits : (RateLimitSignal → Option Bytes) → RateLimitSignal → Type 0
Fits value s = length (presented (value s)) < 2 ^ 64

prefixed_nonempty : (v rest : Bytes) → length_prefixed v ++ rest ≡ [] → ⊥
unfolding length_prefixed
prefixed_nonempty v rest h = cc h

material_inj :
    (value value' : RateLimitSignal → Option Bytes) (signals signals' : List RateLimitSignal)
    → All (Fits value) signals
    → All (Fits value') signals'
    → material value signals ≡ material value' signals'
    → (signals ≡ signals') × All (λ s. presented (value s) ≡ presented (value' s)) signals
material_inj value value' [] [] f f' e = (refl, tt)
material_inj value value' [] (s ∷ signals') f f' e = absurd (prefixed_nonempty (tag s) _ (sym e))
material_inj value value' (s ∷ signals) [] f f' e = absurd (prefixed_nonempty (tag s) _ e)
material_inj value value' (s ∷ signals) (s' ∷ signals') (f, fs) (f', fs') e =
    let (tags, after) = length_prefixed_inj (tag s) (tag s') _ _ (tag_lem s).1 (tag_lem s').1 e in
    let (values, later) = length_prefixed_inj _ _ _ _ f f' after in
    let same : s ≡ s' = tag_inj s s' tags in
    let (rest, all_rest) = material_inj value value' signals signals' fs fs' later in
    (cc (same, rest), (values ∙ ap (λ t. presented (value' t)) (sym same), all_rest))

-- Two requests whose messages agree agree in the namespace, in the key version, in the list of
-- signals, and in what is presented for each signal, if every length fits 64 bits.
pub hmac_message_inj :
    (namespace namespace' key_version key_version' : Bytes)
    (value value' : RateLimitSignal → Option Bytes) (signals signals' : List RateLimitSignal)
    → length namespace < 2 ^ 64
    → length namespace' < 2 ^ 64
    → length key_version < 2 ^ 64
    → length key_version' < 2 ^ 64
    → length (encode_signals value [] false signals).0 < 2 ^ 64
    → length (encode_signals value' [] false signals').0 < 2 ^ 64
    → All (Fits value) signals
    → All (Fits value') signals'
    → hmac_message namespace key_version (encode_signals value [] false signals).0
      ≡ hmac_message namespace' key_version' (encode_signals value' [] false signals').0
    → (namespace ≡ namespace')
      × (key_version ≡ key_version')
      × (signals ≡ signals')
      × All (λ s. presented (value s) ≡ presented (value' s)) signals
unfolding hmac_message
hmac_message_inj ns ns' kv kv' value value' signals signals' n n' k k' c c' f f' e =
    let m = (encode_signals value [] false signals).0 in
    let m' = (encode_signals value' [] false signals').0 in
    let nested =
      sym (append_assoc (length_prefixed ns) (length_prefixed kv) (length_prefixed m))
      ∙ e
      ∙ append_assoc (length_prefixed ns') (length_prefixed kv') (length_prefixed m') in
    let (spaces, after) = length_prefixed_inj ns ns' _ _ n n' nested in
    let (versions, last) = length_prefixed_inj kv kv' _ _ k k' after in
    let (same, _) = length_prefixed_inj m m' [] [] c c' (ap (λ l. l ++ []) last) in
    let (lists, values) = material_inj value value' signals signals' f f' (
      sym (encode_signals-material value [] false signals)
      ∙ same
      ∙ encode_signals-material value' [] false signals') in
    (spaces, versions, lists, values)

-- A principal is derived if and only if some signal that identifies a caller has a value: then
-- the deriver is called on the material of all signals, in their order; otherwise the deriver is not
-- called, and the request is refused.
pub derive_rate_limit_principal_cases :
    (derive : Bytes → Bytes → Bytes → String ⊎ RateLimitPrincipal) (namespace key_version : Bytes)
    (signals : List RateLimitSignal) (value : RateLimitSignal → Option Bytes)
    → derive_rate_limit_principal derive namespace key_version signals value ≡ (
        if any (identifies value) signals
        then derive namespace key_version (material value signals)
        else inl "rate_limit_principal_unavailable")
unfolding derive_rate_limit_principal
derive_rate_limit_principal_cases derive namespace key_version signals value =
    rw (encode_signals-any value [] false signals, encode_signals-material value [] false signals)

-- ===== src/Principal/Signals.antt =====
-- `RateLimitSignal` of src/rust/src/rate_limit.rs, with its classes and tags.
use ores_middleware.Prelude.Bytes.{Bytes, codes}
use ores_middleware.Prelude.{Bool, true, false}

pub data RateLimitSignal : Type 0 where
  ip ip_prefix user subject email tenant : RateLimitSignal
  organization session device api_key route method : RateLimitSignal

abbrev pub is_edge_safe : RateLimitSignal → Bool
is_edge_safe ip = true
is_edge_safe ip_prefix = true
is_edge_safe route = true
is_edge_safe method = true
is_edge_safe _ = false

abbrev pub is_principal_signal : RateLimitSignal → Bool
is_principal_signal route = false
is_principal_signal method = false
is_principal_signal _ = true

abbrev pub tag : RateLimitSignal → Bytes
tag ip = codes "ip"
tag ip_prefix = codes "ip-prefix"
tag user = codes "user"
tag subject = codes "subject"
tag email = codes "email"
tag tenant = codes "tenant"
tag organization = codes "organization"
tag session = codes "session"
tag device = codes "device"
tag api_key = codes "api-key"
tag route = codes "route"
tag method = codes "method"

-- ===== src/Principal.antt =====
-- The rate limit principal of a request: src/rust/src/rate_limit.rs. The signals of a policy are
-- read from the request and encoded with length prefixes; a keyed digest of that is the principal.
pub mod Signals
pub mod Encoding
pub mod Values
pub mod Derivation
mod Injective
mod Hexadecimal
mod Tests

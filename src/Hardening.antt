-- ===== src/Hardening.antt =====
-- The hardened request path of src/rust/src/hardening.rs: header admission, stage attributes,
-- sanitised problem responses, and the pipeline whose hooks may fail.
pub mod Attributes
pub mod Problem
pub mod Pipeline
mod Finalizers
mod Entered
pub mod Fetch
mod FetchHeaders
mod SameOrigin
pub mod Headers
mod Pairs
mod Admission
mod Tests

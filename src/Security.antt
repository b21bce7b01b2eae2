-- ===== src/Security.antt =====
-- The stages of src/rust/src/security.rs against cross-site request forgery, with their cookie parser, and
-- for cross-origin resource sharing.
pub mod Cookies
pub mod Csrf
pub mod Cors
mod Opened
mod Origins
mod Parsed
mod Trusted
mod Tests

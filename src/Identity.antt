-- ===== src/Identity.antt =====
-- The identity service: identity/internal.
pub mod Errors
pub mod Account
pub mod Login
pub mod Lockout
mod Examples

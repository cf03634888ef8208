-- ===== src/Auth.antt =====
-- internal/auth: accounts and devices, and the tokens that speak for them.
pub mod Store
pub mod Outcome
pub mod Session
mod Examples

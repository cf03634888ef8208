-- ===== src/Common.antt =====
-- internal/common: errors, pagination, rate limits, the client's address.
pub mod Errors
pub mod Limits
pub mod Redact
pub mod Http
pub mod Paging
pub mod Clients
mod Examples

-- ===== src/Relay.antt =====
-- internal/relay: one request of a client, checked, filtered and sent to an allowed host.
pub mod Service
pub mod Checks
mod Examples

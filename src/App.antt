-- ===== src/App.antt =====
-- internal/app/app.go and the routes of the packages: the handlers, who may call them, and the whole
-- server.
pub mod State
pub mod Payloads
pub mod Public
pub mod Member
pub mod Operator
pub mod Desk
pub mod Mux
pub mod Start
pub mod Ready
pub mod Boot
pub mod Steps
pub mod Gate
pub mod Apart
pub mod Headers
pub mod Images
pub mod Keepers
pub mod Files
mod Operators
mod Routes
pub mod Expected
pub mod Envelope
mod Examples

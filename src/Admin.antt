-- ===== src/Admin.antt =====
-- internal/admin: what the operator sees and changes.
pub mod Accounts
pub mod Removal
pub mod Reports
pub mod Texts
pub mod Settings
pub mod Kinds
pub mod Trim
pub mod Effect
pub mod Codes
mod Examples

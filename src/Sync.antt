-- ===== src/Sync.antt =====
-- internal/sync: data of several devices, merged by last write, with tombstones and cursors.
pub mod Json
pub mod Token
pub mod Store
pub mod Push
pub mod Pull
pub mod Restart
mod Examples

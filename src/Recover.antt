-- ===== src/Recover.antt =====
-- internal/recover: the state of a lost image, the queue that looks for it, and the sources it tries.
pub mod Sources
pub mod Probe
pub mod Queue
pub mod Build
pub mod Query
pub mod Lifetime
pub mod Work
pub mod Workers
pub mod Single
pub mod Wait
mod Examples

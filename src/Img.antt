-- ===== src/Img.antt =====
-- internal/img: one image for a client, from the cache or from its host.
pub mod Service
pub mod Poison
mod Examples

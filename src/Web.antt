-- ===== src/Web.antt =====
-- internal/web: requests from other origins, and the files of the web client.
pub mod Cors
pub mod Spa

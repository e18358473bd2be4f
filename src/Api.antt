-- ===== src/Api.antt =====
-- The process of cmd/api.
pub mod Config
pub mod Dispatch
pub mod Start

-- ===== src/Kernel.antt =====
-- The shared kernel, internal/shared/kernel.
pub mod Errors
pub mod Money
pub mod Types

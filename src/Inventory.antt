-- ===== src/Inventory.antt =====
-- The inventory context, internal/inventory.
pub mod Batch
pub mod Repository
pub mod Handlers
pub mod Recalc
pub mod Http

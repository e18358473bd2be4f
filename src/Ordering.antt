-- ===== src/Ordering.antt =====
-- The ordering context, internal/ordering.
pub mod Order
pub mod Allocation
pub mod BatchTables
pub mod Repository
pub mod Confirm
pub mod Http
pub mod OrderTables
pub mod OrderRepository

-- ===== src/Outbox.antt =====
-- The outbox of domain events, internal/shared/postgres.
pub mod Table
pub mod Publisher
pub mod Worker
pub mod Direct

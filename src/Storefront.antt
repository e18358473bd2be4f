-- ===== src/Storefront.antt =====
-- The storefront, internal/storefront.
pub mod Catalog
pub mod Orders
pub mod Http
pub mod Reader

-- ===== src/Catalog.antt =====
-- What a provider sells: services, their options and prices (internal/catalog).
pub mod Models
pub mod Pricing
mod Tests

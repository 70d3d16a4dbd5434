-- ===== src/Catalog.antt =====
-- src/catalog: table schemas.
pub mod Schema

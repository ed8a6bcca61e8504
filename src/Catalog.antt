-- ===== src/Catalog.antt =====
-- apps/api/src/modules/catalog: the Product aggregate and its application service.
pub mod Product
pub mod Repository
pub mod Memory
pub mod Service
mod Examples

-- ===== src/Data.antt =====
-- packages/data-postgres/src: the store of idempotency keys.
pub mod Idempotency
mod Examples

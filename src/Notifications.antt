-- ===== src/Notifications.antt =====
-- packages/notifications/src: the outbox of secret deliveries.
pub mod Contracts
pub mod Outbox
pub mod Processor
pub mod Store
mod Examples

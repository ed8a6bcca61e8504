-- ===== src/Settings.antt =====
-- packages/settings-runtime/src: settings with versions and a history, and their service.
pub mod Checks
pub mod Contracts
pub mod MemoryStore
pub mod Service
mod Examples
mod ServiceExamples

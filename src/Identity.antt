-- ===== src/Identity.antt =====
-- packages/identity/src: accounts, sessions, actors, throttling.
pub mod Account
pub mod Actor
pub mod Authentication
pub mod Contracts
pub mod Password
pub mod Persistence
pub mod Roles
pub mod Session
pub mod Throttle
mod Examples
mod AuthenticationExamples
mod RoleExamples

-- ===== src/Platform.antt =====
-- apps/api/src/platform: the limits that a process keeps, and the session cookie.
pub mod AuthenticationThrottle
pub mod RateLimiter
pub mod SessionCookie
mod Examples

-- ===== src/Http.antt =====
-- pkg/httputils: round trippers around another one.
pub mod RateLimiter
pub mod Monitored
pub mod Caching
mod Examples

-- ===== src/Svc.antt =====
-- internal/svc: the services that master and slave use.
pub mod Redis
pub mod RateLimiter
pub mod Events
pub mod AutoScaler
pub mod Twitch
mod Tests

-- ===== src/Services.antt =====
-- The services (internal/services).
pub mod Reading
pub mod Subscription
pub mod Refresh
pub mod Adding
pub mod Limiter
pub mod Scheduler
pub mod Tokens
pub mod Urls
pub mod Audit
pub mod Payments

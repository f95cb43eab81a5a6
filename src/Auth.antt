-- ===== src/Auth.antt =====
-- Authentication (internal/auth).
pub mod Session
pub mod Limiter
pub mod Client
pub mod Guard

-- ===== src/Handlers.antt =====
-- The HTTP handlers (internal/handlers).
pub mod Server
pub mod Feeds
pub mod Articles
pub mod Admin

-- ===== src/Cache.antt =====
-- The in-memory caches (internal/cache).
pub mod Unread
pub mod FeedList

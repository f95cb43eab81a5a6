-- ===== src/Services/Reading/Stats.antt =====
-- internal/services/feed_service.go: GetAccountStats, which takes the unread counts from the cache where
-- they are valid.
use goread.Base.{ℕ, none, some, ℤ}
use goread.Database.{DbError, Result, ok, err}
use goread.Database.Stats.{Stats, get_total_article_count, get_account_stats, total_of, active_of}
use goread.Cache.Unread
use goread.Services.Reading.{FeedService}

-- The feeds that the source takes as an argument are not used.
unfoldable pub get_account_stats_of : FeedService → ℕ → ℤ → FeedService × Result DbError Stats
unfolding total_of active_of
get_account_stats_of fs now user =
    let (c, hit) = Unread.get fs.unread_cache now user in
    elim hit [
      | none ↦ (record fs { unread_cache = c }, get_account_stats now user fs.db)
      | some cached ↦ elim (get_total_article_count user fs.db) [
        | err e ↦ (record fs { unread_cache = c }, err e)
        | ok total ↦ (
          record fs { unread_cache = c },
          ok (record {
            total_articles = total;
            total_unread = total_of cached;
            active_feeds = active_of cached;
          }),
        )
      ]
    ]

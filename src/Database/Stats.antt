-- ===== src/Database/Stats.antt =====
-- internal/database/schema.go: the statistics of an account, and their sums over unread counts, which
-- internal/services/feed_service.go takes where the counts are cached.
pub mod Sums
mod Tests
use goread.Base.{
  int_Eq, pair_Eq, ℕ, suc, ◌+◌, Bool, true, false, ◌&&◌, not, Option, none, some, ℤ, pos, Map,
  if◌then◌else◌, ◌==◌, List, [], ◌∷◌, length, select, leb, ltb_ℤ, ◌+ℤ◌,
}
use goread.Database.{Article, Db, ok, Query, query}
use goread.Database.Articles.{ninety_days, subscribed_articles}
use goread.Database.Feeds.{rows}
use goread.Database.Pages.{Row, joined}

pub record Stats : Type 0 where
  pub total_articles : ℕ
  pub total_unread : ℤ
  pub active_feeds : ℕ

-- `SELECT COUNT(DISTINCT a.id) FROM articles JOIN user_feeds`; ids and subscriptions are unique.
unfoldable pub get_total_article_count : ℤ → Query ℕ
get_total_article_count user_id =
    query (λ db. ok (length (subscribed_articles db.user_feeds user_id (rows db.articles))))

-- The row is of the last ninety days and not read.
abbrev pub is_unread_row : (Article → Bool) → Row → Bool
is_unread_row since row = since row.article && not row.is_read

abbrev pub has_feed : ℤ → List Row → Bool
has_feed feed_id [] = false
has_feed feed_id (row ∷ l) = if row.article.feed_id == feed_id then true else has_feed feed_id l

-- `COUNT(DISTINCT a.feed_id)`
unfoldable pub count_feeds : List Row → ℕ
count_feeds [] = 0
count_feeds (row ∷ l) =
    if has_feed row.article.feed_id l then count_feeds l else suc (count_feeds l)

unfoldable pub unread_rows : Db → ℕ → ℤ → List Row
unread_rows db now user_id =
    select (is_unread_row (db.texts.since now)) (joined db user_id (rows db.articles))

-- One query gives the three numbers.
unfoldable pub get_account_stats : ℕ → ℤ → Query Stats
unfolding unread_rows count_feeds
get_account_stats now user_id = query (λ db. ok (record {
  total_articles = length (joined db user_id (rows db.articles));
  total_unread = pos (length (unread_rows db now user_id));
  active_feeds = count_feeds (unread_rows db now user_id);
}))

-- The loop over the unread counts of the feeds.
unfoldable pub total_of : Map ℤ ℤ → ℤ
total_of [] = pos 0
total_of ((_, count) ∷ counts) = count +ℤ total_of counts

unfoldable pub active_of : Map ℤ ℤ → ℕ
active_of [] = 0
active_of ((_, count) ∷ counts) =
    if ltb_ℤ (pos 0) count then suc (active_of counts) else active_of counts

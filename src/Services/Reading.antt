-- ===== src/Services/Reading.antt =====
-- internal/services/feed_service.go: reading and marking articles, over the store and the two caches.
-- `now` is the reading of the clock during the call.
pub mod Coherence
pub mod Counts
pub mod Stats
mod Tests
use goread.Base.{
  int_Eq, ℕ, Bool, true, false, ◌||◌, Option, none, some, List, [], ◌∷◌, if◌then◌else◌, ℤ, pos, Map,
  insert, ltb_ℤ, ◌==◌,
}
use goread.Database.{Db, Feed, DbError, Result, ok, err}
use goread.Database.Articles
use goread.Database.Articles.{get_user_unread_counts}
use goread.Database.Feeds.{unsubscribe_user_from_feed}
use goread.Cache.Unread.{UnreadCache, update_count}
use goread.Cache.Unread
use goread.Cache.FeedList.{FeedListCache}
use goread.Cache.FeedList

pub record FeedService : Type 0 where
  pub db : Db
  pub unread_cache : UnreadCache
  pub feed_list_cache : FeedListCache

-- The change of the unread cache after a successful mark; an unknown feed is not positive.
abbrev pub cache_after_mark : UnreadCache → ℕ → ℤ → ℤ → Bool → Bool → UnreadCache
cache_after_mark c now user feed was_read is_read =
    if ltb_ℤ (pos 0) feed
    then update_count c now user feed was_read is_read
    else Unread.invalidate c user

-- What follows the statement of the store.
abbrev pub finish_mark :
    FeedService
    → ℕ
    → ℤ
    → ℤ
    → Bool
    → Bool
    → Db × Result DbError (Unit {0})
    → FeedService × Result DbError (Unit {0})
finish_mark fs now user feed was_read is_read (db', err e) = (record fs { db = db' }, err e)
finish_mark fs now user feed was_read is_read (db', ok _) = (
  record fs {
    db = db';
    unread_cache = cache_after_mark fs.unread_cache now user feed was_read is_read;
  },
  ok tt,
)

unfoldable pub mark_user_article_read :
    FeedService → ℕ → ℤ → ℤ → Bool → ℤ → Bool → FeedService × Result DbError (Unit {0})
mark_user_article_read fs now user article is_read feed was_read =
    finish_mark fs now user feed was_read is_read
      (Articles.mark_user_article_read user article is_read fs.db)

-- Starring changes no cache.
unfoldable pub toggle_user_article_star :
    FeedService → ℤ → ℤ → FeedService × Result DbError (Unit {0})
toggle_user_article_star fs user article =
    let (db', r) = Articles.toggle_user_article_star user article fs.db in
    (record fs { db = db' }, r)

unfoldable pub mark_all_articles_read : FeedService → ℤ → FeedService × Result DbError ℕ
mark_all_articles_read fs user =
    let (db', r) = Articles.mark_all_user_articles_read user fs.db in
    elim r [
      | err e ↦ (record fs { db = db' }, err e)
      | ok count ↦
          (record fs { db = db'; unread_cache = Unread.invalidate fs.unread_cache user }, ok count)
    ]

unfoldable pub unsubscribe : FeedService → ℤ → ℤ → FeedService × Result DbError (Unit {0})
unsubscribe fs user feed =
    let (db', r) = unsubscribe_user_from_feed user feed fs.db in
    elim r [
      | err e ↦ (record fs { db = db' }, err e)
      | ok _ ↦ (
        record fs {
          db = db';
          unread_cache = Unread.invalidate fs.unread_cache user;
          feed_list_cache = FeedList.invalidate fs.feed_list_cache;
        },
        ok tt,
      )
    ]

abbrev pub has_feed : ℤ → List Feed → Bool
has_feed id [] = false
has_feed id (feed ∷ feeds) = feed.id == id || has_feed id feeds

-- The loop that keeps the counts of the feeds that exist.
unfoldable pub filter_counts : List Feed → Map ℤ ℤ → Map ℤ ℤ → Map ℤ ℤ
filter_counts feeds [] filtered = filtered
filter_counts feeds ((id, count) ∷ counts) filtered =
    filter_counts feeds counts (if has_feed id feeds then insert id count filtered else filtered)

unfoldable pub get_user_unread_counts_of :
    FeedService → ℕ → ℤ → List Feed → FeedService × Result DbError (Map ℤ ℤ)
get_user_unread_counts_of fs now user user_feeds =
    let (c, hit) = Unread.get fs.unread_cache now user in
    elim hit [
      | some cached ↦ (record fs { unread_cache = c }, ok cached)
      | none ↦ elim (get_user_unread_counts now user fs.db) [
        | err e ↦ (record fs { unread_cache = c }, err e)
        | ok counts ↦
            let filtered = filter_counts user_feeds counts [] in
            (record fs { unread_cache = Unread.set c now user filtered }, ok filtered)
      ]
    ]

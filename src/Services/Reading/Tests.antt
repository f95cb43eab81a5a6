-- ===== src/Services/Reading/Tests.antt =====
-- The coherence theorem at a small store whose counts are cached.
use goread.Base.{
  insert, pair_Eq, string_Eq, int_Eq, ◌≡◌, refl, true, some, [], ◌∷◌, ℤ, pos, Map, lookup, arith,
  inl, is_some, ◌&&◌,
}
use goread.Database.{Feed, ok}
use goread.Database.Tests.{small_db, article_1, day}
use goread.Database.Articles.{get_user_unread_counts, unread_counts_of, is_read_by, unread_in}
use goread.Database.Feeds.{rows, subscribed_feeds}
use goread.Cache.Unread.{new_unread_cache, get}
use goread.Cache.FeedList.{new_feed_list_cache}
use goread.Services.Reading.{
  get_user_unread_counts_of, filter_counts, has_feed, FeedService, mark_user_article_read,
}
use goread.Services.Reading.Counts.{miss-Accurate}
use goread.Services.Reading.Coherence.{Accurate, mark-Accurate}

abbrev service : FeedService
service = record {
  db = small_db;
  unread_cache = record {
    counts = (pos 5, (pos 7, pos 2) ∷ []) ∷ [];
    refresh_at = (pos 5, 100000000000000) ∷ [];
    ttl = 300000000000;
    max_users = pos 10000;
    hits = pos 0;
    misses = pos 0;
  };
  feed_list_cache = new_feed_list_cache 1;
}

service-Accurate : Accurate small_db day (pos 5) ((pos 7, pos 2) ∷ [])
unfolding lookup unread_in is_read_by
service-Accurate = record { same = λ f h. ground arith }

mark-Accurate_example :
    let after =
      mark_user_article_read service day
        (pos 5)
        (pos 1)
        true
        (pos 7)
        (is_read_by small_db.user_articles (pos 5) (pos 1)) in
    (m' : Map ℤ ℤ) × (after.1 ≡ ok tt)
    × ((get after.0.unread_cache day (pos 5)).1 ≡ some m')
    × Accurate after.0.db day (pos 5) m'
mark-Accurate_example =
    mark-Accurate service day (pos 5) article_1 true ((pos 7, pos 2) ∷ []) refl
      (((λ e. ground arith), tt), (tt, tt)) (inl refl) (unfold lookup in refl) refl
      (unfold get lookup in refl) (unfold lookup in refl)
      (unfold unread_in is_read_by lookup in omega arith) service-Accurate

abbrev feed_7 : Feed
feed_7 = record {
  id = pos 7;
  title = "Seven";
  url = "https://a.example/feed";
  description = "";
  created_at = 1;
  updated_at = 1;
  last_fetch = 1;
  last_checked = 1;
  last_had_new_content = 0;
  average_update_interval = pos 0;
  etag = "";
  last_modified = "";
}

abbrev uncached : FeedService
uncached = record service {
  db = record small_db { feeds = (pos 7, feed_7) ∷ [] };
  unread_cache = new_unread_cache 300000000000;
}

miss-Accurate_example :
    let fs' = (get_user_unread_counts_of uncached day (pos 5) (feed_7 ∷ [])).0 in
    ((f : ℤ)
      → is_some (lookup f ((pos 7, pos 2) ∷ [])) ≡ (
          has_feed f (feed_7 ∷ [])
          && has_feed f (subscribed_feeds uncached.db.user_feeds (pos 5) (rows uncached.db.feeds))))
    × Accurate fs'.db day (pos 5) ((pos 7, pos 2) ∷ [])
    × ((get fs'.unread_cache day (pos 5)).1 ≡ some ((pos 7, pos 2) ∷ []))
    × (fs'.db ≡ uncached.db)
miss-Accurate_example =
    miss-Accurate uncached day (pos 5) (feed_7 ∷ []) ((pos 7, pos 2) ∷ [])
      (unfold get new_unread_cache lookup in refl)
      (unfold get_user_unread_counts_of get_user_unread_counts unread_counts_of subscribed_feeds
          filter_counts get new_unread_cache unread_in is_read_by lookup insert in
        refl)

-- ===== src/Services/Refresh/Tests.antt =====
-- The theorems on refreshing at a small store and two fetches.
use goread.Base.{
  int_Eq, string_Eq, int_eq_iff, ℕ, ◌+◌, ◌≡◌, refl, true, false, some, [], ◌∷◌, pos, lookup, arith,
  ltb_ℤ, All, is_some, String, ◌⊎◌,
}
use goread.Database.{Db, Feed, ok, err}
use goread.Database.Articles.{article_with_url}
use goread.Database.Tests.{small_db}
use goread.Services.Refresh.{
  minute, hour, ArticleData, FeedData, save_articles, Fetch, not_modified, RefreshCounts,
  refresh_due, should_check_feed,
}
use goread.Services.Refresh.Present.{save-present}
use goread.Services.Refresh.Outcome.{refresh-no_recheck}
use goread.Cache.FeedList
use goread.Cache.FeedList.{new_feed_list_cache}
use goread.Cache.Unread.{new_unread_cache}
use goread.Services.Reading.{FeedService}
use goread.Services.Refresh.Round

abbrev checked_at : ℕ
checked_at = 1000000000000000

abbrev feed_7 : Feed
feed_7 = record {
  id = pos 7;
  title = "Seven";
  url = "https://a.example/feed";
  description = "";
  created_at = 1;
  updated_at = 1;
  last_fetch = 1;
  last_checked = checked_at;
  last_had_new_content = 0;
  average_update_interval = pos 0;
  etag = "e0";
  last_modified = "";
}

abbrev feed_db : Db
feed_db = record small_db { feeds = (pos 7, feed_7) ∷ [] }

abbrev item : String → ArticleData
item link = record {
  title = "";
  link = link;
  description = "";
  content = "";
  author = "";
  published_at = 5;
}

abbrev known_data : FeedData
known_data = record {
  title = "Seven";
  description = "";
  articles = item "https://a.example/1" ∷ item "https://a.example/2" ∷ [];
  response_etag = "e1";
  response_last_modified = "";
}

abbrev new_data : FeedData
new_data = record known_data {
  articles = item "https://a.example/3" ∷ item "https://a.example/1" ∷ [];
}

abbrev fetch_known : Fetch
fetch_known url options = ok known_data

abbrev fetch_unmodified : Fetch
fetch_unmodified url options = err not_modified

abbrev no_counts : RefreshCounts
no_counts = record { checked = 0; skipped = 0; has_new_content = 0; not_modified = 0 }

abbrev updated_feed : Feed
updated_feed = record feed_7 {
  last_had_new_content = checked_at;
  average_update_interval = pos 100;
}

save-present_example :
    All
      (λ a.
        is_some (article_with_url a.link (save_articles (pos 7) 9 new_data small_db).0.articles)
        ≡ true)
      new_data.articles
save-present_example =
    save-present (pos 7) 9 new_data small_db refl (λ n h.
      unfold lookup in ground (arith, int_eq_iff (pos 1) (pos n), int_eq_iff (pos 2) (pos n)))

refresh-no_recheck_example :
    (row' : Feed) × (lookup
        (pos 7)
        (refresh_due fetch_unmodified
          (checked_at + hour)
          (checked_at + hour)
          feed_7
          feed_db
          no_counts).0.feeds
      ≡ some row')
    × (row'.last_checked ≡ checked_at + hour)
    × (row'.url ≡ "https://a.example/feed")
    × ((should_check_feed row' (checked_at + hour + minute) ≡ false)
        ⊎ (ltb_ℤ (pos 0) row'.average_update_interval ≡ true))
refresh-no_recheck_example =
    refresh-no_recheck fetch_unmodified (checked_at + hour) (checked_at + hour)
      (checked_at + hour + minute) feed_7 feed_7 feed_db no_counts refl (unfold lookup in refl)
      (omega arith) (omega arith) (omega arith)

-- The cached row was never checked; the stored one was.
abbrev stale : Feed
stale = record feed_7 { last_checked = 0 }

abbrev stale_service : FeedService
stale_service = record {
  db = feed_db;
  unread_cache = new_unread_cache 300;
  feed_list_cache = record (new_feed_list_cache 1200) {
    feeds = some (stale ∷ []);
    refresh_at = 1000000000000009;
  };
}

-- ===== src/Services/Adding/Tests.antt =====
-- The theorems on adding feeds at a small store with one user on trial.
use goread.Base.{
  some, inl, int_Eq, pair_Eq, string_Eq, ◌≤◌, ◌≡◌, refl, true, false, ◌||◌, [], ◌∷◌, pos, lookup,
  arith,
}
use goread.Database.{Feed, User, empty_db, ok, err}
use goread.Database.Feeds.{feed_with_url, is_subscribed, count_subscriptions}
use goread.Cache.FeedList.{new_feed_list_cache}
use goread.Cache.Unread.{new_unread_cache}
use goread.Services.Reading.{FeedService}
use goread.Services.Refresh.{Fetch}
use goread.Services.Adding.{
  Discover, feed_timeout, add_feed_for_user, add_feed_for_user_internal, Import,
  import_opml_with_limits, Outlines, no_outlines, outline,
}
use goread.Services.Adding.Quota.{IsOnTrial, tells, add-is_subscribed, import-trial_limit}
use goread.Services.Adding.Marks.{add-resets_marks}
use goread.Database.Tests.{small_db, article_1}

abbrev reader : User
reader = record {
  id = pos 5;
  google_id = "g5";
  email = "five@a.example";
  name = "Five";
  avatar = "";
  created_at = 1;
  subscription_status = "trial";
  subscription_id = "";
  trial_ends_at = 1000;
  last_payment_date = 0;
  next_billing_date = 0;
  is_admin = false;
  free_months_remaining = pos 0;
  max_articles_on_feed_add = pos 100;
}

abbrev reader-IsOnTrial : IsOnTrial reader
reader-IsOnTrial = record { not_admin = refl; status = refl; no_months = refl }

abbrev service : FeedService
service = record {
  db = record empty_db { users = (pos 5, reader) ∷ [] };
  unread_cache = new_unread_cache 60;
  feed_list_cache = new_feed_list_cache 60;
}

abbrev as_given : Discover
as_given url = ok (url ∷ [])

abbrev one_article : Fetch
one_article url options = ok (record {
  title = "A feed";
  description = "";
  articles =
      record {
        title = "";
        link = "https://a.example/1";
        description = "";
        content = "";
        author = "";
        published_at = 5;
      }
      ∷ [];
  response_etag = "";
  response_last_modified = "";
})

abbrev document : Outlines
document =
    outline "" (outline "https://a.example/feed" no_outlines no_outlines)
      (outline "https://a.example/feed" no_outlines no_outlines)

abbrev import : Import
import = record {
  in_time = λ url. true;
  settled = λ url. 0;
  discover = as_given;
  fetch = one_article;
  enabled = true;
  clock = λ url. 500;
  user = pos 5;
}

add-is_subscribed_example :
    let (fs', r) =
      add_feed_for_user false as_given one_article service 500 (pos 5) "https://a.example/feed" in
    let added =
      (add_feed_for_user_internal as_given one_article service 500
        (pos 5)
        "https://a.example/feed").1 in
    (is_subscribed fs'.db.user_feeds (pos 5) (pos 1) ≡ (
      tells (pos 5) added (pos 5) (pos 1) || is_subscribed service.db.user_feeds (pos 5) (pos 1)))
    × (r ≡ err feed_timeout)
add-is_subscribed_example =
    add-is_subscribed false as_given one_article service 500 (pos 5) "https://a.example/feed"
      (pos 5) (pos 1)

import-trial_limit_example :
    count_subscriptions (pos 5) (import_opml_with_limits import service document).0.db.user_feeds
    ≤ 20
import-trial_limit_example =
    import-trial_limit import service document reader refl reader-IsOnTrial (λ url. refl)
      (unfold lookup in refl) (unfold count_subscriptions in omega arith)

abbrev known_feed : Feed
known_feed = record {
  id = pos 7;
  title = "Seven";
  url = "https://a.example/feed";
  description = "";
  created_at = 1;
  updated_at = 1;
  last_fetch = 1;
  last_checked = 1;
  last_had_new_content = 0;
  average_update_interval = pos 0;
  etag = "";
  last_modified = "";
}

abbrev unlimited_reader : User
unlimited_reader = record reader { max_articles_on_feed_add = pos 0 }

-- The reader has starred the first article of the feed.
abbrev reading : FeedService
reading = record service {
  db = record small_db { users = (pos 5, unlimited_reader) ∷ []; feeds = (pos 7, known_feed) ∷ [] };
}

add-resets_marks_example :
    lookup
      (pos 5, pos 1)
      (add_feed_for_user true as_given one_article reading 500
        (pos 5)
        "https://a.example/feed").0.db.user_articles
    ≡ some (record { is_read = false; is_starred = false })
add-resets_marks_example =
    add-resets_marks true as_given one_article reading 500 (pos 5) "https://a.example/feed"
      "https://a.example/feed" [] unlimited_reader known_feed article_1 refl refl
      (unfold feed_with_url in refl) (unfold lookup in refl) refl (inl refl) refl

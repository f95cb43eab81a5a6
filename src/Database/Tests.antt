-- ===== src/Database/Tests.antt =====
-- A small store, runs of the statements on it, and the theorems at it.
use goread.Base.{int_Eq, pair_Eq, string_Eq, ℕ, ◌≡◌, refl, true, false, [], ◌∷◌, pos, lookup}
use goread.Database.{Db, Feed, Article, empty_db, ok}
use goread.Database.Articles.{add_article, article_with_url, unread_in, is_read_by}
use goread.Database.Feeds.{rows}

abbrev pub day : ℕ
day = 86400000000000

abbrev pub feed_7 : Feed
feed_7 = record {
  id = pos 7;
  title = "Seven";
  url = "https://a.example/feed";
  description = "";
  created_at = 1;
  updated_at = 1;
  last_fetch = 1;
  last_checked = 1;
  last_had_new_content = 1;
  average_update_interval = pos 0;
  etag = "";
  last_modified = "";
}

abbrev pub article_1 : Article
article_1 = record {
  id = pos 1;
  feed_id = pos 7;
  title = "One";
  url = "https://a.example/1";
  content = "";
  description = "";
  author = "";
  published_at = day;
  created_at = day;
}

abbrev pub article_2 : Article
article_2 = record article_1 { id = pos 2; url = "https://a.example/2" }

-- User 5 reads feed 7, which has two articles, and has starred the first.
abbrev pub small_db : Db
small_db = record empty_db {
  articles = (pos 1, article_1) ∷ (pos 2, article_2) ∷ [];
  user_feeds = ((pos 5, pos 7), tt) ∷ [];
  user_articles = ((pos 5, pos 1), record { is_read = false; is_starred = true }) ∷ [];
  next_article = 3;
}

two_unread :
    unread_in small_db.user_articles
      (small_db.texts.since day)
      (pos 5)
      (pos 7)
      (rows small_db.articles)
    ≡ 2
unfolding unread_in is_read_by lookup
two_unread = refl

-- An article whose URL another feed has already is not stored, and no error is reported.
same_url_other_feed :
    add_article (record article_2 { feed_id = pos 8 }) small_db ≡ (small_db, ok (pos 2))
unfolding add_article article_with_url
same_url_other_feed = refl

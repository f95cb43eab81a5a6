-- ===== src/Datastore/Feeds.antt =====
-- internal/database/datastore.go: the methods on feeds and articles. The zero time is 0.
use goread.Base.{
  int_Eq, string_Eq, ℕ, ◌+◌, ◌&&◌, String, Option, none, some, ℤ, pos, Map, lookup, insert, delete,
  if◌then◌else◌, ◌==◌, nat_eq, leb, List, [], ◌∷◌,
}
use goread.Database.{Feed, Article, ok}
use goread.Database.Feeds.{rows, feed_with_url}
use goread.Database.Articles.{article_with_url, articles_by_date, contains, ninety_days}
use goread.Datastore.{
  Ds, ◌>>=◌, ◌>>◌, pure, call, query_entities, write_entities, get_entity, delete_all, micro,
}

-- The feed as it is stored.
abbrev pub feed_in_micros : Feed → Feed
feed_in_micros feed = record feed {
  created_at = micro feed.created_at;
  updated_at = micro feed.updated_at;
  last_fetch = micro feed.last_fetch;
  last_checked = micro feed.last_checked;
  last_had_new_content = micro feed.last_had_new_content;
}

-- The service picks an id that no entity of the kind has. No property of the feed is unique.
unfoldable pub add_feed : Feed → Ds ℤ
add_feed feed = call (λ db.
    let id = pos db.next_feed in
    (
      record db {
        feeds = insert id (record (feed_in_micros feed) { id = id }) db.feeds;
        next_feed = db.next_feed + 1;
      },
      ok id,
    ))

abbrev pub put_feed : ℤ → Feed → Ds (Unit {0})
put_feed feed_id feed = write_entities (λ db. record db { feeds = insert feed_id feed db.feeds })

-- A `Get` and a `Put`, which is what the methods that change one feed do.
unfoldable pub change_feed : ℤ → (Feed → Feed) → Ds (Unit {0})
change_feed feed_id f = do feed ← get_entity (λ db. db.feeds) feed_id; put_feed feed_id (f feed)

unfoldable pub update_feed : ℕ → Feed → Ds (Unit {0})
unfolding change_feed
update_feed now feed = change_feed feed.id (λ existing. record existing {
  title = feed.title;
  description = feed.description;
  updated_at = micro now;
})

-- The zero time leaves the last new content as it is.
abbrev pub unless_zero : ℕ → ℕ → ℕ
unless_zero time old = if nat_eq time 0 then old else micro time

unfoldable pub update_feed_tracking : ℤ → ℕ → ℕ → ℤ → Ds (Unit {0})
unfolding change_feed
update_feed_tracking feed_id last_checked last_had_new_content average_update_interval =
    change_feed feed_id (λ feed. record feed {
      last_checked = micro last_checked;
      last_had_new_content = unless_zero last_had_new_content feed.last_had_new_content;
      average_update_interval = average_update_interval;
    })

unfoldable pub update_feed_cache_headers : ℤ → String → String → Ds (Unit {0})
unfolding change_feed
update_feed_cache_headers feed_id etag last_modified =
    change_feed feed_id (λ feed. record feed { etag = etag; last_modified = last_modified })

unfoldable pub update_feed_last_fetch : ℤ → ℕ → Ds (Unit {0})
unfolding change_feed
update_feed_last_fetch feed_id last_fetch =
    change_feed feed_id (λ feed. record feed { last_fetch = micro last_fetch })

unfoldable pub update_feed_after_refresh : ℤ → ℕ → ℕ → ℤ → ℕ → String → String → Ds (Unit {0})
unfolding change_feed
update_feed_after_refresh feed_id last_checked last_had_new_content average_update_interval
      last_fetch etag last_modified =
    change_feed feed_id (λ feed. record feed {
      last_checked = micro last_checked;
      last_had_new_content = unless_zero last_had_new_content feed.last_had_new_content;
      average_update_interval = average_update_interval;
      last_fetch = micro last_fetch;
      etag = etag;
      last_modified = last_modified;
    })

-- The query orders by title; the order of the entities is left open here.
unfoldable pub get_feeds : Ds (List Feed)
get_feeds = query_entities (λ db. rows db.feeds)

unfoldable pub get_feed_by_url : String → Ds (Option Feed)
get_feed_by_url url = query_entities (λ db. feed_with_url url db.feeds)

abbrev with_id : ℤ → Option Feed → Option Feed
with_id feed_id none = none
with_id feed_id (some feed) = some (record feed { id = feed_id })

-- A missing feed is no error.
unfoldable pub get_feed_by_id : ℤ → Ds (Option Feed)
get_feed_by_id feed_id = query_entities (λ db. with_id feed_id (lookup feed_id db.feeds))

-- The ids of the articles of a feed.
unfoldable pub article_ids : ℤ → Map ℤ Article → List ℤ
article_ids feed_id [] = []
article_ids feed_id ((id, article) ∷ m) =
    let rest = article_ids feed_id m in if article.feed_id == feed_id then id ∷ rest else rest

abbrev delete_articles : List ℤ → Ds (Unit {0})
delete_articles [] = pure tt
delete_articles (id ∷ ids) =
    write_entities (λ db. record db { articles = delete_all (id ∷ ids) db.articles })

-- The feed, then its articles; the subscriptions and the marks of users stay.
unfoldable pub delete_feed : ℤ → Ds (Unit {0})
unfolding article_ids
delete_feed id = do
  write_entities (λ db. record db { feeds = delete id db.feeds })
  ids ← query_entities (λ db. article_ids id db.articles)
  delete_articles ids

-- The article as it is stored.
abbrev article_in_micros : Article → Article
article_in_micros article = record article {
  published_at = micro article.published_at;
  created_at = micro article.created_at;
}

abbrev put_new_article : Article → Ds ℤ
put_new_article article = call (λ db.
    let id = pos db.next_article in
    (
      record db {
        articles = insert id (record (article_in_micros article) { id = id }) db.articles;
        next_article = db.next_article + 1;
      },
      ok id,
    ))

abbrev known_or_new : Article → Option Article → Ds ℤ
known_or_new article none = put_new_article article
known_or_new article (some known) = pure known.id

-- A query of the URL, then a `Put` unless there is an article with it, whatever its feed.
unfoldable pub add_article : Article → Ds ℤ
unfolding article_with_url
add_article article = do
  known ← query_entities (λ db. article_with_url article.url db.articles)
  known_or_new article known

unfoldable pub get_articles : ℤ → Ds (List Article)
get_articles feed_id = query_entities (λ db. articles_by_date feed_id (rows db.articles))

unfoldable pub find_article_by_url : String → Ds (Option Article)
find_article_by_url url = query_entities (λ db. article_with_url url db.articles)

-- The URLs among the given ones that an article of the feed has which was created since the cutoff.
unfoldable pub recent_urls : ℤ → ℕ → List String → List Article → List String
recent_urls feed_id now urls [] = []
recent_urls feed_id now urls (article ∷ articles) =
    let rest = recent_urls feed_id now urls articles in
    if article.feed_id == feed_id
      && (leb (micro now) (article.created_at + ninety_days) && contains article.url urls)
    then article.url ∷ rest
    else rest

-- The map of the source holds `true` for each URL of this list.
unfoldable pub filter_existing_article_urls : ℕ → ℤ → List String → Ds (List String)
unfolding recent_urls
filter_existing_article_urls now feed_id [] = pure []
filter_existing_article_urls now feed_id (url ∷ urls) =
    query_entities (λ db. recent_urls feed_id now (url ∷ urls) (rows db.articles))

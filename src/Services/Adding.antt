-- ===== src/Services/Adding.antt =====
-- internal/services/feed_service.go: adding feeds, one at a time and from an OPML document. `discover`
-- is what `DiscoverFeedURL` returns and `fetch` what `fetchFeed` returns, both over the network; `now`
-- is the reading of the clock.
pub mod Frame
pub mod Quota
pub mod Urls
pub mod Marks
mod Tests
use goread.Base.{
  int_Eq, string_Eq, ℕ, suc, ◌+◌, Bool, true, false, ◌||◌, not, ◌&&◌, String, Option, none, some,
  List, [], ◌∷◌, ◌++◌, if◌then◌else◌, ℤ, pos, take, map, length, ◌==◌,
}
use goread.Database.{Db, User, Feed, Article, DbError, Result, ok, err}
use goread.Database.Users.{get_user_by_id}
use goread.Database.Articles.{get_articles, batch_set_user_article_status, contains}
use goread.Database.Feeds.{add_feed, get_feed_by_url, subscribe_user_to_feed, get_user_feeds}
use goread.Cache.Unread
use goread.Cache.FeedList
use goread.Services.Reading.{FeedService}
use goread.Services.Refresh.{
  FetchError, FeedData, FetchOptions, Fetch, SaveError, save_articles, save_articles_with_limit,
}
use goread.Services.Subscription.{AddError, can_user_add_feed}

pub data ServiceError : Type 0 where
  invalid_url feed_not_found feed_timeout database_error : ServiceError
  fetch_error : FetchError → ServiceError
  limit_error : AddError → ServiceError

abbrev pub Discover : Type 0
Discover = String → Result ServiceError (List String)

unfoldable pub save_failed : Db × Result SaveError ℕ → Feed → Db × Result ServiceError Feed
save_failed (db, err _) feed = (db, err database_error)
save_failed (db, ok _) feed = (db, ok feed)

-- The feed that `AddFeed` stores; its times are all `now`.
abbrev pub checked_feed : String → ℕ → FeedData → Feed
checked_feed url now feed_data = record {
  id = pos 0;
  title = feed_data.title;
  url = url;
  description = feed_data.description;
  created_at = now;
  updated_at = now;
  last_fetch = now;
  last_checked = now;
  last_had_new_content = now;
  average_update_interval = pos 0;
  etag = "";
  last_modified = "";
}

unfoldable pub add_feed_of : Fetch → ℕ → String → Db → Db × Result ServiceError Feed
add_feed_of fetch now url db = elim (fetch url none) [
  | err e ↦ (db, err (fetch_error e))
  | ok feed_data ↦
      let (db', added) = add_feed (checked_feed url now feed_data) db in
      elim added [
        | err _ ↦ (db', err database_error)
        | ok feed ↦ save_failed (save_articles feed.id now feed_data db') feed
      ]
]

-- The articles whose row is written for a new subscriber; 0 or less is no limit.
abbrev pub limited : ℤ → List Article → List Article
limited (pos (suc n)) articles = take (suc n) articles
limited _ articles = articles

unfoldable pub mark_existing_articles_as_unread : ℤ → ℤ → Db → Db × Result DbError (Unit {0})
mark_existing_articles_as_unread user feed db = elim (get_user_by_id user db) [
  | err e ↦ (db, err e)
  | ok u ↦ elim (get_articles feed db) [
    | err e ↦ (db, err e)
    | ok articles ↦
        batch_set_user_article_status user (limited u.max_articles_on_feed_add articles) false false
          db
  ]
]

-- The last part of adding: the subscription, then the read marks, whose failure is only logged, then the
-- two caches.
unfoldable pub finish_adding : FeedService → ℤ → Feed → FeedService × Result ServiceError Feed
finish_adding fs user feed =
    let (db, subscribed) = subscribe_user_to_feed user feed.id fs.db in
    elim subscribed [
      | err _ ↦ (record fs { db = db }, err database_error)
      | ok _ ↦ (
        record fs {
          db = (mark_existing_articles_as_unread user feed.id db).0;
          unread_cache = Unread.invalidate fs.unread_cache user;
          feed_list_cache = FeedList.invalidate fs.feed_list_cache;
        },
        ok feed,
      )
    ]

-- A feed that no user added before: it has never been checked.
unfoldable pub save_new_feed :
    ℕ → ℤ → FeedData → Db × Result DbError Feed → Db × Result ServiceError Feed
save_new_feed now user feed_data (db, err _) = (db, err database_error)
save_new_feed now user feed_data (db, ok feed) = elim (get_user_by_id user db) [
  | err _ ↦ (db, err database_error)
  | ok u ↦
      save_failed (save_articles_with_limit feed.id now feed_data u.max_articles_on_feed_add db)
        feed
]

unfoldable pub create_feed : Fetch → ℕ → ℤ → String → Db → Db × Result ServiceError Feed
create_feed fetch now user url db = elim (fetch url none) [
  | err e ↦ (db, err (fetch_error e))
  | ok feed_data ↦ save_new_feed now user feed_data (
      add_feed
        (record (checked_feed url now feed_data) { last_checked = 0; last_had_new_content = 0 }) db)
]

unfoldable pub find_or_create : Fetch → ℕ → ℤ → String → Db → Db × Result ServiceError Feed
find_or_create fetch now user url db = elim (get_feed_by_url url db) [
  | err _ ↦ (db, err database_error)
  | ok none ↦ create_feed fetch now user url db
  | ok (some feed) ↦ (db, ok feed)
]

unfoldable pub subscribe_found :
    FeedService → ℤ → Db × Result ServiceError Feed → FeedService × Result ServiceError Feed
subscribe_found fs user (db, err e) = (record fs { db = db }, err e)
subscribe_found fs user (db, ok feed) = finish_adding (record fs { db = db }) user feed

unfoldable pub add_feed_for_user_internal :
    Discover → Fetch → FeedService → ℕ → ℤ → String → FeedService × Result ServiceError Feed
add_feed_for_user_internal discover fetch fs now user input = elim (discover input) [
  | err e ↦ (fs, err e)
  | ok [] ↦ (fs, err feed_not_found)
  | ok (url ∷ _) ↦ subscribe_found fs user (find_or_create fetch now user url fs.db)
]

-- `in_time` says that the goroutine which adds the feed is done, and is seen to be, within 15 seconds. Else
-- the answer is the timeout; the goroutine is not stopped, and the service is that which it leaves. Its
-- requests may fail by then, as `discover` and `fetch` say.
unfoldable pub add_feed_for_user :
    Bool → Discover → Fetch → FeedService → ℕ → ℤ → String → FeedService × Result ServiceError Feed
add_feed_for_user in_time discover fetch fs now user input =
    let (fs', r) = add_feed_for_user_internal discover fetch fs now user input in
    (fs', if in_time then r else err feed_timeout)

-- The outlines of an OPML document: the URL of the first, the outlines nested in it, and the others.
pub data Outlines : Type 0 where
  no_outlines : Outlines
  outline : String → Outlines → Outlines → Outlines

unfoldable pub extract_feeds : Outlines → List String
extract_feeds no_outlines = []
extract_feeds (outline url nested others) =
    let rest = extract_feeds nested ++ extract_feeds others in
    if url == "" then rest else url ∷ rest

-- `seen` are the URLs that were put out before.
unfoldable pub deduplicate : List String → List String → List String
deduplicate seen [] = []
deduplicate seen (url ∷ urls) = elim (not (url == "") && not (contains url seen)) [
  | true ↦ url ∷ deduplicate (url ∷ seen) urls
  | false ↦ deduplicate seen urls
]

unfoldable pub deduplicate_feed_urls : List String → List String
deduplicate_feed_urls = deduplicate []

-- What is the same for all rounds of an import: `enabled` is `config.IsSubscriptionEnabled()`, and
-- `clock` the reading of the clock while a URL is processed,
-- for which `in_time` says whether the goroutine is done in time. `settled` is how many of the late
-- goroutines, of which the oldest come first, are done before the check for a URL.
pub record Import : Type 0 where
  pub in_time : String → Bool
  pub settled : String → ℕ
  pub discover : Discover
  pub fetch : Fetch
  pub enabled : Bool
  pub clock : String → ℕ
  pub user : ℤ

abbrev pub is_added : Result ServiceError Feed → Bool
is_added (ok _) = true
is_added (err _) = false

-- The oldest of the late goroutines finish their work; the result has those that are left.
unfoldable pub settle : Import → ℕ → FeedService → List String → FeedService × List String
settle i (suc n) fs (url ∷ late) =
    settle i n (add_feed_for_user_internal i.discover i.fetch fs (i.clock url) i.user url).0 late
settle i _ fs late = (fs, late)

-- The loop of `ImportOPMLWithLimits`; `existing` are the URLs of the user's feeds, and `late` those whose
-- goroutines are not done. The result is the service when all of them are done, and the number of imported
-- feeds, with the error that ended the loop early.
unfoldable pub import_loop :
    Import
    → FeedService
    → List String
    → List String
    → List String
    → ℕ
    → FeedService × (ℕ × Option ServiceError)
import_loop i fs existing late [] n = ((settle i (length late) fs late).0, (n, none))
import_loop i fs existing late (url ∷ urls) n = elim (contains url existing) [
  | true ↦ import_loop i fs existing late urls n
  | false ↦
      let (fs, late) = settle i (i.settled url) fs late in
      elim (can_user_add_feed i.enabled (i.clock url) i.user fs.db) [
        | err e ↦ ((settle i (length late) fs late).0, (n, some (limit_error e)))
        | ok _ ↦ elim (i.in_time url) [
          | false ↦ import_loop i fs existing (late ++ url ∷ []) urls n
          | true ↦
              let (fs', added) =
                add_feed_for_user true i.discover i.fetch fs (i.clock url) i.user url in
              import_loop i fs' (if is_added added then url ∷ existing else existing) late urls
                (if is_added added then suc n else n)
        ]
      ]
]

-- The document is read by the XML parser, and is given as its outlines.
unfoldable pub import_opml_with_limits :
    Import → FeedService → Outlines → FeedService × (ℕ × Option ServiceError)
import_opml_with_limits i fs outlines = elim (get_user_feeds i.user fs.db) [
  | err _ ↦ (fs, (0, some database_error))
  | ok feeds ↦
      import_loop i fs (map (λ f. f.url) feeds) [] (deduplicate_feed_urls (extract_feeds outlines))
        0
]

-- ===== src/Services/Refresh.antt =====
-- internal/services/feed_service.go: which feeds a refresh checks, how their articles are saved and
-- what is written about them. Times are nanoseconds since the zero `time.Time`, durations are
-- nanoseconds.
pub mod Due
pub mod Average
pub mod Save
pub mod Present
pub mod Outcome
pub mod Round
mod Tests
use goread.Base.{
  string_Eq, int_Eq, ℕ, suc, ◌+◌, ◌*◌, Bool, true, false, ◌&&◌, ◌||◌, not, String, Option, none,
  some, List, [], ◌∷◌, ◌++◌, if◌then◌else◌, ℤ, pos, Map, insert, ltb, leb, nat_eq, ltb_ℤ, leb_ℤ,
  length, take, wrap, ◌+ℤ◌, div_ℕ, mul_ℕ, since, ◌==◌, map,
}
use goread.Database.{Db, Feed, Article, DbError, Result, ok, err, Exec}
use goread.Database.Articles.{add_article, filter_existing_article_urls, contains}
use goread.Database.Feeds
use goread.Database.Feeds.{rows, get_feeds, subscribed_feeds}

abbrev pub minute : ℕ
minute = 60000000000

abbrev pub hour : ℕ
hour = 3600000000000

abbrev pub day : ℕ
day = 86400000000000

-- With no history: by how long ago the feed last had new content.
unfoldable pub default_due : Feed → ℕ → ℤ → Bool
default_due feed now since_check =
    if nat_eq feed.last_had_new_content 0
    then leb_ℤ (pos hour) since_check
    else let since_new = since now feed.last_had_new_content in
      if ltb_ℤ since_new (pos (7 * day))
      then leb_ℤ (pos (30 * minute)) since_check
      else if ltb_ℤ since_new (pos (30 * day))
      then leb_ℤ (pos hour) since_check
      else leb_ℤ (pos (6 * hour)) since_check

-- `time.Duration(feed.AverageUpdateInterval) * time.Second / 2`
unfoldable pub half_interval : ℤ → ℤ
half_interval average = div_ℕ (wrap (mul_ℕ average 1000000000)) 2

unfoldable pub should_check_feed : Feed → ℕ → Bool
should_check_feed feed now =
    if nat_eq feed.last_checked 0
    then true
    else let since_check = since now feed.last_checked in
      if ltb_ℤ (pos 0) feed.average_update_interval
      then leb_ℤ (half_interval feed.average_update_interval) since_check
      else default_due feed now since_check

-- `int(now.Sub(t).Seconds())`; the seconds are a float in the source, and exact here.
unfoldable pub seconds_since : ℕ → ℕ → ℤ
seconds_since now t = div_ℕ (since now t) 1000000000

-- The weighted average of the old interval and the new one.
unfoldable pub weighted : ℤ → ℤ → ℤ
weighted average interval = div_ℕ (wrap (wrap (mul_ℕ average 7) +ℤ wrap (mul_ℕ interval 3))) 10

unfoldable pub next_average : Feed → ℕ → ℤ
next_average feed now =
    let interval = seconds_since now feed.last_had_new_content in
    if nat_eq feed.last_had_new_content 0
    then feed.average_update_interval
    else if ltb_ℤ (pos 0) feed.average_update_interval
    then weighted feed.average_update_interval interval
    else interval

-- The two tracking fields after a check: the last time with new content, and the average.
unfoldable pub tracking : Feed → ℕ → Bool → ℕ × ℤ
tracking feed now had_new_content =
    if had_new_content
    then (now, next_average feed now)
    else (feed.last_had_new_content, feed.average_update_interval)

unfoldable pub update_feed_tracking : Feed → ℕ → Bool → Exec (Unit {0})
update_feed_tracking feed now had_new_content =
    let (last_had, average) = tracking feed now had_new_content in
    Feeds.update_feed_tracking feed.id now last_had average

unfoldable pub update_feed_after_refresh_success :
    Feed → ℕ → Bool → ℕ → String → String → Exec (Unit {0})
update_feed_after_refresh_success feed now had_new_content last_fetch etag last_modified =
    let (last_had, average) = tracking feed now had_new_content in
    Feeds.update_feed_after_refresh feed.id now last_had average last_fetch etag last_modified

pub record ArticleData : Type 0 where
  pub title : String
  pub link : String
  pub description : String
  pub content : String
  pub author : String
  pub published_at : ℕ

pub record FeedData : Type 0 where
  pub title : String
  pub description : String
  pub articles : List ArticleData
  pub response_etag : String
  pub response_last_modified : String

-- `sort.Slice` by `PublishedAt`, the latest first.
unfoldable pub insert_sorted : ArticleData → List ArticleData → List ArticleData
insert_sorted a [] = a ∷ []
insert_sorted a (b ∷ l) =
    if ltb a.published_at b.published_at then b ∷ insert_sorted a l else a ∷ b ∷ l

unfoldable pub sort_articles : List ArticleData → List ArticleData
sort_articles [] = []
sort_articles (a ∷ l) = insert_sorted a (sort_articles l)

-- The articles that the limit admits; 0 or less is no limit.
unfoldable pub articles_to_save : List ArticleData → ℤ → List ArticleData
articles_to_save articles (pos (suc n)) = take (suc n) articles
articles_to_save articles _ = articles

abbrev pub article_of : ℤ → ℕ → ArticleData → Article
article_of feed_id now a = record {
  id = pos 0;
  feed_id = feed_id;
  title = a.title;
  url = a.link;
  content = a.content;
  description = a.description;
  author = a.author;
  published_at = a.published_at;
  created_at = now;
}

abbrev pub count_saved : Result DbError ℤ → ℕ → ℕ
count_saved (ok _) saved = suc saved
count_saved (err _) saved = saved

-- The loop that adds the articles; an article that fails is passed over.
unfoldable pub save_loop : ℤ → ℕ → List String → List ArticleData → Db → ℕ → Db × ℕ
save_loop feed_id now existing [] db saved = (db, saved)
save_loop feed_id now existing (a ∷ l) db saved =
    let (db', r) = add_article (article_of feed_id now a) db in
    save_loop feed_id now existing l (if contains a.link existing then db else db')
      (if contains a.link existing then saved else count_saved r saved)

-- A failed batch check counts as no existing URL.
abbrev pub or_empty : Result DbError (List String) → List String
or_empty (ok urls) = urls
or_empty (err _) = []

pub data SaveError : Type 0 where
  none_saved : SaveError

abbrev pub is_empty {ℓ} : {A : Type ℓ} → List A → Bool
is_empty [] = true
is_empty (_ ∷ _) = false

unfoldable pub save_articles_with_limit : ℤ → ℕ → FeedData → ℤ → Db → Db × Result SaveError ℕ
save_articles_with_limit feed_id now feed_data max_articles db =
    let to_save = articles_to_save (sort_articles feed_data.articles) max_articles in
    let existing = or_empty (filter_existing_article_urls feed_id (map (λ a. a.link) to_save) db) in
    let (db', saved) = save_loop feed_id now existing to_save db 0 in
    (db', if nat_eq saved 0 && not (is_empty to_save) then err none_saved else ok saved)

unfoldable pub save_articles : ℤ → ℕ → FeedData → Db → Db × Result SaveError ℕ
save_articles feed_id now feed_data = save_articles_with_limit feed_id now feed_data (pos 0)

pub data FetchError : Type 0 where
  not_modified other_error : FetchError

-- The headers of a conditional request.
pub record FetchOptions : Type 0 where
  pub etag : String
  pub last_modified : String

-- What `fetchFeed` returns for a URL, over the network.
abbrev pub Fetch : Type 0
Fetch = String → Option FetchOptions → Result FetchError FeedData

unfoldable pub fetch_options : Feed → Option FetchOptions
fetch_options feed =
    if feed.etag == "" && feed.last_modified == ""
    then none
    else some (record { etag = feed.etag; last_modified = feed.last_modified })

pub record RefreshCounts : Type 0 where
  pub checked : ℕ
  pub skipped : ℕ
  pub has_new_content : ℕ
  pub not_modified : ℕ

abbrev pub or_old : String → String → String
or_old new old = if new == "" then old else new

-- After a fetch that returned a feed: `now` is read once for the refresh, `at` for the writes.
unfoldable pub finish_refresh :
    ℕ → ℕ → Feed → FeedData → Db × Result SaveError ℕ → RefreshCounts → Db × RefreshCounts
finish_refresh now at feed feed_data (db, err _) n = ((update_feed_tracking feed at false db).0, n)
finish_refresh now at feed feed_data (db, ok saved) n = (
  (update_feed_after_refresh_success feed at (ltb 0 saved) now
      (or_old feed_data.response_etag feed.etag)
      (or_old feed_data.response_last_modified feed.last_modified) db).0,
  if ltb 0 saved then record n { has_new_content = n.has_new_content + 1 } else n,
)

-- The cases of what `fetchFeed` returned.
unfoldable pub after_fetch :
    ℕ → ℕ → Feed → Db → RefreshCounts → Result FetchError FeedData → Db × RefreshCounts
after_fetch now at feed db n (ok feed_data) =
    finish_refresh now at feed feed_data (save_articles feed.id at feed_data db) n
after_fetch now at feed db n (err not_modified) =
    ((update_feed_tracking feed at false db).0, record n { not_modified = n.not_modified + 1 })
after_fetch now at feed db n (err other_error) = ((update_feed_tracking feed at false db).0, n)

-- One round of the loop of `RefreshFeeds`.
unfoldable pub refresh_due : Fetch → ℕ → ℕ → Feed → Db → RefreshCounts → Db × RefreshCounts
refresh_due fetch now at feed db n =
    after_fetch now at feed db (record n { checked = n.checked + 1 })
      (fetch feed.url (fetch_options feed))

unfoldable pub refresh_feed : Fetch → ℕ → ℕ → Feed → Db → RefreshCounts → Db × RefreshCounts
refresh_feed fetch now at feed db n =
    if should_check_feed feed now
    then refresh_due fetch now at feed db n
    else (db, record n { skipped = n.skipped + 1 })

-- The map from URL to feed: later feeds replace earlier ones.
unfoldable pub add_by_url : List Feed → Map String Feed → Map String Feed
add_by_url [] m = m
add_by_url (feed ∷ feeds) m = add_by_url feeds (insert feed.url feed m)

-- `clock` is the reading of the clock while a URL is processed.
unfoldable pub refresh_loop :
    Fetch → ℕ → (String → ℕ) → List Feed → Db → RefreshCounts → Db × RefreshCounts
refresh_loop fetch now clock [] db n = (db, n)
refresh_loop fetch now clock (feed ∷ feeds) db n =
    let (db', n') = refresh_feed fetch now (clock feed.url) feed db n in
    refresh_loop fetch now clock feeds db' n'

-- ===== src/Services/Refresh/Outcome.antt =====
-- internal/services/feed_service.go: what a refresh leaves in the row of a feed.
use goread.Base.{
  string_Eq, int_Eq, int_eq_iff, ℕ, ◌+◌, ◌-◌, ◌*◌, ◌≤◌, ◌<◌, ◌≡◌, refl, ap, ◌∙◌, Bool, true, false,
  String, some, List, [], ◌∷◌, if◌then◌else◌, ℤ, pos, ltb, length, arith, Bool-cases, inl, inr, ◌⊎◌,
  All, lookup-insert, lookup, ltb_ℤ,
}
use goread.Database.{Db, Feed, Article, Result, ok, err}
use goread.Database.Articles.{add_article, contains}
use goread.Database.Feeds
use goread.Database.Feeds.{rows, update_feed_row}
use goread.Services.Refresh.{
  minute, ArticleData, FeedData, article_of, save_loop, save_articles_with_limit, save_articles,
  SaveError, none_saved, is_empty, after_fetch, FetchError, not_modified, other_error, Fetch,
  fetch_options, RefreshCounts, refresh_due, refresh_feed, refresh_loop, finish_refresh,
  should_check_feed, update_feed_tracking, update_feed_after_refresh_success, tracking,
}
use goread.Services.Refresh.Due.{no_history-bounds}
use goread.Services.Refresh.Save.{stored_in, save_known-fails}

-- Saving articles leaves the feeds alone.
feeds-add :
    (a : Article) (db : Db)
    → ((add_article a db).0.feeds ≡ db.feeds) × ((add_article a db).0.up ≡ db.up)
unfolding add_article
feeds-add a db = (ground arith, ground arith)

feeds-save_loop :
    (feed_id : ℤ) (now : ℕ) (existing : List String) (l : List ArticleData) (db : Db) (saved : ℕ)
    → let db' = (save_loop feed_id now existing l db saved).0 in
      (db'.feeds ≡ db.feeds) × (db'.up ≡ db.up)
unfolding save_loop
feeds-save_loop feed_id now existing [] db saved = (refl, refl)
feeds-save_loop feed_id now existing (a ∷ l) db saved =
    let added = feeds-add (article_of feed_id now a) db in
    let db' =
      if contains a.link existing then db else (add_article (article_of feed_id now a) db).0 in
    let rest = feeds-save_loop feed_id now existing l db' _ in
    let same_feeds : db'.feeds ≡ db.feeds = ground (arith, added.0) in
    let same_up : db'.up ≡ db.up = ground (arith, added.1) in
    (rest.0 ∙ same_feeds, rest.1 ∙ same_up)

feeds-save :
    (feed_id : ℤ) (now : ℕ) (fetched : FeedData) (db : Db)
    → let db' = (save_articles feed_id now fetched db).0 in
      (db'.feeds ≡ db.feeds) × (db'.up ≡ db.up)
unfolding save_articles save_articles_with_limit
feeds-save feed_id now fetched db = feeds-save_loop feed_id now _ _ db 0

-- The row of a feed after an update, as the driver answers.
lookup-update_row :
    (id : ℤ) (f : Feed → Feed) (db : Db) (row : Feed)
    → db.up ≡ true
    → lookup id db.feeds ≡ some row
    → lookup id (update_feed_row id f db).0.feeds ≡ some (f row)
unfolding update_feed_row
lookup-update_row id f db row up found =
    ground (arith, up, found, lookup-insert id id (f row) db.feeds, int_eq_iff id id)

-- A checked row: its last check is the time of the write, and its URL is as before.
record IsChecked (at : ℕ) (row row' : Feed) : Type 0 where
  last_checked : row'.last_checked ≡ at
  url : row'.url ≡ row.url

module _ (feed : Feed) (now at : ℕ) (db : Db) (row : Feed) (up : db.up ≡ true)
    (found : lookup feed.id db.feeds ≡ some row) where
  tracked :
      (had_new : Bool)
      → (row' : Feed) × (lookup feed.id (update_feed_tracking feed at had_new db).0.feeds
          ≡ some row')
        × IsChecked at row row'
  unfolding update_feed_tracking Feeds.update_feed_tracking
  tracked had_new =
      (_, lookup-update_row feed.id _ db row up found, record { last_checked = refl; url = refl })

  refreshed :
      (had_new : Bool) (etag last_modified : String)
      → (row' : Feed) × (lookup feed.id
            (update_feed_after_refresh_success feed at had_new now etag last_modified db).0.feeds
          ≡ some row')
        × IsChecked at row row'
  unfolding update_feed_after_refresh_success Feeds.update_feed_after_refresh
  refreshed had_new etag last_modified =
      (_, lookup-update_row feed.id _ db row up found, record { last_checked = refl; url = refl })

finish-IsChecked :
    (now at : ℕ) (feed : Feed) (fetched : FeedData) (db : Db) (r : Result SaveError ℕ)
    (n : RefreshCounts) (row : Feed)
    → db.up ≡ true
    → lookup feed.id db.feeds ≡ some row
    → (row' : Feed) × (lookup feed.id (finish_refresh now at feed fetched (db, r) n).0.feeds
        ≡ some row')
      × IsChecked at row row'
unfolding finish_refresh
finish-IsChecked now at feed fetched db (ok saved) n row up found =
    refreshed feed now at db row up found (ltb 0 saved) _ _
finish-IsChecked now at feed fetched db (err none_saved) n row up found =
    tracked feed now at db row up found false

after_fetch-IsChecked :
    (now at : ℕ) (feed : Feed) (db : Db) (n : RefreshCounts) (row : Feed)
    (r : Result FetchError FeedData)
    → db.up ≡ true
    → lookup feed.id db.feeds ≡ some row
    → (row' : Feed) × (lookup feed.id (after_fetch now at feed db n r).0.feeds ≡ some row')
      × IsChecked at row row'
unfolding after_fetch
after_fetch-IsChecked now at feed db n row (ok fetched) up found =
    let saved = save_articles feed.id at fetched db in
    let same = feeds-save feed.id at fetched db in
    finish-IsChecked now at feed fetched saved.0 saved.1 n row (same.1 ∙ up)
      (ap (lookup feed.id) same.0 ∙ found)
after_fetch-IsChecked now at feed db n row (err not_modified) up found =
    tracked feed now at db row up found false
after_fetch-IsChecked now at feed db n row (err other_error) up found =
    tracked feed now at db row up found false

-- Once a feed was refreshed at the time `at`, with any outcome of the fetch and of the save, its row is
-- there, has its URL, and says that it was last checked at that time; within the next thirty minutes it
-- is not checked again, unless it has an average update interval. The driver answers.
pub refresh-no_recheck :
    (fetch : Fetch) (now at now' : ℕ) (feed row : Feed) (db : Db) (n : RefreshCounts)
    → db.up ≡ true
    → lookup feed.id db.feeds ≡ some row
    → 0 < at
    → at ≤ now'
    → now' - at < 30 * minute
    → (row' : Feed) × (lookup feed.id (refresh_due fetch now at feed db n).0.feeds ≡ some row')
      × (row'.last_checked ≡ at)
      × (row'.url ≡ row.url)
      × ((should_check_feed row' now' ≡ false)
          ⊎ (ltb_ℤ (pos 0) row'.average_update_interval ≡ true))
unfolding refresh_due
refresh-no_recheck fetch now at now' feed row db n up found started order soon =
    let (row', stored, checked) =
      after_fetch-IsChecked now at feed db (record n { checked = n.checked + 1 }) row
        (fetch feed.url (fetch_options feed)) up found in
    (row', stored, checked.last_checked, checked.url, recheck row' checked.last_checked)
  where
    recheck :
        (r : Feed)
        → r.last_checked ≡ at
        → (should_check_feed r now' ≡ false) ⊎ (ltb_ℤ (pos 0) r.average_update_interval ≡ true)
    recheck r e = elim (Bool-cases (ltb_ℤ (pos 0) r.average_update_interval)) [
      | inl known ↦ inr known
      | inr unknown ↦
          elim ((no_history-bounds r now' (ground arith) (omega arith) (omega arith) unknown).1) [
            | inl quiet ↦ inl quiet
            | inr late ↦ absurd (omega arith)
          ]
    ]

-- A fetch that succeeds and brings only articles that are stored already is treated as a failure: the
-- row keeps its old cache headers and its old time of the last fetch, whatever the response says. The
-- driver answers, and there is one article at least.
pub refresh_known-keeps_headers :
    (fetch : Fetch) (now at : ℕ) (feed row : Feed) (db : Db) (n : RefreshCounts)
    (fetched : FeedData)
    → db.up ≡ true
    → lookup feed.id db.feeds ≡ some row
    → fetch feed.url (fetch_options feed) ≡ ok fetched
    → is_empty fetched.articles ≡ false
    → All (λ a. stored_in feed.id a.link (rows db.articles) ≡ true) fetched.articles
    → lookup feed.id (refresh_due fetch now at feed db n).0.feeds
      ≡ some (record row {
        last_checked = at;
        last_had_new_content = feed.last_had_new_content;
        average_update_interval = feed.average_update_interval;
      })
unfolding refresh_due after_fetch finish_refresh update_feed_tracking Feeds.update_feed_tracking
    tracking
refresh_known-keeps_headers fetch now at feed row db n fetched up found arrived some_article known =
    rw (arrived, after_fetch)
      (rw (save_known-fails feed.id at fetched db up some_article known)
        (lookup-update_row feed.id _ db row up found))

counts-after_fetch :
    (now at : ℕ) (feed : Feed) (db : Db) (n : RefreshCounts) (r : Result FetchError FeedData)
    → let n' = (after_fetch now at feed db n r).1 in
      (n'.checked ≡ n.checked) × (n'.skipped ≡ n.skipped)
unfolding after_fetch finish_refresh
counts-after_fetch now at feed db n (ok fetched) = ground arith
counts-after_fetch now at feed db n (err not_modified) = (refl, refl)
counts-after_fetch now at feed db n (err other_error) = (refl, refl)

counts-refresh_feed :
    (fetch : Fetch) (now at : ℕ) (feed : Feed) (db : Db) (n : RefreshCounts)
    → let n' = (refresh_feed fetch now at feed db n).1 in
      n'.checked + n'.skipped ≡ n.checked + n.skipped + 1
unfolding refresh_feed refresh_due
counts-refresh_feed fetch now at feed db n = ground (
  arith,
  counts-after_fetch now at feed db (record n { checked = n.checked + 1 })
      (fetch feed.url (fetch_options feed)),
)

-- Every feed of a refresh is counted once, as checked or as skipped.
pub refresh_loop-counts :
    (fetch : Fetch) (now : ℕ) (clock : String → ℕ) (feeds : List Feed) (db : Db) (n : RefreshCounts)
    → let n' = (refresh_loop fetch now clock feeds db n).1 in
      n'.checked + n'.skipped ≡ n.checked + n.skipped + length feeds
unfolding refresh_loop
refresh_loop-counts fetch now clock [] db n = omega arith
refresh_loop-counts fetch now clock (feed ∷ feeds) db n =
    let r = refresh_feed fetch now (clock feed.url) feed db n in
    omega (
      arith,
      refresh_loop-counts fetch now clock feeds r.0 r.1,
      counts-refresh_feed fetch now (clock feed.url) feed db n,
    )

-- ===== src/Services/Refresh/Round.antt =====
-- internal/services/feed_service.go: RefreshFeeds, which joins the feeds of the store with those that users
-- read, the latter from the cache where it has them, and refreshes each URL once.
use goread.Base.{
  string_Eq, int_Eq, ℕ, String, Option, none, some, List, [], ◌∷◌, Map, get_or, select,
  if◌then◌else◌, ◌==◌,
}
use goread.Database.{Db, Feed, DbError, Result, ok, err}
use goread.Database.Feeds.{rows, get_feeds, get_all_user_feeds, has_reader}
use goread.Cache.FeedList.{FeedListCache}
use goread.Cache.FeedList
use goread.Services.Reading.{FeedService}
use goread.Services.Refresh.{Fetch, RefreshCounts, add_by_url, refresh_loop}

-- The feeds that users read, and the cache afterwards; a failed query counts as none and is not cached.
unfoldable pub read_feeds : ℕ → FeedListCache → Db → FeedListCache × List Feed
read_feeds now cache db =
    let (cache', hit) = FeedList.get cache now in
    elim hit [
      | some feeds ↦ (cache', feeds)
      | none ↦ elim (get_all_user_feeds db) [
        | err _ ↦ (cache', [])
        | ok feeds ↦ (FeedList.set cache' now feeds, feeds)
      ]
    ]

abbrev pub no_counts : RefreshCounts
no_counts = record { checked = 0; skipped = 0; has_new_content = 0; not_modified = 0 }

unfoldable pub refresh_feeds :
    Fetch → ℕ → (String → ℕ) → FeedService → FeedService × Result DbError RefreshCounts
refresh_feeds fetch now clock fs = elim (get_feeds fs.db) [
  | err e ↦ (fs, err e)
  | ok global ↦
      let (cache, read) = read_feeds now fs.feed_list_cache fs.db in
      let feeds = rows (add_by_url read (add_by_url global [])) in
      let (db, counts) = refresh_loop fetch now clock feeds fs.db no_counts in
      (record fs { db = db; feed_list_cache = cache }, ok counts)
]

-- The map of a refresh, from the feeds that users read and those of the store.
abbrev pub joined_feeds : List Feed → Db → Map String Feed
joined_feeds read db = add_by_url read (add_by_url (rows db.feeds) [])

-- The last feed of a list with a URL, or else the given one.
abbrev pub last_with_url : String → List Feed → Option Feed → Option Feed
last_with_url url [] found = found
last_with_url url (feed ∷ feeds) found =
    last_with_url url feeds (if feed.url == url then some feed else found)

-- The feeds that users read: those of the cache, or else of the store.
abbrev pub read_list : Option (List Feed) → Db → List Feed
read_list cached db =
    get_or cached (select (λ feed. has_reader db.user_feeds feed.id) (rows db.feeds))

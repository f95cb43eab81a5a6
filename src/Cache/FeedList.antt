-- ===== src/Cache/FeedList.antt =====
-- internal/cache/feed_list_cache.go: the cache of the list of all users' feeds. Every method holds the
-- cache's mutex, so a method is one function from state to state; `now` is its reading of the clock.
pub mod Answers
mod Tests
use goread.Base.{
  ℕ, ◌+◌, Bool, true, false, ◌&&◌, Option, none, some, List, [], ◌∷◌, ltb, if◌then◌else◌, ℤ, pos,
  wrap, ◌+ℤ◌, ltb_ℤ, length, is_some,
}
use goread.Database.{Feed}

-- `feeds` is `none` for a nil slice.
pub record FeedListCache : Type 0 where
  pub feeds : Option (List Feed)
  pub refresh_at : ℕ
  pub ttl : ℕ
  pub max_feeds : ℤ
  pub hits : ℤ
  pub misses : ℤ

unfoldable pub new_feed_list_cache : ℕ → FeedListCache
new_feed_list_cache ttl = record {
  feeds = none;
  refresh_at = 0;
  ttl = ttl;
  max_feeds = pos 0;
  hits = pos 0;
  misses = pos 0;
}

abbrev miss : FeedListCache → FeedListCache × Option (List Feed)
miss c = (record c { misses = wrap (c.misses +ℤ pos 1) }, none)

unfoldable pub get : FeedListCache → ℕ → FeedListCache × Option (List Feed)
get c now = elim c.feeds [
  | none ↦ miss c
  | some feeds ↦
      if ltb c.refresh_at now
      then miss c
      else (record c { hits = wrap (c.hits +ℤ pos 1) }, some feeds)
]

unfoldable pub set_max_feeds : FeedListCache → ℤ → FeedListCache
set_max_feeds c n = record c { max_feeds = n }

unfoldable pub set : FeedListCache → ℕ → List Feed → FeedListCache
set c now feeds =
    if ltb_ℤ (pos 0) c.max_feeds && ltb_ℤ c.max_feeds (pos (length feeds))
    then c
    else record c { feeds = some feeds; refresh_at = now + c.ttl }

unfoldable pub invalidate : FeedListCache → FeedListCache
invalidate c = record c { feeds = none }

-- One tick of `cleanupIfExpired`.
unfoldable pub cleanup : FeedListCache → ℕ → FeedListCache
cleanup c now = if is_some c.feeds && ltb c.refresh_at now then record c { feeds = none } else c

-- `HitRate`, a float quotient of the two counters, is left out.
pub record FeedListCacheStats : Type 0 where
  pub cached_feeds : ℕ
  pub max_feeds : ℤ
  pub is_valid : Bool
  pub hits : ℤ
  pub misses : ℤ

abbrev pub size : Option (List Feed) → ℕ
size none = 0
size (some feeds) = length feeds

unfoldable pub get_stats : FeedListCache → ℕ → FeedListCacheStats
get_stats c now =
    let is_valid = is_some c.feeds && ltb now c.refresh_at in
    record {
      cached_feeds = if is_valid then size c.feeds else 0;
      max_feeds = c.max_feeds;
      is_valid = is_valid;
      hits = c.hits;
      misses = c.misses;
    }

-- The calls of a client, each with its reading of the clock.
pub data Op : Type 0 where
  get_op : ℕ → Op
  set_op : ℕ → List Feed → Op
  invalidate_op : Op
  cleanup_op : ℕ → Op

unfoldable pub step : FeedListCache → Op → FeedListCache
step c (get_op now) = (get c now).0
step c (set_op now feeds) = set c now feeds
step c invalidate_op = invalidate c
step c (cleanup_op now) = cleanup c now

unfoldable pub run : FeedListCache → List Op → FeedListCache
run c [] = c
run c (op ∷ ops) = run (step c op) ops

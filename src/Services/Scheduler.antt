-- ===== src/Services/Scheduler.antt =====
-- internal/services/feed_scheduler.go: when each feed is updated, and what one update does. Times and
-- durations are nanoseconds; a duration of the scheduler is positive, so it is a natural number. The
-- 32-bit FNV hash of hash/fnv is a parameter.
pub mod Delay
pub mod Order
pub mod Dispatch
pub mod Lifecycle
mod Tests
use goread.Base.{
  string_Eq, ℕ, suc, ◌+◌, ◌-◌, ◌*◌, ◌%◌, Bool, true, false, String, none, List, [], ◌∷◌,
  if◌then◌else◌, ℤ, pos, Map, insert, ltb, nat_eq, ltb_ℤ, wrap, ◌+ℤ◌, ◌-ℤ◌, since, pos_part,
  neg_part,
}
use goread.Database.{Db, Feed, DbError, Result, ok, err}
use goread.Database.Feeds
use goread.Database.Feeds.{rows, get_feeds, get_all_user_feeds}
use goread.Services.Limiter.{Buckets, Hosts, DomainRateLimiter, allow}
use goread.Services.Refresh.{
  minute, hour, Fetch, FetchError, FeedData, SaveError, add_by_url, should_check_feed,
  save_articles, update_feed_tracking,
}

pub record SchedulerConfig : Type 0 where
  pub update_window : ℤ
  pub min_interval : ℤ
  pub max_concurrent : ℤ
  pub cleanup_interval : ℤ

pub record FeedScheduler : Type 0 where
  pub update_window : ℕ
  pub min_interval : ℕ
  pub max_concurrent : ℕ
  pub cleanup_interval : ℕ

-- A setting, or its default where it is not positive.
abbrev pub or_default : ℤ → ℕ → ℕ
or_default (pos (suc n)) default = suc n
or_default _ default = default

unfoldable pub new_feed_scheduler : SchedulerConfig → FeedScheduler
new_feed_scheduler config = record {
  update_window = or_default config.update_window (6 * hour);
  min_interval = or_default config.min_interval (30 * minute);
  max_concurrent = or_default config.max_concurrent 10;
  cleanup_interval = or_default config.cleanup_interval hour;
}

pub record ScheduledFeed : Type 0 where
  pub feed : Feed
  pub next_update : ℕ
  pub priority : ℕ

-- Global feeds and feeds of users by URL; a failed read of the latter counts as none.
unfoldable pub get_all_unique_feeds : Db → Result DbError (List Feed)
get_all_unique_feeds db = elim (get_feeds db) [
  | err e ↦ err e
  | ok global ↦ elim (get_all_user_feeds db) [
    | err _ ↦ ok (rows (add_by_url global []))
    | ok read ↦ ok (rows (add_by_url read (add_by_url global [])))
  ]
]

-- `Sum32` of the decimal digits of an id.
abbrev pub Hash : Type 0
Hash = ℤ → ℕ

-- A remainder by a positive window.
abbrev pub remainder : ℕ → ℕ → ℕ
remainder n d = n % d

-- `time.Duration(hashValue) % fs.updateWindow`, a number of nanoseconds, and what is left of the
-- minimum interval.
unfoldable pub calculate_staggered_delay : Hash → FeedScheduler → ℕ → ℤ → ℕ → ℤ
calculate_staggered_delay hash fs now feed_id last_fetch =
    let delay = pos (remainder (hash feed_id) fs.update_window) in
    let elapsed = since now last_fetch in
    if ltb_ℤ elapsed (pos fs.min_interval)
    then wrap (delay +ℤ wrap (pos fs.min_interval -ℤ elapsed))
    else delay

-- What the age of the last update adds.
abbrev pub age_bonus : ℤ → ℕ
age_bonus elapsed =
    if ltb_ℤ (pos (24 * hour)) elapsed
    then 30
    else if ltb_ℤ (pos (6 * hour)) elapsed
    then 15
    else if ltb_ℤ (pos (2 * hour)) elapsed
    then 5
    else 0

unfoldable pub calculate_feed_priority : FeedScheduler → ℕ → Feed → ℕ
calculate_feed_priority fs now feed =
    let elapsed = since now feed.last_fetch in
    let priority = 50 + age_bonus elapsed in
    if ltb_ℤ elapsed (pos fs.min_interval) then priority - 20 else priority

-- `now.Add(delay)`
abbrev pub shift : ℕ → ℤ → ℕ
shift now delay = now + pos_part delay - neg_part delay

-- `at` is the reading of `time.Since` for the feed.
abbrev pub scheduled : Hash → FeedScheduler → ℕ → ℕ → Feed → ScheduledFeed
scheduled hash fs now at feed = record {
  feed = feed;
  next_update = shift now (calculate_staggered_delay hash fs at feed.id feed.last_fetch);
  priority = calculate_feed_priority fs at feed;
}

-- The order of `sort.Slice`: by time, then the higher priority first. Feeds that are equal in both stay
-- in the order of the list; the source leaves it open.
abbrev pub is_earlier : ScheduledFeed → ScheduledFeed → Bool
is_earlier a b =
    if nat_eq a.next_update b.next_update
    then ltb b.priority a.priority
    else ltb a.next_update b.next_update

unfoldable pub insert_scheduled : ScheduledFeed → List ScheduledFeed → List ScheduledFeed
insert_scheduled a [] = a ∷ []
insert_scheduled a (b ∷ l) = if is_earlier b a then b ∷ insert_scheduled a l else a ∷ b ∷ l

-- `clock` is the reading of the clock for a feed.
unfoldable pub create_staggered_schedule :
    Hash → FeedScheduler → ℕ → (ℤ → ℕ) → List Feed → List ScheduledFeed
create_staggered_schedule hash fs now clock [] = []
create_staggered_schedule hash fs now clock (feed ∷ feeds) =
    insert_scheduled (scheduled hash fs now (clock feed.id) feed)
      (create_staggered_schedule hash fs now clock feeds)

pub record FeedUpdateStats : Type 0 where
  pub checked : ℕ
  pub skipped : ℕ
  pub has_new_content : ℕ

abbrev pub one_skipped : FeedUpdateStats → FeedUpdateStats
one_skipped n = record n { skipped = n.skipped + 1 }

-- What the updates share: the store, the rate limiter and the statistics.
pub record World (buckets : Buckets) : Type 0 where
  pub db : Db
  pub rate_limiter : DomainRateLimiter buckets
  pub stats : FeedUpdateStats

-- The writes after the articles were saved.
unfoldable pub after_save :
    ℕ → ℕ → Feed → Db × Result SaveError ℕ → FeedUpdateStats → Db × FeedUpdateStats
after_save now at feed (db, err _) n = ((update_feed_tracking feed at false db).0, n)
after_save now at feed (db, ok saved) n =
    let tracked = (update_feed_tracking feed at (ltb 0 saved) db).0 in
    (
      (Feeds.update_feed_last_fetch feed.id now tracked).0,
      if ltb 0 saved then record n { has_new_content = n.has_new_content + 1 } else n,
    )

unfoldable pub after_fetch :
    ℕ → ℕ → Feed → Db → FeedUpdateStats → Result FetchError FeedData → Db × FeedUpdateStats
after_fetch now at feed db n (err _) = ((update_feed_tracking feed at false db).0, n)
after_fetch now at feed db n (ok feed_data) =
    after_save now at feed (save_articles feed.id at feed_data db) n

-- `now` is the first reading of the clock, `at` that of the writes.
unfoldable pub update_single_feed :
    (buckets : Buckets) → Hosts → Fetch → ℕ → ℕ → Feed → World buckets → World buckets
update_single_feed buckets hosts fetch now at feed w =
    if should_check_feed feed now
    then (let (limiter, allowed) = allow buckets hosts now feed.url w.rate_limiter in
        let counted = record w.stats { checked = w.stats.checked + 1 } in
        let (db, stats) =
          after_fetch now at (record feed { last_checked = now }) w.db counted
            (fetch feed.url none) in
        if allowed
        then record { db = db; rate_limiter = limiter; stats = stats }
        else record w { rate_limiter = limiter; stats = one_skipped w.stats })
    else record w { stats = one_skipped w.stats }

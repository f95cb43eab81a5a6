-- ===== src/Handlers/Feeds/Debug.antt =====
-- internal/handlers/feed_handler.go: the statistics of an account, the routes that show what is stored, and
-- the refresh of all feeds.
mod Healthy
use goread.Base.{
  int_Eq, string_Eq, ℕ, Bool, true, false, ◌||◌, ◌&&◌, String, Option, none, some, List, [], ◌∷◌, ℤ,
  if◌then◌else◌, ◌==◌, ltb, nat_eq, length,
}
use goread.Database.{User, Feed, Article, Db, DbError, Result, ok, err}
use goread.Database.Articles.{get_articles, find_article_by_url}
use goread.Database.Pages.{Row, get_user_feed_articles}
use goread.Database.Stats.{Stats}
use goread.Services.Reading.Stats.{get_account_stats_of}
use goread.Services.Subscription.{SubscriptionInfo, get_user_subscription_info}
use goread.Handlers.Server.{Server, get_cached_user_feeds, Atoi}
use goread.Handlers.Feeds.{Enqueued}

-- An answer with a status and what it carries when it is 200.
pub data Answer (A : Type 0) : Type 0 where
  shows : A → Answer A
  fails : ℕ → Answer A

pub record AccountStats : Type 0 where
  pub total_feeds : ℕ
  pub stats : Stats
  pub subscription_info : Option SubscriptionInfo
  pub feeds : List Feed

abbrev info_or_none : Result DbError SubscriptionInfo → Option SubscriptionInfo
info_or_none (ok info) = some info
info_or_none (err _) = none

-- An error of the subscription is not reported.
unfoldable pub get_account_stats : Bool → ℕ → Option User → Server → Server × Answer AccountStats
get_account_stats enabled now none s = (s, fails 401)
get_account_stats enabled now (some user) s =
    let (s', r) = get_cached_user_feeds user.id s in
    elim r [
      | err _ ↦ (s', fails 500)
      | ok feeds ↦
          let (service, stats) = get_account_stats_of s'.service now user.id in
          let after = record s' { service = service } in
          elim stats [
            | err _ ↦ (after, fails 500)
            | ok stats ↦ (
              after,
              shows (record {
                total_feeds = length feeds;
                stats = stats;
                subscription_info =
                    info_or_none (get_user_subscription_info enabled now user.id service.db);
                feeds = feeds;
              }),
            )
          ]
    ]

abbrev pub has_id : ℤ → List Feed → Bool
has_id id [] = false
has_id id (feed ∷ feeds) = if feed.id == id then true else has_id id feeds

pub record DebugFeed : Type 0 where
  pub is_subscribed : Bool
  pub user_feeds : List Feed
  pub all_articles : List Article
  pub user_articles : List Row

unfoldable pub debug_feed : Atoi → String → Option User → Server → Server × Answer DebugFeed
debug_feed atoi id_text none s = (s, fails 401)
debug_feed atoi id_text (some user) s = elim (atoi id_text) [
  | none ↦ (s, fails 400)
  | some id ↦
      let (s', r) = get_cached_user_feeds user.id s in
      elim r [
        | err _ ↦ (s', fails 500)
        | ok feeds ↦ elim (get_articles id s'.service.db) [
          | err _ ↦ (s', fails 500)
          | ok articles ↦ elim (get_user_feed_articles user.id id s'.service.db) [
            | err _ ↦ (s', fails 500)
            | ok listed ↦ (
              s',
              shows (record {
                is_subscribed = has_id id feeds;
                user_feeds = feeds;
                all_articles = articles;
                user_articles = listed;
              }),
            )
          ]
        ]
      ]
]

unfoldable pub debug_article_by_url : String → Option User → Server → Server × Answer Article
debug_article_by_url url none s = (s, fails 401)
debug_article_by_url url (some user) s =
    if url == "" then (s, fails 400) else elim (find_article_by_url url s.service.db) [
      | err _ ↦ (s, fails 500)
      | ok none ↦ (s, fails 404)
      | ok (some article) ↦ (s, shows article)
    ]

-- The status is "OK" unless it is broken.
pub record FeedStatus : Type 0 where
  pub feed : Feed
  pub is_subscribed : Bool
  pub all_article_count : ℕ
  pub user_article_count : ℕ
  pub is_broken : Bool

abbrev pub count_or_zero : {A : Type 0} → Result DbError (List A) → ℕ
count_or_zero (ok l) = length l
count_or_zero (err _) = 0

-- The status from the numbers of all articles and of those that the user can read.
abbrev pub status_of : Feed → ℕ → ℕ → FeedStatus
status_of feed all_count user_count =
    let broken = ltb 0 all_count && nat_eq user_count 0 in
    record {
      feed = feed;
      is_subscribed = if broken then false else ltb 0 user_count || nat_eq all_count 0;
      all_article_count = all_count;
      user_article_count = user_count;
      is_broken = broken;
    }

unfoldable pub feed_status : Db → ℤ → Feed → FeedStatus
feed_status db user_id feed =
    status_of feed (count_or_zero (get_articles feed.id db))
      (count_or_zero (get_user_feed_articles user_id feed.id db))

unfoldable pub feed_statuses : Db → ℤ → List Feed → List FeedStatus
unfolding feed_status
feed_statuses db user_id [] = []
feed_statuses db user_id (feed ∷ feeds) =
    feed_status db user_id feed ∷ feed_statuses db user_id feeds

unfoldable pub debug_all_subscriptions : Option User → Server → Server × Answer (List FeedStatus)
unfolding feed_statuses
debug_all_subscriptions none s = (s, fails 401)
debug_all_subscriptions (some user) s =
    let (s', r) = get_cached_user_feeds user.id s in
    elim r [
      | err _ ↦ (s', fails 500)
      | ok feeds ↦ (s', shows (feed_statuses s'.service.db user.id feeds))
    ]

-- What `doRefreshFeeds` does: it runs the scheduler where one is set up and the service otherwise.
abbrev pub Refresh : Type 0
Refresh = Server → Server × Result DbError (Unit {0})

-- The answer, and whether a refresh is started that goes on after it.
pub record Refreshed : Type 0 where
  pub status : ℕ
  pub in_background : Bool

abbrev refreshed : Refresh → Server → Server × Refreshed
refreshed refresh s = (
  (refresh s).0,
  elim (refresh s).1 [
    | ok _ ↦ record { status = 200; in_background = false }
    | err _ ↦ record { status = 500; in_background = false }
  ],
)

abbrev answers : ℕ → Bool → Refreshed
answers status in_background = record { status = status; in_background = in_background }

-- What `VerifyCronRequest` or `VerifyTaskRequest` said: none where the request passes, else the status with
-- which it is refused.
abbrev pub Verified : Type 0
Verified = Option ℕ

-- The request is verified on the path of the cron job only.
unfoldable pub refresh_feeds : Refresh → Bool → Verified → Enqueued → Server → Server × Refreshed
refresh_feeds refresh is_cron verified queue s =
    if is_cron
    then (elim verified [
      | some status ↦ (s, answers status false)
      | none ↦ elim queue [
        | none ↦ (s, answers 202 true)
        | some false ↦ (s, answers 500 false)
        | some true ↦ (s, answers 202 false)
      ]
    ])
    else refreshed refresh s

unfoldable pub task_refresh_feeds : Refresh → Verified → Server → Server × Refreshed
task_refresh_feeds refresh none s = refreshed refresh s
task_refresh_feeds refresh (some status) s = (s, answers status false)

-- ===== src/Handlers/Feeds.antt =====
-- internal/handlers/feed_handler.go: the routes for feeds, counts, settings and the cleanup. JSON is parsed
-- before the model.
pub mod Debug
mod Tests
use goread.Base.{
  int_Eq, string_Eq, ℕ, suc, Bool, true, false, ◌||◌, ◌&&◌, String, Option, none, some, List, [],
  ◌∷◌, ℤ, pos, Map, lookup, insert, delete, if◌then◌else◌, ◌==◌, ltb, leb_ℤ, ltb_ℤ, leb, length,
}
use goread.Database.{User, Db, Feed, DbError, Result, ok, err}
use goread.Database.Users.{update_user_max_articles_on_feed_add}
use goread.Database.Feeds.{get_user_feeds}
use goread.Database.Pages.{Row, Cursor, Page, get_user_articles_paginated, get_article_by_id}
use goread.Database.Orphans.{Older, cleanup_orphaned_user_articles}
use goread.Services.Subscription.{
  AddError, feed_limit_reached, trial_expired, store_error, can_user_add_feed,
}
use goread.Services.Subscription.{SubscriptionInfo, get_user_subscription_info}
use goread.Services.Refresh.{Fetch}
use goread.Services.Reading.{
  FeedService, mark_user_article_read, toggle_user_article_star, mark_all_articles_read,
  unsubscribe, get_user_unread_counts_of,
}
use goread.Services.Adding.{
  ServiceError, Discover, invalid_url, feed_not_found, feed_timeout, database_error, fetch_error,
  limit_error, add_feed_for_user, Outlines, Import, import_opml_with_limits,
}
use goread.Handlers.Server.{
  message, feeds_body, feed_body, page_body, article_body, counts_body, count_body, Body, Reply,
  refusal, Server, get_cached_user_feeds, invalidate_user_feeds, signed_in, Atoi, done_or_failed,
  max_request_cache_entries,
}

unfoldable pub get_feeds : Option User → Server → Server × Reply
get_feeds user = signed_in user (λ user s.
    let (s', r) = get_cached_user_feeds user.id s in
    elim r [
      | err _ ↦ (s', refusal 500)
      | ok feeds ↦ (s', record { status = 200; body = feeds_body feeds })
    ])

-- The refusal of a user who may not add feeds.
abbrev pub status_of_limit : AddError → ℕ
status_of_limit feed_limit_reached = 402
status_of_limit trial_expired = 402
status_of_limit (store_error _) = 500

-- The status of the errors that the model of the services tells apart; all others are 500.
abbrev pub status_of_error : ServiceError → ℕ
status_of_error invalid_url = 400
status_of_error feed_not_found = 404
status_of_error feed_timeout = 408
status_of_error _ = 500

-- `url` is none where the body cannot be parsed or has no URL.
unfoldable pub add_feed :
    Bool → Discover → Fetch → Bool → ℕ → Option String → Option User → Server → Server × Reply
add_feed in_time discover fetch enabled now url user = signed_in user (λ user s.
    elim (can_user_add_feed enabled now user.id s.service.db) [
      | err e ↦ (s, refusal (status_of_limit e))
      | ok _ ↦ elim url [
        | none ↦ (s, refusal 400)
        | some url ↦
            let (service, r) = add_feed_for_user in_time discover fetch s.service now user.id url in
            elim r [
              | err e ↦ (record s { service = service }, refusal (status_of_error e))
              | ok feed ↦ (
                invalidate_user_feeds user.id (record s { service = service }),
                record { status = 201; body = feed_body feed },
              )
            ]
      ]
    ])

unfoldable pub delete_feed : Atoi → String → Option User → Server → Server × Reply
delete_feed atoi id_str user = signed_in user (λ user s. elim (atoi id_str) [
  | none ↦ (s, refusal 400)
  | some id ↦
      let (service, r) = unsubscribe s.service user.id id in
      elim r [
        | err _ ↦ (record s { service = service }, refusal 500)
        | ok _ ↦ (
          invalidate_user_feeds user.id (record s { service = service }),
          record { status = 200; body = message },
        )
      ]
])

unfoldable pub get_unread_counts : ℕ → Option User → Server → Server × Reply
get_unread_counts now user = signed_in user (λ user s.
    let (s', feeds) = get_cached_user_feeds user.id s in
    elim feeds [
      | err _ ↦ (s', refusal 500)
      | ok feeds ↦
          let (service, r) = get_user_unread_counts_of s'.service now user.id feeds in
          elim r [
            | err _ ↦ (record s' { service = service }, refusal 500)
            | ok counts ↦ (
              record s' { service = service },
              record { status = 200; body = counts_body counts },
            )
          ]
    ])

-- `max_articles` is none where the body cannot be parsed; its bounds are 0 and 10000.
unfoldable pub update_max_articles_on_feed_add : Option ℤ → Option User → Server → Server × Reply
update_max_articles_on_feed_add max_articles user = signed_in user (λ user s. elim max_articles [
  | none ↦ (s, refusal 400)
  | some n ↦
      if ltb_ℤ n (pos 0) || ltb_ℤ (pos 10000) n
      then (s, refusal 400)
      else (let (db, r) = update_user_max_articles_on_feed_add user.id n s.service.db in
          (record s { service = record (s.service) { db = db } }, done_or_failed r))
])

-- The task for orphaned marks, of more than seven days, once the request is verified.
unfoldable pub task_cleanup_orphaned_articles : Bool → Older → Server → Server × Reply
task_cleanup_orphaned_articles verified older s =
    if verified
    then (let (db, r) = cleanup_orphaned_user_articles older (pos 7) s.service.db in
        (
          record s { service = record (s.service) { db = db } },
          elim r [
            | err _ ↦ refusal 500
            | ok deleted ↦ record { status = 200; body = count_body deleted }
          ],
        ))
    else (s, refusal 401)

-- What `Enqueue` of the task queue returned, or none where no queue is set up.
abbrev pub Enqueued : Type 0
Enqueued = Option Bool

-- The cleanup itself, of marks orphaned for more than seven days.
abbrev pub cleaned : Older → Server → Server × Reply
cleaned older s =
    let (db, r) = cleanup_orphaned_user_articles older (pos 7) s.service.db in
    (
      record s { service = record (s.service) { db = db } },
      elim r [
        | err _ ↦ refusal 500
        | ok deleted ↦ record { status = 200; body = count_body deleted }
      ],
    )

-- `verified` is what `VerifyCronRequest` said, for the path of the cron job; an administrator's request has
-- another path and is not verified again. The refusal is that outside App Engine.
unfoldable pub cleanup_orphaned_articles : Bool → Bool → Enqueued → Older → Server → Server × Reply
cleanup_orphaned_articles is_cron verified queue older s =
    if is_cron
    then (if verified
        then (elim queue [
          | none ↦ cleaned older s
          | some false ↦ (s, refusal 500)
          | some true ↦ (s, refusal 202)
        ])
        else (s, refusal 403))
    else cleaned older s

-- An uploaded document: its size, and the outlines that the parser finds.
pub record Upload : Type 0 where
  pub size : ℕ
  pub outlines : Outlines

abbrev pub max_upload : ℕ
max_upload = 10485760

unfoldable pub import_opml : Import → Option Upload → Option User → Server → Server × Reply
import_opml import upload user = signed_in user (λ user s. elim upload [
  | none ↦ (s, refusal 400)
  | some file ↦
      if ltb max_upload file.size
      then (s, refusal 400)
      else (let (service, (count, failed)) =
            import_opml_with_limits (record import { user = user.id }) s.service file.outlines in
          (
            record s { service = service },
            elim failed [
              | none ↦ record { status = 200; body = count_body count }
              | some (limit_error e) ↦ refusal (status_of_limit e)
              | some _ ↦ refusal 500
            ],
          ))
])

unfoldable pub get_subscription_info :
    Bool → ℕ → Option User → Server → Server × Option SubscriptionInfo
get_subscription_info enabled now none s = (s, none)
get_subscription_info enabled now (some user) s = (
  s,
  elim (get_user_subscription_info enabled now user.id s.service.db) [
    | err _ ↦ none
    | ok info ↦ some info
  ],
)

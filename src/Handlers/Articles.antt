-- ===== src/Handlers/Articles.antt =====
-- internal/handlers/feed_handler.go and article_handler.go: the routes for articles and their marks. JSON is
-- parsed before the model, the text of cursors by an argument.
pub mod Paging
mod Tests
use goread.Base.{
  int_Eq, string_Eq, ℕ, suc, Bool, true, false, ◌||◌, ◌&&◌, String, Option, none, some, List, [],
  ◌∷◌, ℤ, pos, Map, lookup, insert, delete, if◌then◌else◌, ◌==◌, ltb, leb_ℤ, ltb_ℤ, leb, length,
}
use goread.Database.{User, Db, Feed, DbError, Result, ok, err}
use goread.Database.Users.{update_user_max_articles_on_feed_add}
use goread.Database.Feeds.{get_user_feeds}
use goread.Database.Pages.{Row, Cursor, Page, get_user_articles_paginated, get_article_by_id}
use goread.Database.Orphans.{cleanup_orphaned_user_articles}
use goread.Services.Subscription.{
  AddError, feed_limit_reached, trial_expired, store_error, can_user_add_feed,
}
use goread.Services.Refresh.{Fetch}
use goread.Services.Reading.{
  FeedService, mark_user_article_read, toggle_user_article_star, mark_all_articles_read,
  unsubscribe, get_user_unread_counts_of,
}
use goread.Services.Adding.{
  ServiceError, Discover, invalid_url, feed_not_found, feed_timeout, database_error, fetch_error,
  limit_error, add_feed_for_user,
}
use goread.Handlers.Server.{
  message, feeds_body, feed_body, page_body, article_body, counts_body, count_body, Body, Reply,
  refusal, Server, get_cached_user_feeds, invalidate_user_feeds, signed_in, Atoi, done_or_failed,
  max_request_cache_entries,
}

-- The query parameters of the listings; a missing one is the empty string.
pub record Query : Type 0 where
  pub limit : String
  pub cursor : String
  pub unread_only : String

-- The limit: a number between 1 and 100, or 50.
unfoldable pub parse_limit : Atoi → String → ℕ
parse_limit atoi text = elim (atoi text) [
  | none ↦ 50
  | some n ↦ elim n [ ℤ.pos n ↦ if ltb 0 n && leb n 100 then n else 50 | ℤ.negsuc _ ↦ 50 ]
]

abbrev pub parse_unread_only : String → Bool
parse_unread_only text = text == "true" || text == "1"

-- The page to start at, where the text of the cursor is empty or can be read by `decode`.
abbrev pub start_at : (String → Option Cursor) → String → Option (Option Cursor)
start_at decode text =
    if text == "" then some none else elim (decode text) [ none ↦ none | some c ↦ some (some c) ]

-- The answer of the listing for a feed, or for all feeds where it is 0. `none` is a panic.
unfoldable pub get_articles_of :
    (String → Option Cursor) → ℕ → Query → ℤ → User → Server → Option (Server × Reply)
get_articles_of decode limit q feed user s = elim (start_at decode q.cursor) [
  | none ↦ some (s, refusal 500)
  | some cursor ↦
      elim (get_user_articles_paginated user.id feed limit cursor (parse_unread_only q.unread_only)
        s.service.db) [
          | err _ ↦ some (s, refusal 500)
          | ok none ↦ none
          | ok (some page) ↦ some (s, record { status = 200; body = page_body page })
        ]
]

unfoldable pub get_articles :
    Atoi
    → (String → Option Cursor)
    → String
    → Query
    → Option User
    → Server
    → Option (Server × Reply)
get_articles atoi decode id_str q none s = some (s, refusal 401)
get_articles atoi decode id_str q (some user) s =
    elim (if id_str == "all" then some (pos 0) else atoi id_str) [
      | none ↦ some (s, refusal 400)
      | some feed ↦ get_articles_of decode (parse_limit atoi q.limit) q feed user s
    ]

-- The body of the request; `none` where it cannot be parsed.
pub record MarkRequest : Type 0 where
  pub is_read : Bool
  pub feed_id : ℤ
  pub was_read : Bool

unfoldable pub mark_read :
    Atoi → ℕ → String → Option MarkRequest → Option User → Server → Server × Reply
mark_read atoi now id_str req user = signed_in user (λ user s. elim (atoi id_str) [
  | none ↦ (s, refusal 400)
  | some id ↦ elim req [
    | none ↦ (s, refusal 400)
    | some m ↦
        let (service, r) =
          mark_user_article_read s.service now user.id id m.is_read m.feed_id m.was_read in
        (record s { service = service }, done_or_failed r)
  ]
])

unfoldable pub toggle_star : Atoi → String → Option User → Server → Server × Reply
toggle_star atoi id_str user = signed_in user (λ user s. elim (atoi id_str) [
  | none ↦ (s, refusal 400)
  | some id ↦
      let (service, r) = toggle_user_article_star s.service user.id id in
      (record s { service = service }, done_or_failed r)
])

unfoldable pub mark_all_read : Option User → Server → Server × Reply
mark_all_read user = signed_in user (λ user s.
    let (service, r) = mark_all_articles_read s.service user.id in
    elim r [
      | err _ ↦ (record s { service = service }, refusal 500)
      | ok count ↦
          (record s { service = service }, record { status = 200; body = count_body count })
    ])

unfoldable pub get_article : Atoi → String → Option User → Server → Server × Reply
get_article atoi id_str user = signed_in user (λ user s. (
  s,
  elim (atoi id_str) [
    | none ↦ refusal 400
    | some id ↦ elim (get_article_by_id user.id id s.service.db) [
      | err _ ↦ refusal 500
      | ok none ↦ refusal 404
      | ok (some row) ↦ record { status = 200; body = article_body row }
    ]
  ],
))

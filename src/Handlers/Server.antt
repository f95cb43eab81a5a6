-- ===== src/Handlers/Server.antt =====
-- internal/middleware/request_cache.go, and what all routes of readers share: the feeds of users that are
-- cached for a request, the user of the context, and the form of an answer. The parsing of numbers is done
-- by an argument.
use goread.Base.{
  int_Eq, string_Eq, ℕ, String, Option, none, some, List, ℤ, Map, lookup, insert, delete,
  if◌then◌else◌, ltb, length,
}
use goread.Database.{User, Feed, DbError, Result, ok, err}
use goread.Database.Feeds.{get_user_feeds}
use goread.Database.Pages.{Row, Page}
use goread.Services.Reading.{FeedService}

-- What an answer carries besides its status.
pub data Body : Type 0 where
  message : Body
  feeds_body : List Feed → Body
  feed_body : Feed → Body
  page_body : Page → Body
  article_body : Row → Body
  counts_body : Map ℤ ℤ → Body
  count_body : ℕ → Body

pub record Reply : Type 0 where
  pub status : ℕ
  pub body : Body

abbrev pub refusal : ℕ → Reply
refusal code = record { status = code; body = message }

-- The service, and the feeds of users that are cached for the request.
pub record Server : Type 0 where
  pub service : FeedService
  pub user_feeds : Map ℤ (List Feed)

abbrev pub max_request_cache_entries : ℕ
max_request_cache_entries = 100

unfoldable pub get_cached_user_feeds : ℤ → Server → Server × Result DbError (List Feed)
get_cached_user_feeds user s = elim (lookup user s.user_feeds) [
  | some feeds ↦ (s, ok feeds)
  | none ↦ elim (get_user_feeds user s.service.db) [
    | err e ↦ (s, err e)
    | ok feeds ↦ (
      if ltb (length s.user_feeds) max_request_cache_entries
          then record s { user_feeds = insert user feeds s.user_feeds }
          else s,
      ok feeds,
    )
  ]
]

unfoldable pub invalidate_user_feeds : ℤ → Server → Server
invalidate_user_feeds user s = record s { user_feeds = delete user s.user_feeds }

-- A handler that needs the user of the context.
abbrev pub signed_in : Option User → (User → Server → Server × Reply) → Server → Server × Reply
signed_in none handle s = (s, refusal 401)
signed_in (some user) handle s = handle user s

-- `strconv.Atoi`
abbrev pub Atoi : Type 0
Atoi = String → Option ℤ

-- The answer of a change that returns nothing.
abbrev pub done_or_failed {ℓ} : {A : Type ℓ} → Result DbError A → Reply
done_or_failed (ok _) = record { status = 200; body = message }
done_or_failed (err _) = refusal 500

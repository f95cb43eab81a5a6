-- ===== src/Database/Pages.antt =====
-- internal/database/schema.go: the pages of a user's articles. A page is the next rows in the order of
-- the query, and a cursor names the last row of the page before it.
pub mod Order
pub mod Walk
mod Tests
use goread.Base.{
  int_Eq, pair_Eq, string_Eq, ℕ, zero, suc, ◌+◌, Bool, true, false, not, ◌&&◌, ◌||◌, String, Option,
  none, some, List, [], ◌∷◌, ◌++◌, if◌then◌else◌, ℤ, pos, lookup, ltb, nat_eq, ltb_ℤ, ◌==◌, length,
  take, drop, get_elem?, select,
}
use goread.Database.{Db, Feed, Article, Result, ok, err, Query, query}
use goread.Database.Articles.{Statuses, row_read, is_read_by}
use goread.Database.Feeds.{rows, is_subscribed}
use goread.Database.Stars.{row_starred}

-- A row of the query: an article with the place of the text of its date, the title of its feed and the marks
-- of the user.
pub record Row : Type 0 where
  pub article : Article
  pub text : ℕ
  pub feed_title : String
  pub is_read : Bool
  pub is_starred : Bool

pub record Cursor : Type 0 where
  pub published_at : ℕ
  pub id : ℤ

abbrev pub cursor_of : Row → Cursor
cursor_of row = record { published_at = row.article.published_at; id = row.article.id }

-- What the statement compares: texts and ids.
pub record Key : Type 0 where
  pub text : ℕ
  pub id : ℤ

abbrev pub key_of : Row → Key
key_of row = record { text = row.text; id = row.article.id }

abbrev pub bind_cursor : (ℕ → ℕ) → Cursor → Key
bind_cursor bound c = record { text = bound c.published_at; id = c.id }

-- `a.published_at < ? OR (a.published_at = ? AND a.id < ?)`
abbrev pub is_after : Key → Row → Bool
is_after k row = ltb row.text k.text || (nat_eq row.text k.text && ltb_ℤ row.article.id k.id)

-- `ORDER BY a.published_at DESC, a.id DESC`
unfoldable pub insert_row : Row → List Row → List Row
insert_row a [] = a ∷ []
insert_row a (b ∷ l) = if is_after (key_of a) b then a ∷ b ∷ l else b ∷ insert_row a l

unfoldable pub sort_rows : List Row → List Row
sort_rows [] = []
sort_rows (a ∷ l) = insert_row a (sort_rows l)

-- `AND a.feed_id = ?` unless the feed is 0, and `AND COALESCE(ua.is_read, 0) = 0` for unread rows only.
abbrev pub is_wanted : ℤ → Bool → Row → Bool
is_wanted feed_id unread_only row =
    (feed_id == pos 0 || row.article.feed_id == feed_id) && (not unread_only || not row.is_read)

-- The join with the feeds of the user, and the marks of the user or their defaults.
unfoldable pub joined : Db → ℤ → List Article → List Row
joined db user_id [] = []
joined db user_id (a ∷ articles) =
    let rest = joined db user_id articles in
    elim (lookup a.feed_id db.feeds) [
      | none ↦ rest
      | some feed ↦
          if is_subscribed db.user_feeds user_id a.feed_id
          then record {
            article = a;
            text = db.texts.rank a;
            feed_title = feed.title;
            is_read = is_read_by db.user_articles user_id a.id;
            is_starred = row_starred (lookup (user_id, a.id) db.user_articles);
          }
            ∷ rest
          else rest
    ]

-- The rows of all pages, the last text first.
unfoldable pub listed : Db → ℤ → ℤ → Bool → List Row
listed db user_id feed_id unread_only =
    sort_rows (select (is_wanted feed_id unread_only) (joined db user_id (rows db.articles)))

abbrev pub from_cursor : (ℕ → ℕ) → Option Cursor → List Row → List Row
from_cursor bound none l = l
from_cursor bound (some c) l = select (is_after (bind_cursor bound c)) l

pub record Page : Type 0 where
  pub articles : List Row
  pub next_cursor : Option Cursor

-- One row more than the limit was asked for. `none` is the panic of `articles[limit-1]` where the limit
-- is 0 and there is a row.
unfoldable pub cut : ℕ → List Row → Option Page
cut limit [] = some (record { articles = []; next_cursor = none })
cut zero (row ∷ found) = none
cut (suc n) (row ∷ found) = elim (get_elem? (row ∷ found) (suc n)) [
  | none ↦ some (record { articles = row ∷ found; next_cursor = none })
  | some _ ↦ elim (get_elem? (row ∷ found) n) [
    | none ↦ none
    | some last ↦
        some (record { articles = take (suc n) (row ∷ found); next_cursor = some (cursor_of last) })
  ]
]

-- The conditions of the query are tested after the rows are put in order, which gives the same rows.
unfoldable pub page_of : (ℕ → ℕ) → ℕ → Option Cursor → List Row → Option Page
page_of bound limit cursor l = cut limit (take (limit + 1) (from_cursor bound cursor l))

-- `GetUserArticlesPaginated` is this with the feed 0, `GetUserFeedArticlesPaginated` with another.
unfoldable pub get_user_articles_paginated : ℤ → ℤ → ℕ → Option Cursor → Bool → Query (Option Page)
get_user_articles_paginated user_id feed_id limit cursor unread_only =
    query (λ db. ok (page_of db.texts.bound limit cursor (listed db user_id feed_id unread_only)))

-- The first page, of 50.
unfoldable pub get_user_articles : ℤ → Query (Option Page)
unfolding get_user_articles_paginated
get_user_articles user_id = get_user_articles_paginated user_id (pos 0) 50 none false

-- All articles of a feed for its reader; the statement leaves the order of equal dates open.
unfoldable pub get_user_feed_articles : ℤ → ℤ → Query (List Row)
get_user_feed_articles user_id feed_id = query (λ db.
    ok
      (if is_subscribed db.user_feeds user_id feed_id then listed db user_id feed_id false else []))

-- The article with its marks, or none where the user does not read its feed.
unfoldable pub get_article_by_id : ℤ → ℤ → Query (Option Row)
get_article_by_id user_id article_id = query (λ db. ok (elim (lookup article_id db.articles) [
  | none ↦ none
  | some article ↦ get_elem? (joined db user_id (article ∷ [])) 0
]))

-- What a client does: it follows the cursors, for as many pages as it likes.
unfoldable pub walk : (ℕ → ℕ) → ℕ → ℕ → Option Cursor → List Row → List Row
walk bound zero limit cursor l = []
walk bound (suc n) limit cursor l = elim (page_of bound limit cursor l) [
  | none ↦ []
  | some page ↦ elim page.next_cursor [
    | none ↦ page.articles
    | some c ↦ page.articles ++ walk bound n limit (some c) l
  ]
]

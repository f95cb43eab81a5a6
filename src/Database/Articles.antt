-- ===== src/Database/Articles.antt =====
-- internal/database/schema.go: the statements on `articles` and `user_articles`.
use goread.Base.{
  int_Eq, pair_Eq, ℕ, suc, ◌+◌, Bool, true, false, ◌&&◌, ◌||◌, not, String, string_Eq, Option, none,
  some, ℤ, pos, Map, lookup, insert, if◌then◌else◌, ◌==◌, List, [], ◌∷◌, ltb,
}
use goread.Database.{Db, Feed, Article, UserArticle, ok, err, no_rows, Exec, Query, exec, query}
use goread.Database.Feeds.{Subscriptions, is_subscribed, rows, subscribed_feeds}

unfoldable pub article_with_url : String → Map ℤ Article → Option Article
article_with_url url [] = none
article_with_url url ((_, article) ∷ m) =
    if article.url == url then some article else article_with_url url m

-- `ON CONFLICT(url) DO UPDATE SET id=id`: a row with the URL, whatever its feed, is left as it is,
-- and its id is the result.
unfoldable pub add_article : Article → Exec ℤ
add_article article = exec (λ db. elim (article_with_url article.url db.articles) [
  | some old ↦ (db, ok old.id)
  | none ↦
      let article' = record article { id = pos db.next_article } in
      (
        record db {
          articles = insert article'.id article' db.articles;
          next_article = db.next_article + 1;
        },
        ok article'.id,
      )
])

-- `SELECT … WHERE url = ? LIMIT 1`; no row is no error.
unfoldable pub find_article_by_url : String → Query (Option Article)
unfolding article_with_url
find_article_by_url url = query (λ db. ok (article_with_url url db.articles))

unfoldable pub get_user_article_status : ℤ → ℤ → Query UserArticle
get_user_article_status user_id article_id = query (λ db.
    elim (lookup (user_id, article_id) db.user_articles) [ none ↦ err no_rows | some row ↦ ok row ])

-- `INSERT OR REPLACE`
unfoldable pub set_user_article_status : ℤ → ℤ → Bool → Bool → Exec (Unit {0})
set_user_article_status user_id article_id is_read is_starred = exec (λ db. (
  record db {
    user_articles =
        insert (user_id, article_id) (record { is_read = is_read; is_starred = is_starred })
          db.user_articles;
  },
  ok tt,
))

abbrev pub contains : String → List String → Bool
contains url [] = false
contains url (u ∷ urls) = u == url || contains url urls

-- `SELECT url FROM articles WHERE feed_id = ? AND url IN (…)`
unfoldable pub existing_urls : ℤ → List String → List Article → List String
existing_urls feed_id urls [] = []
existing_urls feed_id urls (article ∷ articles) =
    let rest = existing_urls feed_id urls articles in
    if article.feed_id == feed_id && contains article.url urls then article.url ∷ rest else rest

-- The map of the source holds `true` for each URL of this list.
unfoldable pub filter_existing_article_urls : ℤ → List String → Query (List String)
filter_existing_article_urls feed_id [] db = ok []
filter_existing_article_urls feed_id (url ∷ urls) db =
    query (λ db. ok (existing_urls feed_id (url ∷ urls) (rows db.articles))) db

abbrev pub Statuses : Type 0
Statuses = Map (ℤ × ℤ) UserArticle

-- Two statements: a row of the user and the article is updated, or a new one is inserted.
unfoldable pub mark_row : ℤ → ℤ → Bool → Statuses → Statuses
mark_row user_id article_id is_read m = elim (lookup (user_id, article_id) m) [
  | none ↦ insert (user_id, article_id) (record { is_read = is_read; is_starred = false }) m
  | some row ↦ insert (user_id, article_id) (record row { is_read = is_read }) m
]

unfoldable pub mark_user_article_read : ℤ → ℤ → Bool → Exec (Unit {0})
mark_user_article_read user_id article_id is_read = exec (λ db.
    (record db { user_articles = mark_row user_id article_id is_read db.user_articles }, ok tt))

unfoldable pub toggle_row : ℤ → ℤ → Statuses → Statuses
toggle_row user_id article_id m = elim (lookup (user_id, article_id) m) [
  | none ↦ insert (user_id, article_id) (record { is_read = false; is_starred = true }) m
  | some row ↦ insert (user_id, article_id) (record row { is_starred = not row.is_starred }) m
]

unfoldable pub toggle_user_article_star : ℤ → ℤ → Exec (Unit {0})
toggle_user_article_star user_id article_id =
    exec
      (λ db. (record db { user_articles = toggle_row user_id article_id db.user_articles }, ok tt))

-- `INSERT OR REPLACE INTO user_articles` for each article.
unfoldable pub replace_rows : ℤ → UserArticle → List Article → Statuses → Statuses
replace_rows user_id row [] m = m
replace_rows user_id row (article ∷ articles) m =
    replace_rows user_id row articles (insert (user_id, article.id) row m)

unfoldable pub batch_set_user_article_status : ℤ → List Article → Bool → Bool → Exec (Unit {0})
batch_set_user_article_status user_id [] is_read is_starred db = (db, ok tt)
batch_set_user_article_status user_id (article ∷ articles) is_read is_starred db =
    exec
      (λ db. (
        record db {
          user_articles =
              replace_rows user_id (record { is_read = is_read; is_starred = is_starred })
                (article ∷ articles) db.user_articles;
        },
        ok tt,
      ))
      db

-- `articles JOIN user_feeds` of the user.
unfoldable pub subscribed_articles : Subscriptions → ℤ → List Article → List Article
subscribed_articles subs user_id [] = []
subscribed_articles subs user_id (article ∷ articles) =
    let rest = subscribed_articles subs user_id articles in
    if is_subscribed subs user_id article.feed_id then article ∷ rest else rest

abbrev pub list_size {ℓ} : {A : Type ℓ} → List A → ℕ
list_size [] = 0
list_size (_ ∷ xs) = suc (list_size xs)

-- Returns the number of rows written.
unfoldable pub mark_all_user_articles_read : ℤ → Exec ℕ
mark_all_user_articles_read user_id = exec (λ db.
    let articles = subscribed_articles db.user_feeds user_id (rows db.articles) in
    (
      record db {
        user_articles =
            replace_rows user_id (record { is_read = true; is_starred = false }) articles
              db.user_articles;
      },
      ok (list_size articles),
    ))

abbrev pub row_read : Option UserArticle → Bool
row_read none = false
row_read (some row) = row.is_read

unfoldable pub is_read_by : Statuses → ℤ → ℤ → Bool
is_read_by m user_id article_id = row_read (lookup (user_id, article_id) m)

-- 90 days in nanoseconds.
abbrev pub ninety_days : ℕ
ninety_days = 7776000000000000

-- The row passes the `WHERE` of `getFeedUnreadCountForUser`; `since` is the test of its date.
abbrev pub counts_as_unread : Statuses → (Article → Bool) → ℤ → ℤ → Article → Bool
counts_as_unread m since user_id feed_id article =
    article.feed_id == feed_id && (since article && not (is_read_by m user_id article.id))

unfoldable pub unread_in : Statuses → (Article → Bool) → ℤ → ℤ → List Article → ℕ
unread_in m since user_id feed_id [] = 0
unread_in m since user_id feed_id (article ∷ articles) =
    let rest = unread_in m since user_id feed_id articles in
    if counts_as_unread m since user_id feed_id article then suc rest else rest

unfoldable pub get_feed_unread_count_for_user : ℕ → ℤ → ℤ → Query ℕ
get_feed_unread_count_for_user now user_id feed_id =
    query (λ db.
      ok (unread_in db.user_articles (db.texts.since now) user_id feed_id (rows db.articles)))

-- The loop of `GetUserUnreadCounts`.
unfoldable pub unread_counts_of : Db → ℕ → ℤ → List Feed → Map ℤ ℤ → Map ℤ ℤ
unread_counts_of db now user_id [] counts = counts
unread_counts_of db now user_id (feed ∷ feeds) counts = unread_counts_of db now user_id feeds (
    insert feed.id
      (pos (unread_in db.user_articles (db.texts.since now) user_id feed.id (rows db.articles)))
      counts)

unfoldable pub get_user_unread_counts : ℕ → ℤ → Query (Map ℤ ℤ)
get_user_unread_counts now user_id = query (λ db.
    ok
      (unread_counts_of db now user_id (subscribed_feeds db.user_feeds user_id (rows db.feeds)) []))

-- `ORDER BY published_at DESC`; equal dates stay in the order of the table.
unfoldable pub insert_by_date : Article → List Article → List Article
insert_by_date a [] = a ∷ []
insert_by_date a (b ∷ l) =
    if ltb a.published_at b.published_at then b ∷ insert_by_date a l else a ∷ b ∷ l

unfoldable pub articles_by_date : ℤ → List Article → List Article
articles_by_date feed_id [] = []
articles_by_date feed_id (a ∷ l) =
    let rest = articles_by_date feed_id l in
    if a.feed_id == feed_id then insert_by_date a rest else rest

unfoldable pub get_articles : ℤ → Query (List Article)
get_articles feed_id = query (λ db. ok (articles_by_date feed_id (rows db.articles)))

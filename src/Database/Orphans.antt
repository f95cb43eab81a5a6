-- ===== src/Database/Orphans.antt =====
-- internal/database/schema.go: CleanupOrphanedUserArticles, which removes the marks of users on the
-- articles of feeds that they no longer read.
mod Tests
use goread.Base.{
  int_Eq, ℕ, zero, suc, Bool, false, not, ◌&&◌, ◌||◌, Option, none, some, List, [], ◌∷◌, ℤ, pos,
  lookup, if◌then◌else◌, ◌==◌,
}
use goread.Database.{Db, Article, ok, Exec, exec}
use goread.Database.Articles.{Statuses}
use goread.Database.Feeds.{is_subscribed}

-- What SQLite answers to `a.created_at < datetime('now', '-' || ? || ' days')`, which compares texts: the
-- stored one, in its own time zone, and that of a whole second in UTC.
abbrev pub Older : Type 0
Older = ℤ → Article → Bool

-- The mark of a user on a stored article of a feed that the user does not read; with a number of days
-- other than 0, only where the article is older.
unfoldable pub is_orphan : Db → Older → ℤ → (ℤ × ℤ) → Bool
is_orphan db older older_than_days (user_id, article_id) = elim (lookup article_id db.articles) [
  | none ↦ false
  | some article ↦
      not (is_subscribed db.user_feeds user_id article.feed_id)
      && (older_than_days == pos 0 || older older_than_days article)
]

-- The rows that stay, and how many go.
unfoldable pub without : ((ℤ × ℤ) → Bool) → Statuses → Statuses × ℕ
without drops [] = ([], 0)
without drops ((key, row) ∷ m) =
    let (kept, gone) = without drops m in
    if drops key then (kept, suc gone) else ((key, row) ∷ kept, gone)

-- The result is the number of rows affected.
unfoldable pub cleanup_orphaned_user_articles : Older → ℤ → Exec ℕ
cleanup_orphaned_user_articles older older_than_days = exec (λ db.
    let (kept, gone) = without (is_orphan db older older_than_days) db.user_articles in
    (record db { user_articles = kept }, ok gone))

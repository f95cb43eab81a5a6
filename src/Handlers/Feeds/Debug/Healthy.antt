-- ===== src/Handlers/Feeds/Debug/Healthy.antt =====
-- internal/handlers/feed_handler.go: what DebugAllSubscriptions says of a feed that is read.
use goread.Base.{
  int_Eq, pair_Eq, int_eq_iff, ℕ, suc, ◌≡◌, ◌≢◌, refl, sym, ap, ◌∙◌, true, false, some, ℤ, pos,
  lookup, if◌then◌else◌, if_true, ◌==◌, List, [], ◌∷◌, length, select, arith, Bool-cases,
  Option-cases, inl, inr,
}
use goread.Database.{Db, Feed, Article, ok}
use goread.Database.Articles.{insert_by_date, articles_by_date, get_articles}
use goread.Database.Feeds.{rows, is_subscribed}
use goread.Database.Pages.{joined, is_wanted, listed, get_user_feed_articles}
use goread.Database.Pages.Order.{length-sort_rows}
use goread.Handlers.Feeds.Debug.{feed_status, status_of, FeedStatus}

count_of : ℤ → List Article → ℕ
count_of f [] = 0
count_of f (a ∷ l) = if a.feed_id == f then suc (count_of f l) else count_of f l

length-insert_by_date :
    (a : Article) (l : List Article) → length (insert_by_date a l) ≡ suc (length l)
unfolding insert_by_date
length-insert_by_date a [] = refl
length-insert_by_date a (b ∷ l) = ground (arith, length-insert_by_date a l)

length-articles_by_date : (f : ℤ) (l : List Article) → length (articles_by_date f l) ≡ count_of f l
unfolding articles_by_date count_of
length-articles_by_date f [] = refl
length-articles_by_date f (a ∷ l) =
    ground (arith, length-articles_by_date f l, length-insert_by_date a (articles_by_date f l))

module _ (db : Db) (user f : ℤ) (feed : Feed) (stored : lookup f db.feeds ≡ some feed)
    (reads : is_subscribed db.user_feeds user f ≡ true) (ne : f ≢ pos 0) where
  length-select-joined :
      (l : List Article) → length (select (is_wanted f false) (joined db user l)) ≡ count_of f l
  unfolding joined count_of
  length-select-joined [] = refl
  length-select-joined (a ∷ l) = elim (Bool-cases (a.feed_id == f)) [
    | inl here ↦
        let same : a.feed_id ≡ f = (int_eq_iff a.feed_id f).0 here in
        let there : lookup a.feed_id db.feeds ≡ some feed =
          ap (λ x. lookup x db.feeds) same ∙ stored in
        let subscribed : is_subscribed db.user_feeds user a.feed_id ≡ true =
          ap (is_subscribed db.user_feeds user) same ∙ reads in
        rw (there, joined)
          (rw subscribed (ground (arith, here, length-select-joined l, int_eq_iff f (pos 0))))
    | inr other ↦ elim (Option-cases (lookup a.feed_id db.feeds)) [
      | inl absent ↦ rw (absent, joined) (ground (arith, other, length-select-joined l))
      | inr (title, present) ↦
          rw (present, joined)
            (ground (arith, other, length-select-joined l, int_eq_iff f (pos 0), ne))
    ]
  ]

  length-listed : length (listed db user f false) ≡ count_of f (rows db.articles)
  unfolding listed
  length-listed = length-sort_rows _ ∙ length-select-joined (rows db.articles)

healthy :
    (feed : Feed) (s : FeedStatus) (n k : ℕ)
    → s ≡ status_of feed n k
    → n ≡ k
    → (s.is_broken ≡ false)
      × (s.is_subscribed ≡ true)
      × (s.all_article_count ≡ s.user_article_count)
healthy feed s n k e same = rw e (ground (arith, same))

articles_read :
    (db : Db) (f : ℤ)
    → db.up ≡ true
    → get_articles f db ≡ ok (articles_by_date f (rows db.articles))
unfolding get_articles
articles_read db f up = if_true db.up _ _ up

listing_read :
    (db : Db) (user f : ℤ)
    → db.up ≡ true
    → is_subscribed db.user_feeds user f ≡ true
    → get_user_feed_articles user f db ≡ ok (listed db user f false)
unfolding get_user_feed_articles
listing_read db user f up reads =
    if_true db.up _ _ up ∙ ap ok (if_true (is_subscribed db.user_feeds user f) _ _ reads)

-- DebugAllSubscriptions never shows a stored feed that the user reads as broken: it counts as subscribed,
-- and as many of its articles can be read by the user as there are, while the driver answers. The id is
-- not 0, which the listing takes for all feeds.
pub status_healthy :
    (db : Db) (user : ℤ) (feed row : Feed)
    → db.up ≡ true
    → lookup feed.id db.feeds ≡ some row
    → is_subscribed db.user_feeds user feed.id ≡ true
    → feed.id ≢ pos 0
    → let s = feed_status db user feed in
      (s.is_broken ≡ false)
      × (s.is_subscribed ≡ true)
      × (s.all_article_count ≡ s.user_article_count)
unfolding feed_status
status_healthy db user feed row up stored reads ne =
    healthy feed (feed_status db user feed) (length (articles_by_date feed.id (rows db.articles)))
      (length (listed db user feed.id false))
      (rw (articles_read db feed.id up, listing_read db user feed.id up reads))
      (length-articles_by_date feed.id (rows db.articles)
        ∙ sym (length-listed db user feed.id row stored reads ne))

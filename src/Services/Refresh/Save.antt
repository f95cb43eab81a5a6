-- ===== src/Services/Refresh/Save.antt =====
-- internal/services/feed_service.go: what `saveArticlesFromFeedWithLimit` stores and returns.
use goread.Base.{
  string_Eq, int_Eq, ℕ, ◌≡◌, refl, sym, ap, Bool, true, false, ◌&&◌, ◌||◌, String, List, [], ◌∷◌,
  if_true, ℤ, ltb, ◌==◌, map, arith, Bool-cases, inl, inr, All, eq_iff,
}
use goread.Database.{Db, Article, err}
use goread.Database.Articles.{filter_existing_article_urls, existing_urls, contains}
use goread.Database.Feeds.{rows}
use goread.Services.Refresh.{
  ArticleData, FeedData, insert_sorted, sort_articles, articles_to_save, save_loop, or_empty,
  none_saved, save_articles_with_limit, save_articles, is_empty,
}

-- A row of the feed with the URL.
abbrev pub stored_in : ℤ → String → List Article → Bool
stored_in feed_id url [] = false
stored_in feed_id url (a ∷ l) = (a.feed_id == feed_id && a.url == url) || stored_in feed_id url l

contains-existing :
    (feed_id : ℤ) (url : String) (urls : List String) (l : List Article)
    → contains url urls ≡ true
    → stored_in feed_id url l ≡ true
    → contains url (existing_urls feed_id urls l) ≡ true
unfolding existing_urls
contains-existing feed_id url urls [] c h = cc
contains-existing feed_id url urls (a ∷ l) c h =
    elim (Bool-cases (a.feed_id == feed_id && a.url == url)) [
      | inl here ↦
          let e : a.url ≡ url = (eq_iff a.url url).0 (ground arith) in
          ground (arith, ap (λ u. contains u urls) e, eq_iff a.url url)
      | inr later ↦ ground (arith, contains-existing feed_id url urls l c)
    ]

-- The loop passes over articles that are known.
save_loop_known :
    (feed_id : ℤ) (now : ℕ) (existing : List String) (l : List ArticleData) (db : Db) (saved : ℕ)
    → All (λ a. contains a.link existing ≡ true) l
    → save_loop feed_id now existing l db saved ≡ (db, saved)
unfolding save_loop
save_loop_known feed_id now existing [] db saved h = refl
save_loop_known feed_id now existing (a ∷ l) db saved h =
    rw (h.0) (save_loop_known feed_id now existing l db saved h.1)

-- The URLs of a list contain the link of each of its articles.
abbrev pub links : List ArticleData → List String
links = map (λ a. a.link)

All-mono :
    {P Q : ArticleData → Type 0} (l : List ArticleData)
    → ((a : ArticleData) → P a → Q a)
    → All P l
    → All Q l
All-mono [] f h = tt
All-mono (a ∷ l) f h = (f a h.0, All-mono l f h.1)

contains-links : (l : List ArticleData) → All (λ a. contains a.link (links l) ≡ true) l
contains-links [] = tt
contains-links (a ∷ l) =
    (ground (arith, eq_iff a.link a.link), All-mono l (λ b h. ground arith) (contains-links l))

known-links :
    (feed_id : ℤ) (table : List Article) (all l : List ArticleData)
    → All (λ a. contains a.link (links all) ≡ true) l
    → All (λ a. stored_in feed_id a.link table ≡ true) l
    → All (λ a. contains a.link (existing_urls feed_id (links all) table) ≡ true) l
known-links feed_id table all [] c h = tt
known-links feed_id table all (a ∷ l) c h = (
  contains-existing feed_id a.link (links all) table c.0 h.0,
  known-links feed_id table all l c.1 h.1,
)

-- Sorting keeps what holds of every article.
All-insert_sorted :
    (P : ArticleData → Type 0) (a : ArticleData) (l : List ArticleData)
    → P a
    → All P l
    → All P (insert_sorted a l)
unfolding insert_sorted
All-insert_sorted P a [] h hs = (h, tt)
All-insert_sorted P a (b ∷ l) h hs = elim (Bool-cases (ltb a.published_at b.published_at)) [
  | inl older ↦ rw older (hs.0, All-insert_sorted P a l h hs.1)
  | inr newer ↦ rw newer (h, hs)
]

pub All-sort_articles :
    (P : ArticleData → Type 0) (l : List ArticleData) → All P l → All P (sort_articles l)
unfolding sort_articles
All-sort_articles P [] h = tt
All-sort_articles P (a ∷ l) h =
    All-insert_sorted P a (sort_articles l) h.0 (All-sort_articles P l h.1)

sort-nonempty : (l : List ArticleData) → is_empty l ≡ false → is_empty (sort_articles l) ≡ false
unfolding sort_articles insert_sorted
sort-nonempty [] h = cc
sort-nonempty (a ∷ l) h = insert-nonempty a (sort_articles l)
  where
    insert-nonempty :
        (a : ArticleData) (l : List ArticleData) → is_empty (insert_sorted a l) ≡ false
    insert-nonempty a [] = refl
    insert-nonempty a (b ∷ l) = ground arith

existing-nil : (feed_id : ℤ) (l : List Article) → existing_urls feed_id [] l ≡ []
unfolding existing_urls
existing-nil feed_id [] = refl
existing-nil feed_id (a ∷ l) = ground (arith, existing-nil feed_id l)

pub filter-query :
    (feed_id : ℤ) (urls : List String) (db : Db)
    → db.up ≡ true
    → or_empty (filter_existing_article_urls feed_id urls db)
      ≡ existing_urls feed_id urls (rows db.articles)
unfolding filter_existing_article_urls
filter-query feed_id [] db up = sym (existing-nil feed_id (rows db.articles))
filter-query feed_id (u ∷ urls) db up = ap or_empty (if_true db.up _ _ up)

-- When the store has every article of a feed's data already, under that feed, and there is one at
-- least, saving them stores nothing and reports a failure, though nothing failed.
pub save_known-fails :
    (feed_id : ℤ) (now : ℕ) (fetched : FeedData) (db : Db)
    → db.up ≡ true
    → is_empty fetched.articles ≡ false
    → All (λ a. stored_in feed_id a.link (rows db.articles) ≡ true) fetched.articles
    → save_articles feed_id now fetched db ≡ (db, err none_saved)
unfolding save_articles save_articles_with_limit articles_to_save
save_known-fails feed_id now fetched db up some_article known =
    let l = sort_articles fetched.articles in
    let known' = known-links feed_id (rows db.articles) l l (contains-links l) (
      All-sort_articles (λ a. stored_in feed_id a.link (rows db.articles) ≡ true) fetched.articles
        known) in
    rw (filter-query feed_id (links l) db up) (
      rw
        (save_loop_known feed_id now (existing_urls feed_id (links l) (rows db.articles)) l db 0
          known')
        (rw (sort-nonempty fetched.articles some_article)))

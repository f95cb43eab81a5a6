-- ===== src/Services/Refresh/Present.antt =====
-- internal/services/feed_service.go: after a save the store has every article of the feed's data.
use goread.Base.{
  string_Eq, int_Eq, ℕ, ◌≤◌, ◌≡◌, sym, ap, subst, ◌∙◌, true, ◌||◌, String, none, List, [], ◌∷◌,
  if◌then◌else◌, ℤ, pos, Map, ltb, ◌==◌, arith, Bool-cases, inl, inr, All, is_some, insert,
  lookup-insert, eq_iff, lookup,
}
use goread.Database.{Db, Article}
use goread.Database.Articles.{
  add_article, article_with_url, filter_existing_article_urls, existing_urls, contains,
}
use goread.Database.Feeds.{rows}
use goread.Services.Refresh.{
  ArticleData, FeedData, insert_sorted, sort_articles, articles_to_save, article_of, save_loop,
  or_empty, save_articles_with_limit, save_articles,
}
use goread.Services.Refresh.Save.{filter-query, links}

-- The ids from `next_article` on are free, as `AUTOINCREMENT` ensures.
abbrev pub HasFreshIds : Db → Type 0
HasFreshIds db = (n : ℕ) → db.next_article ≤ n → lookup (pos n) db.articles ≡ none

article_with_url-insert :
    (u : String) (k : ℤ) (a : Article) (m : Map ℤ Article)
    → lookup k m ≡ none
    → is_some (article_with_url u (insert k a m)) ≡ (is_some (article_with_url u m) || a.url == u)
unfolding article_with_url insert lookup
article_with_url-insert u k a [] h = ground arith
article_with_url-insert u k a ((j, b) ∷ m) h = ground (arith, article_with_url-insert u k a m)

add-keeps :
    (u : String) (a : Article) (db : Db)
    → HasFreshIds db
    → is_some (article_with_url u db.articles) ≡ true
    → is_some (article_with_url u (add_article a db).0.articles) ≡ true
unfolding add_article
add-keeps u a db fresh h = ground (
  arith,
  fresh db.next_article,
  article_with_url-insert u (pos db.next_article) (record a { id = pos db.next_article })
      db.articles,
)

add-present :
    (a : Article) (db : Db)
    → db.up ≡ true
    → HasFreshIds db
    → is_some (article_with_url a.url (add_article a db).0.articles) ≡ true
unfolding add_article
add-present a db up fresh = ground (
  arith,
  up,
  fresh db.next_article,
  eq_iff a.url a.url,
  article_with_url-insert a.url (pos db.next_article) (record a { id = pos db.next_article })
      db.articles,
)

add-HasFreshIds : (a : Article) (db : Db) → HasFreshIds db → HasFreshIds (add_article a db).0
unfolding add_article
add-HasFreshIds a db fresh n h = ground (
  arith,
  fresh n,
  lookup-insert (pos db.next_article) (pos n) (record a { id = pos db.next_article }) db.articles,
)

up-add : (a : Article) (db : Db) → (add_article a db).0.up ≡ db.up
unfolding add_article
up-add a db = ground arith

existing-present :
    (feed_id : ℤ) (u : String) (urls : List String) (m : Map ℤ Article)
    → contains u (existing_urls feed_id urls (rows m)) ≡ true
    → is_some (article_with_url u m) ≡ true
unfolding existing_urls article_with_url
existing-present feed_id u urls [] h = cc
existing-present feed_id u urls ((k, a) ∷ m) h = ground (arith, existing-present feed_id u urls m)

module _ (feed_id : ℤ) (now : ℕ) (existing : List String) where
  -- One round of the loop leaves a store that answers, has fresh ids and keeps what it has.
  step_db : ArticleData → Db → Db
  step_db a db =
      if contains a.link existing then db else (add_article (article_of feed_id now a) db).0

  step-HasFreshIds : (a : ArticleData) (db : Db) → HasFreshIds db → HasFreshIds (step_db a db)
  unfolding step_db
  step-HasFreshIds a db fresh = elim (Bool-cases (contains a.link existing)) [
    | inl known ↦ rw known fresh
    | inr new ↦ rw new (add-HasFreshIds (article_of feed_id now a) db fresh)
  ]

  step-up : (a : ArticleData) (db : Db) → (step_db a db).up ≡ db.up
  unfolding step_db
  step-up a db = elim (Bool-cases (contains a.link existing)) [
    | inl known ↦ rw known
    | inr new ↦ rw new (up-add (article_of feed_id now a) db)
  ]

  step-keeps :
      (u : String) (a : ArticleData) (db : Db)
      → HasFreshIds db
      → is_some (article_with_url u db.articles) ≡ true
      → is_some (article_with_url u (step_db a db).articles) ≡ true
  unfolding step_db
  step-keeps u a db fresh h = elim (Bool-cases (contains a.link existing)) [
    | inl known ↦ rw known h
    | inr new ↦ rw new (add-keeps u (article_of feed_id now a) db fresh h)
  ]

  step-present :
      (a : ArticleData) (db : Db)
      → db.up ≡ true
      → HasFreshIds db
      → ((u : String)
          → contains u existing ≡ true
          → is_some (article_with_url u db.articles) ≡ true)
      → is_some (article_with_url a.link (step_db a db).articles) ≡ true
  unfolding step_db
  step-present a db up fresh old = elim (Bool-cases (contains a.link existing)) [
    | inl known ↦ rw known (old a.link known)
    | inr new ↦ rw new (add-present (article_of feed_id now a) db up fresh)
  ]

  loop-keeps :
      (u : String) (l : List ArticleData) (db : Db) (saved : ℕ)
      → HasFreshIds db
      → is_some (article_with_url u db.articles) ≡ true
      → is_some (article_with_url u (save_loop feed_id now existing l db saved).0.articles) ≡ true
  unfolding save_loop step_db
  loop-keeps u [] db saved fresh h = h
  loop-keeps u (a ∷ l) db saved fresh h =
      loop-keeps u l (step_db a db) _ (step-HasFreshIds a db fresh) (step-keeps u a db fresh h)

  loop-present :
      (l : List ArticleData) (db : Db) (saved : ℕ)
      → db.up ≡ true
      → HasFreshIds db
      → ((u : String)
          → contains u existing ≡ true
          → is_some (article_with_url u db.articles) ≡ true)
      → All
          (λ a.
            is_some (article_with_url a.link (save_loop feed_id now existing l db saved).0.articles)
            ≡ true)
          l
  unfolding save_loop step_db
  loop-present [] db saved up fresh old = tt
  loop-present (a ∷ l) db saved up fresh old = (
    loop-keeps a.link l (step_db a db) _ (step-HasFreshIds a db fresh)
        (step-present a db up fresh old),
    loop-present l (step_db a db) _ (step-up a db ∙ up) (step-HasFreshIds a db fresh)
        (λ u h. step-keeps u a db fresh (old u h)),
  )

All-of_insert_sorted :
    (P : ArticleData → Type 0) (a : ArticleData) (l : List ArticleData)
    → All P (insert_sorted a l)
    → P a × All P l
unfolding insert_sorted
All-of_insert_sorted P a [] h = h
All-of_insert_sorted P a (b ∷ l) h = elim (Bool-cases (ltb a.published_at b.published_at)) [
  | inl older ↦
      let h' = subst (λ x. All P (if x then b ∷ insert_sorted a l else a ∷ b ∷ l)) older h in
      let rest = All-of_insert_sorted P a l h'.1 in (rest.0, (h'.0, rest.1))
  | inr newer ↦ subst (λ x. All P (if x then b ∷ insert_sorted a l else a ∷ b ∷ l)) newer h
]

All-of_sort : (P : ArticleData → Type 0) (l : List ArticleData) → All P (sort_articles l) → All P l
unfolding sort_articles
All-of_sort P [] h = tt
All-of_sort P (a ∷ l) h =
    let rest = All-of_insert_sorted P a (sort_articles l) h in (rest.0, All-of_sort P l rest.1)

-- While the driver answers and its ids are fresh, saving a feed's data with no limit leaves a stored
-- article for the link of each of its articles, whatever was stored before and whatever is returned.
pub save-present :
    (feed_id : ℤ) (now : ℕ) (fetched : FeedData) (db : Db)
    → db.up ≡ true
    → HasFreshIds db
    → All
        (λ a.
          is_some (article_with_url a.link (save_articles feed_id now fetched db).0.articles)
          ≡ true)
        fetched.articles
unfolding save_articles save_articles_with_limit articles_to_save
save-present feed_id now fetched db up fresh =
    let l = sort_articles fetched.articles in
    let existing = or_empty (filter_existing_article_urls feed_id (links l) db) in
    All-of_sort
      (λ a.
        is_some (article_with_url a.link (save_loop feed_id now existing l db 0).0.articles) ≡ true)
      fetched.articles
      (loop-present feed_id now existing l db 0 up fresh (λ u h.
        existing-present feed_id u (links l) db.articles
          (ap (contains u) (sym (filter-query feed_id (links l) db up)) ∙ h)))

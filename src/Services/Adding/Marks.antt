-- ===== src/Services/Adding/Marks.antt =====
-- internal/services/feed_service.go: the read marks and stars after a feed was added.
use goread.Base.{
  Bool, int_Eq, pair_Eq, string_Eq, int_eq_iff, ℕ, zero, suc, ◌≡◌, refl, ◌∙◌, ap, sym, subst, true,
  false, ◌||◌, String, some, List, [], ◌∷◌, if_true, ℤ, pos, lookup, insert, arith, inl, inr, ◌==◌,
  ltb_ℤ,
}
use goread.Database.{Db, User, Feed, Article, UserArticle, DbError, Result, ok}
use goread.Database.Users.{get_user_by_id}
use goread.Database.Articles.{
  insert_by_date, articles_by_date, get_articles, replace_rows, batch_set_user_article_status,
}
use goread.Database.Feeds.{rows, feed_with_url, get_feed_by_url, subscribe_user_to_feed}
use goread.Database.Unread.{Within}
use goread.Database.Stars.{replaces, lookup-replace_rows}
use goread.Services.Reading.{FeedService}
use goread.Services.Refresh.{Fetch}
use goread.Services.Adding.{
  Discover, mark_existing_articles_as_unread, limited, finish_adding, find_or_create,
  subscribe_found, add_feed_for_user, add_feed_for_user_internal,
}

-- Every article of the feed is among those that are listed.
replaces-insert_by_date :
    (id : ℤ) (a : Article) (l : List Article)
    → replaces id (insert_by_date a l) ≡ (a.id == id || replaces id l)
unfolding insert_by_date
replaces-insert_by_date id a [] = refl
replaces-insert_by_date id a (b ∷ l) = ground (arith, replaces-insert_by_date id a l)

replaces-articles_by_date :
    (feed : ℤ) (a : Article) (l : List Article)
    → Within a l
    → (a.feed_id == feed) ≡ true
    → replaces a.id (articles_by_date feed l) ≡ true
unfolding articles_by_date
replaces-articles_by_date feed a [] w own = absurd w
replaces-articles_by_date feed a (b ∷ l) (inl here) own =
    subst (λ x. replaces a.id (articles_by_date feed (x ∷ l)) ≡ true) (sym here)
      (ground (
        arith,
        own,
        replaces-insert_by_date a.id a (articles_by_date feed l),
        int_eq_iff a.id a.id,
      ))
replaces-articles_by_date feed a (b ∷ l) (inr later) own = ground (
  arith,
  replaces-articles_by_date feed a l later own,
  replaces-insert_by_date a.id b (articles_by_date feed l),
)

abbrev unmarked : UserArticle
unmarked = record { is_read = false; is_starred = false }

limited-all : (n : ℤ) (l : List Article) → ltb_ℤ (pos 0) n ≡ false → limited n l ≡ l
limited-all (pos zero) l h = refl
limited-all (pos (suc n)) l h = absurd (ground arith)
limited-all _ l h = refl

rows_of_batch :
    (user : ℤ) (l : List Article) (db : Db)
    → db.up ≡ true
    → (batch_set_user_article_status user l false false db).0.user_articles
      ≡ replace_rows user unmarked l db.user_articles
unfolding batch_set_user_article_status replace_rows
rows_of_batch user [] db up = refl
rows_of_batch user (a ∷ l) db up =
    ap (λ (r : Db × Result DbError (Unit {0})). r.0.user_articles) (if_true db.up _ _ up)

module _ (user : ℤ) (u : User) (a : Article)
    (unlimited : ltb_ℤ (pos 0) u.max_articles_on_feed_add ≡ false) where
  marked_rows :
      (feed : ℤ) (db : Db)
      → db.up ≡ true
      → lookup user db.users ≡ some u
      → Within a (rows db.articles)
      → (a.feed_id == feed) ≡ true
      → lookup (user, a.id) (mark_existing_articles_as_unread user feed db).0.user_articles
        ≡ some unmarked
  unfolding mark_existing_articles_as_unread get_user_by_id get_articles
  marked_rows feed db up found stored own =
      let l = articles_by_date feed (rows db.articles) in
      let user_read : get_user_by_id user db ≡ ok u = ground (arith, up, found) in
      let listed : get_articles feed db ≡ ok l = if_true db.up _ _ up in
      rw (user_read, mark_existing_articles_as_unread)
        (rw listed (
          rw (limited-all u.max_articles_on_feed_add l unlimited) (
            rw (rows_of_batch user l db up) (
              lookup-replace_rows user a.id unmarked l db.user_articles
              ∙ if_true _ _ _ (replaces-articles_by_date feed a (rows db.articles) stored own)))))

  finish_marked :
      (fs : FeedService) (feed : Feed)
      → fs.db.up ≡ true
      → lookup user fs.db.users ≡ some u
      → Within a (rows fs.db.articles)
      → (a.feed_id == feed.id) ≡ true
      → lookup (user, a.id) (finish_adding fs user feed).0.db.user_articles ≡ some unmarked
  unfolding finish_adding subscribe_user_to_feed
  finish_marked fs feed up found stored own =
      let db = record (fs.db) { user_feeds = insert (user, feed.id) tt fs.db.user_feeds } in
      let marked = marked_rows feed.id db up found stored own in ground (arith, up, marked)

-- Adding a feed that is stored already marks each of its articles unread and removes its star, also for
-- a user who reads the feed and had read and starred them. The driver answers, discovery finds the
-- feed's URL, the store has the user, and the user sets no limit on the articles of a new feed.
pub add-resets_marks :
    (in_time : Bool) (discover : Discover) (fetch : Fetch) (fs : FeedService) (now : ℕ) (user : ℤ)
    (input url : String) (others : List String) (u : User) (feed : Feed) (a : Article)
    → fs.db.up ≡ true
    → discover input ≡ ok (url ∷ others)
    → feed_with_url url fs.db.feeds ≡ some feed
    → lookup user fs.db.users ≡ some u
    → ltb_ℤ (pos 0) u.max_articles_on_feed_add ≡ false
    → Within a (rows fs.db.articles)
    → a.feed_id ≡ feed.id
    → lookup
        (user, a.id)
        (add_feed_for_user in_time discover fetch fs now user input).0.db.user_articles
      ≡ some (record { is_read = false; is_starred = false })
unfolding add_feed_for_user add_feed_for_user_internal find_or_create get_feed_by_url
    subscribe_found
add-resets_marks in_time discover fetch fs now user input url others u feed a up discovered known
      found unlimited stored own =
    let present : get_feed_by_url url fs.db ≡ ok (some feed) = ground (arith, up, known) in
    rw (discovered, add_feed_for_user_internal)
      (rw (present, find_or_create)
        (finish_marked user u a unlimited fs feed up found stored
          ((int_eq_iff a.feed_id feed.id).1 own)))

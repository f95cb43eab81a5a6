-- ===== src/Services/Adding/Frame.antt =====
-- internal/services/feed_service.go: adding a feed changes no user, and only one subscription.
use goread.Base.{
  int_Eq, pair_Eq, string_Eq, ℕ, ◌≡◌, refl, ◌∙◌, ap, Bool, true, false, String, none, List, [], ◌∷◌,
  if◌then◌else◌, ℤ, arith, Option-cases, inl, inr,
}
use goread.Database.{Db, Feed, Article, DbError, Result, ok, err, Result-cases}
use goread.Database.Users.{get_user_by_id}
use goread.Database.Articles.{add_article, get_articles, batch_set_user_article_status, contains}
use goread.Database.Feeds.{add_feed, get_feed_by_url}
use goread.Services.Refresh.{
  Fetch, FeedData, ArticleData, SaveError, article_of, save_loop, save_articles_with_limit,
}
use goread.Services.Adding.{
  save_failed, mark_existing_articles_as_unread, save_new_feed, create_feed, find_or_create,
}

-- The users and the subscriptions of two stores are the same, and both answer or both do not.
pub record Keeps (db db' : Db) : Type 0 where
  pub users : db'.users ≡ db.users
  pub user_feeds : db'.user_feeds ≡ db.user_feeds
  pub up : db'.up ≡ db.up

Keeps-all : (db : Db) → Keeps db db
Keeps-all db = record { users = refl; user_feeds = refl; up = refl }

Keeps-then : (a b c : Db) → Keeps a b → Keeps b c → Keeps a c
Keeps-then a b c h k = record {
  users = k.users ∙ h.users;
  user_feeds = k.user_feeds ∙ h.user_feeds;
  up = k.up ∙ h.up;
}

Keeps-add_article : (a : Article) (db : Db) → Keeps db (add_article a db).0
unfolding add_article
Keeps-add_article a db = record {
  users = ground arith;
  user_feeds = ground arith;
  up = ground arith;
}

Keeps-add_feed : (feed : Feed) (db : Db) → Keeps db (add_feed feed db).0
unfolding add_feed
Keeps-add_feed feed db = record {
  users = ground arith;
  user_feeds = ground arith;
  up = ground arith;
}

Keeps-if : (b : Bool) (db x y : Db) → Keeps db x → Keeps db y → Keeps db (if b then x else y)
Keeps-if true db x y h k = h
Keeps-if false db x y h k = k

Keeps-save_loop :
    (feed_id : ℤ) (now : ℕ) (existing : List String) (l : List ArticleData) (db : Db) (saved : ℕ)
    → Keeps db (save_loop feed_id now existing l db saved).0
unfolding save_loop
Keeps-save_loop feed_id now existing [] db saved = Keeps-all db
Keeps-save_loop feed_id now existing (a ∷ l) db saved =
    let added = (add_article (article_of feed_id now a) db).0 in
    let db' = if contains a.link existing then db else added in
    Keeps-then db db' _
      (Keeps-if (contains a.link existing) db db added (Keeps-all db)
        (Keeps-add_article (article_of feed_id now a) db))
      (Keeps-save_loop feed_id now existing l db' _)

Keeps-save_articles_with_limit :
    (feed_id : ℤ) (now : ℕ) (feed_data : FeedData) (n : ℤ) (db : Db)
    → Keeps db (save_articles_with_limit feed_id now feed_data n db).0
unfolding save_articles_with_limit
Keeps-save_articles_with_limit feed_id now feed_data n db = Keeps-save_loop feed_id now _ _ db 0

pub Keeps-mark_existing :
    (user feed : ℤ) (db : Db) → Keeps db (mark_existing_articles_as_unread user feed db).0
unfolding mark_existing_articles_as_unread get_user_by_id get_articles batch_set_user_article_status
Keeps-mark_existing user feed db = record {
  users = ground arith;
  user_feeds = ground arith;
  up = ground arith;
}

Keeps-save_failed :
    (r : Db × Result SaveError ℕ) (feed : Feed) (db : Db)
    → Keeps db r.0
    → Keeps db (save_failed r feed).0
unfolding save_failed
Keeps-save_failed (db', ok _) feed db h = h
Keeps-save_failed (db', err _) feed db h = h

Keeps-save_new_feed :
    (now : ℕ) (user : ℤ) (feed_data : FeedData) (r : Db × Result DbError Feed) (db : Db)
    → Keeps db r.0
    → Keeps db (save_new_feed now user feed_data r).0
unfolding save_new_feed
Keeps-save_new_feed now user feed_data (db', err _) db h = h
Keeps-save_new_feed now user feed_data (db', ok feed) db h =
    elim (Result-cases (get_user_by_id user db')) [
      | inl (u, found) ↦
          let n = u.max_articles_on_feed_add in
          rw (found, save_new_feed)
            (Keeps-save_failed (save_articles_with_limit feed.id now feed_data n db') feed db
              (Keeps-then db db' _ h (Keeps-save_articles_with_limit feed.id now feed_data n db')))
      | inr (e, failed) ↦ rw (failed, save_new_feed) h
    ]

Keeps-create_feed :
    (fetch : Fetch) (now : ℕ) (user : ℤ) (url : String) (db : Db)
    → Keeps db (create_feed fetch now user url db).0
unfolding create_feed
Keeps-create_feed fetch now user url db = elim (Result-cases (fetch url none)) [
  | inl (feed_data, fetched) ↦
      rw (fetched, create_feed) (Keeps-save_new_feed now user feed_data _ db (Keeps-add_feed _ db))
  | inr (e, failed) ↦ rw (failed, create_feed) (Keeps-all db)
]

pub Keeps-find_or_create :
    (fetch : Fetch) (now : ℕ) (user : ℤ) (url : String) (db : Db)
    → Keeps db (find_or_create fetch now user url db).0
unfolding find_or_create
Keeps-find_or_create fetch now user url db = elim (Result-cases (get_feed_by_url url db)) [
  | inl (found, answered) ↦ elim (Option-cases found) [
    | inl absent ↦
        rw (answered ∙ ap ok absent, find_or_create) (Keeps-create_feed fetch now user url db)
    | inr (feed, present) ↦ rw (answered ∙ ap ok present, find_or_create) (Keeps-all db)
  ]
  | inr (e, failed) ↦ rw (failed, find_or_create) (Keeps-all db)
]

-- ===== src/Datastore/Agreement/Marks.antt =====
-- internal/database/datastore.go and schema.go: the marks of users and their subscriptions in the two
-- stores.
use goread.Base.{
  int_Eq, pair_Eq, ◌≡◌, refl, Bool, true, ℤ, lookup, insert, List, [], ◌∷◌, arith, is_some,
}
use goread.Database.{Db, Article, UserArticle}
use goread.Database.Articles
use goread.Database.Articles.{Statuses, mark_row, toggle_row, replace_rows}
use goread.Database.Feeds
use goread.Database.Feeds.{Subscriptions, is_subscribed}
use goread.Datastore.Agreement.{Agrees}
use goread.Datastore.Marks
use goread.Datastore.Marks.{put_marks, ids_of, get_user_article_status, set_user_article_status}
use goread.Datastore.Subscriptions

put_marks-ids_of :
    (user : ℤ) (row : UserArticle) (l : List Article) (m : Statuses)
    → put_marks user row (ids_of l) m ≡ replace_rows user row l m
unfolding put_marks replace_rows
put_marks-ids_of user row [] m = refl
put_marks-ids_of user row (a ∷ l) m = put_marks-ids_of user row l (insert (user, a.id) row m)

abbrev with_marks : Db → Statuses → Db
with_marks db m = record db { user_articles = m }

insert_same :
    (k : ℤ × ℤ) (subs : Subscriptions) → is_some (lookup k subs) ≡ true → insert k tt subs ≡ subs
unfolding insert lookup
insert_same k [] h = cc
insert_same k ((j, w) ∷ m) h = ground (arith, pair_Eq.beq_iff j k, insert_same k m)

module _ (db : Db) (user id : ℤ) (up : db.up ≡ true) where
  mark-Agrees :
      (r : Bool)
      → Agrees
          (Marks.mark_user_article_read user id r)
          (Articles.mark_user_article_read user id r)
          db
  unfolding Marks.mark_user_article_read Articles.mark_user_article_read get_user_article_status
      set_user_article_status mark_row
  mark-Agrees r = ground arith

  toggle-Agrees :
      Agrees (Marks.toggle_user_article_star user id) (Articles.toggle_user_article_star user id) db
  unfolding Marks.toggle_user_article_star Articles.toggle_user_article_star get_user_article_status
      set_user_article_status toggle_row
  toggle-Agrees = ground arith

  set-Agrees :
      (r starred : Bool)
      → Agrees
          (Marks.set_user_article_status user id r starred)
          (Articles.set_user_article_status user id r starred)
          db
  unfolding Articles.set_user_article_status set_user_article_status
  set-Agrees r starred = ground arith

  batch-Agrees :
      (articles : List Article) (r starred : Bool)
      → Agrees
          (Marks.batch_set_user_article_status user articles r starred)
          (Articles.batch_set_user_article_status user articles r starred)
          db
  unfolding Articles.batch_set_user_article_status Marks.batch_set_user_article_status
  batch-Agrees [] r starred = refl
  batch-Agrees (a ∷ l) r starred = ground (
    arith,
    put_marks-ids_of user (record { is_read = r; is_starred = starred }) (a ∷ l) db.user_articles,
  )

  subscribe-Agrees :
      Agrees
        (Subscriptions.subscribe_user_to_feed user id)
        (Feeds.subscribe_user_to_feed user id)
        db
  unfolding Subscriptions.subscribe_user_to_feed Feeds.subscribe_user_to_feed
  subscribe-Agrees = ground (arith, insert_same (user, id) db.user_feeds)

  unsubscribe-Agrees :
      Agrees
        (Subscriptions.unsubscribe_user_from_feed user id)
        (Feeds.unsubscribe_user_from_feed user id)
        db
  unfolding Subscriptions.unsubscribe_user_from_feed Feeds.unsubscribe_user_from_feed
  unsubscribe-Agrees = ground arith

-- While all calls and the driver answer, marking an article, starring it, setting its marks, setting the
-- marks of many, subscribing and unsubscribing do in the Datastore exactly what they do in SQLite, with
-- the same result.
pub marks-Agree :
    (db : Db) (user id : ℤ) (articles : List Article) (r starred : Bool)
    → db.up ≡ true
    → Agrees (Marks.mark_user_article_read user id r) (Articles.mark_user_article_read user id r) db
      × Agrees
          (Marks.toggle_user_article_star user id)
          (Articles.toggle_user_article_star user id)
          db
      × Agrees
          (Marks.set_user_article_status user id r starred)
          (Articles.set_user_article_status user id r starred)
          db
      × Agrees
          (Marks.batch_set_user_article_status user articles r starred)
          (Articles.batch_set_user_article_status user articles r starred)
          db
      × Agrees
          (Subscriptions.subscribe_user_to_feed user id)
          (Feeds.subscribe_user_to_feed user id)
          db
      × Agrees
          (Subscriptions.unsubscribe_user_from_feed user id)
          (Feeds.unsubscribe_user_from_feed user id)
          db
marks-Agree db user id articles r starred up = (
  mark-Agrees db user id up r,
  toggle-Agrees db user id up,
  set-Agrees db user id up r starred,
  batch-Agrees db user id up articles r starred,
  subscribe-Agrees db user id up,
  unsubscribe-Agrees db user id up,
)

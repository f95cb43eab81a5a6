-- ===== src/Datastore/Marks.antt =====
-- internal/database/datastore.go: the methods on `UserArticle`, and single articles for their readers.
use goread.Base.{
  int_Eq, pair_Eq, ℕ, Bool, true, false, not, Option, none, some, ℤ, lookup, insert, List, [], ◌∷◌,
  length, ◌++◌, chunks,
}
use goread.Database.{Feed, Article, UserArticle}
use goread.Database.Feeds.{is_subscribed, rows}
use goread.Database.Articles.{Statuses, articles_by_date, row_read}
use goread.Database.Stars.{row_starred}
use goread.Database.Pages.{Row}
use goread.Datastore.{
  Ds, ◌>>=◌, ◌>>◌, pure, attempt, query_entities, write_entities, get_entity, get_multi, slots,
  Slot, found, missing, broken,
}
use goread.Datastore.Feeds.{article_ids, get_feed_by_id}
use goread.Datastore.Subscriptions.{get_user_feeds}

-- A missing entity is an error, too.
unfoldable pub get_user_article_status : ℤ → ℤ → Ds UserArticle
get_user_article_status user_id article_id =
    get_entity (λ db. db.user_articles) (user_id, article_id)

unfoldable pub set_user_article_status : ℤ → ℤ → Bool → Bool → Ds (Unit {0})
set_user_article_status user_id article_id is_read is_starred = write_entities (λ db. record db {
  user_articles =
      insert (user_id, article_id) (record { is_read = is_read; is_starred = is_starred })
        db.user_articles;
})

-- Any error of the read is taken for a missing mark.
unfoldable pub mark_user_article_read : ℤ → ℤ → Bool → Ds (Unit {0})
unfolding get_user_article_status set_user_article_status
mark_user_article_read user_id article_id is_read = do
  existing ← attempt (get_user_article_status user_id article_id)
  set_user_article_status user_id article_id is_read (row_starred existing)

unfoldable pub toggle_user_article_star : ℤ → ℤ → Ds (Unit {0})
unfolding get_user_article_status set_user_article_status
toggle_user_article_star user_id article_id = do
  existing ← attempt (get_user_article_status user_id article_id)
  set_user_article_status user_id article_id (row_read existing) (not (row_starred existing))

-- The chunks of 500 are written in one transaction.
unfoldable pub put_marks : ℤ → UserArticle → List ℤ → Statuses → Statuses
put_marks user_id row [] m = m
put_marks user_id row (id ∷ ids) m = put_marks user_id row ids (insert (user_id, id) row m)

abbrev commit_marks : ℤ → UserArticle → List ℤ → Ds (Unit {0})
commit_marks user_id row ids =
    write_entities (λ db. record db { user_articles = put_marks user_id row ids db.user_articles })

abbrev pub ids_of : List Article → List ℤ
ids_of [] = []
ids_of (article ∷ articles) = article.id ∷ ids_of articles

unfoldable pub batch_set_user_article_status : ℤ → List Article → Bool → Bool → Ds (Unit {0})
unfolding put_marks
batch_set_user_article_status user_id [] is_read is_starred = pure tt
batch_set_user_article_status user_id (article ∷ articles) is_read is_starred =
    commit_marks user_id (record { is_read = is_read; is_starred = is_starred })
      (ids_of (article ∷ articles))

-- One query of keys for each feed; the first error ends it.
unfoldable pub article_ids_of_feeds : List Feed → Ds (List ℤ)
unfolding article_ids
article_ids_of_feeds [] = pure []
article_ids_of_feeds (feed ∷ feeds) = do
  ids ← query_entities (λ db. article_ids feed.id db.articles)
  rest ← article_ids_of_feeds feeds
  pure (ids ++ rest)

abbrev mark_ids_read : ℤ → List ℤ → Ds ℕ
mark_ids_read user_id [] = pure 0
mark_ids_read user_id (id ∷ ids) = do
  commit_marks user_id (record { is_read = true; is_starred = false }) (id ∷ ids)
  pure (length (id ∷ ids))

unfoldable pub mark_all_user_articles_read : ℤ → Ds ℕ
unfolding get_user_feeds article_ids_of_feeds
mark_all_user_articles_read user_id = do
  feeds ← get_user_feeds user_id
  ids ← article_ids_of_feeds feeds
  mark_ids_read user_id ids

abbrev pub slot_mark : Slot UserArticle → Option UserArticle
slot_mark (found row) = some row
slot_mark missing = none
slot_mark broken = none

abbrev pub keys_of : ℤ → List ℤ → List (ℤ × ℤ)
keys_of user_id [] = []
keys_of user_id (id ∷ ids) = (user_id, id) ∷ keys_of user_id ids

-- What a read of one article gives: nothing, a row, or the panic on the title of a feed that has no
-- entity.
pub data Shown : Type 0 where
  nothing panics : Shown
  shown : Row → Shown

-- `text` is of use in SQLite only, and is given the date.
abbrev row_of : Article → Feed → Option UserArticle → Row
row_of article feed mark = record {
  article = article;
  text = article.published_at;
  feed_title = feed.title;
  is_read = row_read mark;
  is_starred = row_starred mark;
}

abbrev shown_of : Article → Option Feed → Option UserArticle → Shown
shown_of article none mark = panics
shown_of article (some feed) mark = shown (row_of article feed mark)

-- Once the article is read. Any error of the mark's read is taken for a missing mark.
unfoldable pub show_article : ℤ → ℤ → Article → Bool → Ds Shown
unfolding get_feed_by_id
show_article user_id article_id article false = pure nothing
show_article user_id article_id article true = do
  feed ← get_feed_by_id article.feed_id
  mark ← attempt (get_entity (λ db. db.user_articles) (user_id, article_id))
  pure (shown_of (record article { id = article_id }) feed mark)

abbrev show_stored : ℤ → ℤ → Option Article → Ds Shown
unfolding show_article
show_stored user_id article_id none = pure nothing
show_stored user_id article_id (some article) = do
  subscribed ← query_entities (λ db. is_subscribed db.user_feeds user_id article.feed_id)
  show_article user_id article_id article subscribed

unfoldable pub get_article_by_id : ℤ → ℤ → Ds Shown
unfolding show_article
get_article_by_id user_id article_id = do
  article ← query_entities (λ db. lookup article_id db.articles)
  show_stored user_id article_id article

-- One batch read for each chunk of keys; the first that fails as a whole ends it.
unfoldable pub read_chunks : List (List (ℤ × ℤ)) → Ds (List (Slot UserArticle))
unfolding slots
read_chunks [] = pure []
read_chunks (keys ∷ chunks) = do
  answers ← get_multi (λ db. db.user_articles) keys
  rest ← read_chunks chunks
  pure (answers ++ rest)

-- The content is left out of a listing.
abbrev pub without_content : Article → Article
without_content article = record article { content = "" }

unfoldable pub rows_with_marks : Feed → List Article → List (Slot UserArticle) → List Row
rows_with_marks feed [] answers = []
rows_with_marks feed (article ∷ articles) [] =
    row_of (without_content article) feed none ∷ rows_with_marks feed articles []
rows_with_marks feed (article ∷ articles) (answer ∷ answers) =
    row_of (without_content article) feed (slot_mark answer) ∷ rows_with_marks feed articles answers

-- `none` is the panic on the title of a feed that has no entity.
abbrev listing_of : Option Feed → List Article → List (Slot UserArticle) → Option (List Row)
listing_of none articles answers = none
listing_of (some feed) articles answers = some (rows_with_marks feed articles answers)

abbrev list_articles : ℤ → Option Feed → List Article → Ds (Option (List Row))
unfolding read_chunks
list_articles user_id feed [] = pure (some [])
list_articles user_id feed (article ∷ articles) = do
  answers ← read_chunks (chunks 999 (keys_of user_id (ids_of (article ∷ articles))))
  pure (listing_of feed (article ∷ articles) answers)

abbrev list_subscribed : ℤ → ℤ → Bool → Ds (Option (List Row))
unfolding get_feed_by_id read_chunks
list_subscribed user_id feed_id false = pure (some [])
list_subscribed user_id feed_id true = do
  feed ← get_feed_by_id feed_id
  articles ← query_entities (λ db. articles_by_date feed_id (rows db.articles))
  list_articles user_id feed articles

-- Equal dates stay in the order of the entities.
unfoldable pub get_user_feed_articles : ℤ → ℤ → Ds (Option (List Row))
unfolding get_feed_by_id read_chunks
get_user_feed_articles user_id feed_id = do
  subscribed ← query_entities (λ db. is_subscribed db.user_feeds user_id feed_id)
  list_subscribed user_id feed_id subscribed

-- ===== src/Datastore/Counts.antt =====
-- internal/database/datastore.go: the unread counts and the statistics of an account. The queries of the
-- feeds run at the same time; here they stand in the order of the feeds.
pub mod Down
pub mod Seeds
pub mod Start
pub mod Bounds
use goread.Base.{
  int_Eq, pair_Eq, ℕ, suc, ◌+◌, Bool, true, false, ◌&&◌, Option, none, some, ℤ, pos, Map, lookup,
  insert, if◌then◌else◌, ◌==◌, List, [], ◌∷◌, length, ◌++◌, chunks, leb, ltb_ℤ, ◌+ℤ◌, ◌-ℤ◌, get_or,
}
use goread.Database.{Db, Feed, Article, UserArticle, ok, err}
use goread.Database.Articles.{ninety_days, Statuses}
use goread.Database.Stats.{Stats, total_of, active_of}
use goread.Datastore.{
  Store, Ds, ◌>>=◌, ◌>>◌, pure, attempt, query_entities, get_multi, slots, Slot, found, missing,
  broken, micro,
}
use goread.Datastore.Feeds.{article_ids}
use goread.Datastore.Subscriptions.{get_user_feeds_with_retry}

abbrev pub published_since : ℕ → Article → Bool
published_since now article = leb now (article.published_at + ninety_days)

-- The ids of the articles of a feed that were published since the cutoff.
unfoldable pub recent_ids : ℤ → ℕ → Map ℤ Article → List ℤ
recent_ids feed_id now [] = []
recent_ids feed_id now ((id, article) ∷ m) =
    let rest = recent_ids feed_id now m in
    if article.feed_id == feed_id && published_since (micro now) article then id ∷ rest else rest

-- An article with its feed.
abbrev pub Recent : Type 0
Recent = List (ℤ × ℤ)

abbrev of_feed : ℤ → List ℤ → Recent
of_feed feed_id [] = []
of_feed feed_id (id ∷ ids) = (feed_id, id) ∷ of_feed feed_id ids

-- The counts with every recent article as unread, and the articles in the order of the feeds.
unfoldable pub seed_counts : ℕ → List Feed → Map ℤ ℤ → Ds (Map ℤ ℤ × Recent)
unfolding recent_ids
seed_counts now [] counts = pure (counts, [])
seed_counts now (feed ∷ feeds) counts = do
  ids ← query_entities (λ db. recent_ids feed.id now db.articles)
  (counts', recent) ← seed_counts now feeds (insert feed.id (pos (length ids)) counts)
  pure (counts', of_feed feed.id ids ++ recent)

-- `unreadCounts[feedID]--`
abbrev pub decrement : ℤ → Map ℤ ℤ → Map ℤ ℤ
decrement feed_id counts = insert feed_id (get_or (lookup feed_id counts) (pos 0) -ℤ pos 1) counts

-- The marks that are read count down their feeds.
unfoldable pub count_down : Recent → List (Slot UserArticle) → Map ℤ ℤ → Map ℤ ℤ
count_down [] answers counts = counts
count_down (article ∷ recent) [] counts = counts
count_down (article ∷ recent) (found row ∷ answers) counts =
    count_down recent answers (if row.is_read then decrement article.0 counts else counts)
count_down (article ∷ recent) (missing ∷ answers) counts = count_down recent answers counts
count_down (article ∷ recent) (broken ∷ answers) counts = count_down recent answers counts

abbrev pub mark_keys : ℤ → Recent → List (ℤ × ℤ)
mark_keys user_id [] = []
mark_keys user_id ((_, article_id) ∷ recent) = (user_id, article_id) ∷ mark_keys user_id recent

abbrev count_down_answered : Recent → Option (List (Slot UserArticle)) → Map ℤ ℤ → Map ℤ ℤ
unfolding count_down
count_down_answered recent none counts = counts
count_down_answered recent (some answers) counts = count_down recent answers counts

-- One batch read for each chunk. A chunk that fails as a whole is left out.
unfoldable pub subtract_read : ℤ → List Recent → Map ℤ ℤ → Ds (Map ℤ ℤ)
unfolding count_down slots
subtract_read user_id [] counts = pure counts
subtract_read user_id (recent ∷ chunks) counts = do
  answers ← attempt (get_multi (λ db. db.user_articles) (mark_keys user_id recent))
  subtract_read user_id chunks (count_down_answered recent answers counts)

-- The counts of the user's feeds, which are read up to four times until that succeeds.
unfoldable pub get_user_unread_counts : ℕ → ℤ → Ds (Map ℤ ℤ)
unfolding get_user_feeds_with_retry seed_counts subtract_read
get_user_unread_counts now user_id = do
  feeds ← get_user_feeds_with_retry user_id 3
  (counts, recent) ← seed_counts now feeds []
  subtract_read user_id (chunks 999 recent) counts

-- The number of stored articles of the feeds.
unfoldable pub sum_articles : List Feed → Ds ℕ
unfolding article_ids
sum_articles [] = pure 0
sum_articles (feed ∷ feeds) = do
  ids ← query_entities (λ db. article_ids feed.id db.articles)
  rest ← sum_articles feeds
  pure (length ids + rest)

unfoldable pub get_total_article_count : ℤ → Ds ℕ
unfolding get_user_feeds_with_retry sum_articles
get_total_article_count user_id = do feeds ← get_user_feeds_with_retry user_id 3; sum_articles feeds

-- Every feed's articles are counted before its recent ones are read.
unfoldable pub seed_stats : ℕ → List Feed → ℕ → Map ℤ ℤ → Ds (ℕ × Map ℤ ℤ × Recent)
unfolding article_ids recent_ids
seed_stats now [] total counts = pure (total, counts, [])
seed_stats now (feed ∷ feeds) total counts = do
  ids ← query_entities (λ db. article_ids feed.id db.articles)
  recent_here ← query_entities (λ db. recent_ids feed.id now db.articles)
  (total', counts', recent) ←
      seed_stats now feeds (total + length ids) (insert feed.id (pos (length recent_here)) counts)
  pure (total', counts', of_feed feed.id recent_here ++ recent)

unfoldable pub get_account_stats : ℕ → ℤ → Ds Stats
unfolding get_user_feeds_with_retry seed_stats subtract_read total_of active_of
get_account_stats now user_id = do
  feeds ← get_user_feeds_with_retry user_id 3
  (total, counts, recent) ← seed_stats now feeds 0 []
  counts' ← subtract_read user_id (chunks 999 recent) counts
  pure (record {
    total_articles = total;
    total_unread = total_of counts';
    active_feeds = active_of counts';
  })

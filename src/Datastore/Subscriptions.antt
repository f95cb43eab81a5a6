-- ===== src/Datastore/Subscriptions.antt =====
-- internal/database/datastore.go: the methods on `UserFeed`, and the feeds of users.
pub mod Retry
use goread.Base.{
  int_Eq, pair_Eq, ℕ, zero, suc, ltb, Bool, true, false, Option, none, some, ℤ, Map, lookup, insert,
  delete, if◌then◌else◌, ◌==◌, length, List, [], ◌∷◌, leb, ◌||◌,
}
use goread.Database.{Db, Feed, DbError, Result, ok, err}
use goread.Database.Feeds.{Subscriptions, is_subscribed, count_subscriptions}
use goread.Datastore.{
  Store, Ds, ◌>>=◌, ◌>>◌, pure, query_entities, write_entities, get_multi, slots, Slot, found,
  missing, broken,
}

-- The feeds that a user reads, in the order of the subscriptions.
unfoldable pub feed_ids_of : ℤ → Subscriptions → List ℤ
feed_ids_of user_id [] = []
feed_ids_of user_id (((user, feed), _) ∷ m) =
    let rest = feed_ids_of user_id m in if user == user_id then feed ∷ rest else rest

-- The feeds that a batch read found, with the ids that were asked for; the others are left out.
unfoldable pub found_feeds : List ℤ → List (Slot Feed) → List Feed
found_feeds [] answers = []
found_feeds (id ∷ ids) [] = []
found_feeds (id ∷ ids) (found feed ∷ answers) = record feed { id = id } ∷ found_feeds ids answers
found_feeds (id ∷ ids) (missing ∷ answers) = found_feeds ids answers
found_feeds (id ∷ ids) (broken ∷ answers) = found_feeds ids answers

-- No batch read is made for no ids.
unfoldable pub feeds_with_ids : List ℤ → Ds (List Feed)
unfolding found_feeds slots
feeds_with_ids [] = pure []
feeds_with_ids (id ∷ ids) = do
  answers ← get_multi (λ db. db.feeds) (id ∷ ids)
  pure (found_feeds (id ∷ ids) answers)

unfoldable pub get_user_feeds : ℤ → Ds (List Feed)
unfolding feeds_with_ids feed_ids_of
get_user_feeds user_id = do
  ids ← query_entities (λ db. feed_ids_of user_id db.user_feeds)
  feeds_with_ids ids

abbrev contains_id : ℤ → List ℤ → Bool
contains_id id [] = false
contains_id id (other ∷ ids) = if other == id then true else contains_id id ids

-- `seen` holds the ids so far.
unfoldable pub unique_feed_ids : List ℤ → Subscriptions → List ℤ
unique_feed_ids seen [] = []
unique_feed_ids seen ((key, _) ∷ m) = elim (contains_id key.1 seen) [
  | true ↦ unique_feed_ids seen m
  | false ↦ key.1 ∷ unique_feed_ids (key.1 ∷ seen) m
]

unfoldable pub get_all_user_feeds : Ds (List Feed)
unfolding feeds_with_ids unique_feed_ids
get_all_user_feeds = do
  ids ← query_entities (λ db. unique_feed_ids [] db.user_feeds)
  feeds_with_ids ids

abbrev put_subscription : ℤ → ℤ → Bool → Ds (Unit {0})
put_subscription user_id feed_id true = pure tt
put_subscription user_id feed_id false =
    write_entities (λ db. record db { user_feeds = insert (user_id, feed_id) tt db.user_feeds })

unfoldable pub subscribe_user_to_feed : ℤ → ℤ → Ds (Unit {0})
subscribe_user_to_feed user_id feed_id = do
  subscribed ← query_entities (λ db. is_subscribed db.user_feeds user_id feed_id)
  put_subscription user_id feed_id subscribed

unfoldable pub unsubscribe_user_from_feed : ℤ → ℤ → Ds (Unit {0})
unsubscribe_user_from_feed user_id feed_id =
    write_entities (λ db. record db { user_feeds = delete (user_id, feed_id) db.user_feeds })

unfoldable pub get_user_feed_count : ℤ → Ds ℕ
get_user_feed_count user_id = query_entities (λ db. count_subscriptions user_id db.user_feeds)

-- `return lastFeeds, lastErr`, where the error may be nil.
abbrev last_result : List Feed → Option DbError → Result DbError (List Feed)
last_result last_feeds none = ok last_feeds
last_result last_feeds (some e) = err e

-- The loop of `getUserFeedsWithRetry`: the attempts that are left after this one, whether this is the
-- first one, `lastFeeds` and `lastErr`. It sleeps before each further attempt, which changes nothing
-- here.
unfoldable pub retry_loop : ℕ → Bool → List Feed → Option DbError → ℤ → Ds (List Feed)
retry_loop zero first last_feeds last_err user_id s = elim (get_user_feeds user_id s).1 [
  | err e ↦ ((get_user_feeds user_id s).0, err e)
  | ok feeds ↦
      if first || leb (length last_feeds) (length feeds)
      then ((get_user_feeds user_id s).0, ok feeds)
      else ((get_user_feeds user_id s).0, last_result feeds last_err)
]
retry_loop (suc retries) first last_feeds last_err user_id s = elim (get_user_feeds user_id s).1 [
  | err e ↦ retry_loop retries false last_feeds (some e) user_id (get_user_feeds user_id s).0
  | ok feeds ↦ elim (first || leb (length last_feeds) (length feeds)) [
    | true ↦ ((get_user_feeds user_id s).0, ok feeds)
    | false ↦ retry_loop retries false feeds last_err user_id (get_user_feeds user_id s).0
  ]
]

unfoldable pub get_user_feeds_with_retry : ℤ → ℕ → Ds (List Feed)
unfolding retry_loop
get_user_feeds_with_retry user_id max_retries = retry_loop max_retries true [] none user_id

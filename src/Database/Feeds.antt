-- ===== src/Database/Feeds.antt =====
-- internal/database/schema.go: the statements on `feeds` and `user_feeds`.
use goread.Base.{
  int_Eq, pair_Eq, ℕ, suc, ◌+◌, Bool, true, false, select, String, string_Eq, Option, none, some, ℤ,
  pos, Map, lookup, insert, delete, if◌then◌else◌, ◌==◌, is_some, List, [], ◌∷◌,
}
use goread.Database.{Feed, unique_violation, ok, err, Exec, Query, exec, query}

unfoldable pub feed_with_url : String → Map ℤ Feed → Option Feed
feed_with_url url [] = none
feed_with_url url ((_, feed) ∷ m) = if feed.url == url then some feed else feed_with_url url m

-- The URL is unique; the id is the next one. The result is the feed with its id.
unfoldable pub add_feed : Feed → Exec Feed
add_feed feed = exec (λ db. elim (feed_with_url feed.url db.feeds) [
  | some _ ↦ (db, err unique_violation)
  | none ↦
      let feed' = record feed { id = pos db.next_feed } in
      (record db { feeds = insert feed'.id feed' db.feeds; next_feed = db.next_feed + 1 }, ok feed')
])

-- `UPDATE feeds SET … WHERE id = ?`
unfoldable pub update_feed_row : ℤ → (Feed → Feed) → Exec (Unit {0})
update_feed_row feed_id f = exec (λ db. (
  elim (lookup feed_id db.feeds) [
    | none ↦ db
    | some feed ↦ record db { feeds = insert feed_id (f feed) db.feeds }
  ],
  ok tt,
))

unfoldable pub update_feed_tracking : ℤ → ℕ → ℕ → ℤ → Exec (Unit {0})
unfolding update_feed_row
update_feed_tracking feed_id last_checked last_had_new_content average_update_interval =
    update_feed_row feed_id (λ feed. record feed {
      last_checked = last_checked;
      last_had_new_content = last_had_new_content;
      average_update_interval = average_update_interval;
    })

unfoldable pub update_feed_last_fetch : ℤ → ℕ → Exec (Unit {0})
unfolding update_feed_row
update_feed_last_fetch feed_id last_fetch =
    update_feed_row feed_id (λ feed. record feed { last_fetch = last_fetch })

unfoldable pub update_feed_after_refresh : ℤ → ℕ → ℕ → ℤ → ℕ → String → String → Exec (Unit {0})
unfolding update_feed_row
update_feed_after_refresh feed_id last_checked last_had_new_content average_update_interval
      last_fetch etag last_modified =
    update_feed_row feed_id (λ feed. record feed {
      last_checked = last_checked;
      last_had_new_content = last_had_new_content;
      average_update_interval = average_update_interval;
      last_fetch = last_fetch;
      etag = etag;
      last_modified = last_modified;
    })

unfoldable pub update_feed : ℕ → Feed → Exec (Unit {0})
unfolding update_feed_row
update_feed now feed =
    update_feed_row feed.id
      (λ row. record row { title = feed.title; description = feed.description; updated_at = now })

unfoldable pub update_feed_cache_headers : ℤ → String → String → Exec (Unit {0})
unfolding update_feed_row
update_feed_cache_headers feed_id etag last_modified =
    update_feed_row feed_id (λ feed. record feed { etag = etag; last_modified = last_modified })

-- The rows of a table without their keys.
abbrev pub rows {ℓ} : {K V : Type ℓ} → Map K V → List V
rows [] = []
rows ((_, v) ∷ m) = v ∷ rows m

unfoldable pub get_feeds : Query (List Feed)
get_feeds = query (λ db. ok (rows db.feeds))

unfoldable pub get_feed_by_url : String → Query (Option Feed)
get_feed_by_url url = query (λ db. ok (feed_with_url url db.feeds))

-- No foreign key is enforced, so the articles and the subscriptions of the feed stay.
unfoldable pub delete_feed : ℤ → Exec (Unit {0})
delete_feed id = exec (λ db. (record db { feeds = delete id db.feeds }, ok tt))

abbrev pub Subscriptions : Type 0
Subscriptions = Map (ℤ × ℤ) (Unit {0})

abbrev pub is_subscribed : Subscriptions → ℤ → ℤ → Bool
is_subscribed subs user_id feed_id = is_some (lookup (user_id, feed_id) subs)

-- `feeds JOIN user_feeds`; the order of the rows is that of the table.
unfoldable pub subscribed_feeds : Subscriptions → ℤ → List Feed → List Feed
subscribed_feeds subs user_id [] = []
subscribed_feeds subs user_id (feed ∷ feeds) =
    let rest = subscribed_feeds subs user_id feeds in
    if is_subscribed subs user_id feed.id then feed ∷ rest else rest

unfoldable pub get_user_feeds : ℤ → Query (List Feed)
get_user_feeds user_id = query (λ db. ok (subscribed_feeds db.user_feeds user_id (rows db.feeds)))

-- Whether any user reads the feed.
unfoldable pub has_reader : Subscriptions → ℤ → Bool
has_reader [] feed_id = false
has_reader ((key, _) ∷ m) feed_id = if key.1 == feed_id then true else has_reader m feed_id

-- `SELECT DISTINCT`; the order of the rows is that of the table.
unfoldable pub get_all_user_feeds : Query (List Feed)
get_all_user_feeds =
    query (λ db. ok (select (λ feed. has_reader db.user_feeds feed.id) (rows db.feeds)))

-- `INSERT OR IGNORE`
unfoldable pub subscribe_user_to_feed : ℤ → ℤ → Exec (Unit {0})
subscribe_user_to_feed user_id feed_id =
    exec (λ db. (record db { user_feeds = insert (user_id, feed_id) tt db.user_feeds }, ok tt))

unfoldable pub unsubscribe_user_from_feed : ℤ → ℤ → Exec (Unit {0})
unsubscribe_user_from_feed user_id feed_id =
    exec (λ db. (record db { user_feeds = delete (user_id, feed_id) db.user_feeds }, ok tt))

-- `SELECT COUNT(*) FROM user_feeds WHERE user_id = ?`
unfoldable pub count_subscriptions : ℤ → Subscriptions → ℕ
count_subscriptions user_id [] = 0
count_subscriptions user_id ((key, _) ∷ m) =
    let rest = count_subscriptions user_id m in if key.0 == user_id then suc rest else rest

unfoldable pub get_user_feed_count : ℤ → Query ℕ
get_user_feed_count user_id = query (λ db. ok (count_subscriptions user_id db.user_feeds))

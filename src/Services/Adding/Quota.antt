-- ===== src/Services/Adding/Quota.antt =====
-- internal/services/feed_service.go: the subscriptions after a feed was added, and the bound that an
-- import keeps.
use goread.Base.{
  int_Eq, pair_Eq, string_Eq, int_eq_iff, ℕ, zero, suc, ◌+◌, ◌≤◌, ◌<◌, ◌≡◌, refl, ◌∙◌, ap, sym,
  subst, Bool, true, false, ◌&&◌, ◌||◌, String, some, List, [], ◌∷◌, if◌then◌else◌, ℤ, pos, lookup,
  insert, lookup-insert, arith, Bool-cases, inl, inr, ◌==◌, ltb_ℤ, eq_iff,
}
use goread.Database.{Db, User, Feed, Result, ok, err, Result-cases}
use goread.Database.Users.{get_user_by_id}
use goread.Database.Articles.{contains}
use goread.Database.Feeds.{
  Subscriptions, is_subscribed, subscribe_user_to_feed, count_subscriptions, get_user_feed_count,
  get_user_feeds,
}
use goread.Services.Reading.{FeedService}
use goread.Services.Refresh.{Fetch}
use goread.Services.Subscription.{
  can_user_add_feed, check_user, check_trial_limit, free_trial_feed_limit,
}
use goread.Services.Adding.{
  Discover, ServiceError, finish_adding, find_or_create, subscribe_found, add_feed_for_user,
  add_feed_for_user_internal, feed_timeout, settle, Import, is_added, import_loop,
  import_opml_with_limits, Outlines,
}
use goread.Services.Adding.Frame.{Keeps, Keeps-mark_existing, Keeps-find_or_create}

-- The subscriptions after adding returned `r`.
abbrev with_added : ℤ → Result ServiceError Feed → Subscriptions → Subscriptions
with_added user (ok feed) m = insert (user, feed.id) tt m
with_added user (err _) m = m

-- The users as before, and the subscription that the result tells of.
record IsAdded (db db' : Db) (user : ℤ) (r : Result ServiceError Feed) : Type 0 where
  users : db'.users ≡ db.users
  user_feeds : db'.user_feeds ≡ with_added user r db.user_feeds

finish_adding-IsAdded :
    (fs : FeedService) (user : ℤ) (feed : Feed)
    → let (fs', r) = finish_adding fs user feed in IsAdded fs.db fs'.db user r
unfolding finish_adding subscribe_user_to_feed
finish_adding-IsAdded fs user feed = elim (Bool-cases fs.db.up) [
  | inl up ↦
      let db = record (fs.db) { user_feeds = insert (user, feed.id) tt fs.db.user_feeds } in
      let k = Keeps-mark_existing user feed.id db in
      record { users = ground (arith, up, k.users); user_feeds = ground (arith, up, k.user_feeds) }
  | inr down ↦ record { users = ground (arith, down); user_feeds = ground (arith, down) }
]

subscribe_found-IsAdded :
    (fs : FeedService) (user : ℤ) (found : Db × Result ServiceError Feed)
    → Keeps fs.db found.0
    → let (fs', r) = subscribe_found fs user found in IsAdded fs.db fs'.db user r
unfolding subscribe_found
subscribe_found-IsAdded fs user (db, err e) k = record {
  users = k.users;
  user_feeds = k.user_feeds;
}
subscribe_found-IsAdded fs user (db, ok feed) k =
    let h = finish_adding-IsAdded (record fs { db = db }) user feed in
    record {
      users = h.users ∙ k.users;
      user_feeds = h.user_feeds ∙ ap (with_added user _) k.user_feeds;
    }

module _ (discover : Discover) (fetch : Fetch) (fs : FeedService) (now : ℕ) (user : ℤ)
    (input : String) where
  add-IsAdded :
      let (fs', r) = add_feed_for_user_internal discover fetch fs now user input in
      IsAdded fs.db fs'.db user r
  unfolding add_feed_for_user_internal
  add-IsAdded = elim (Result-cases (discover input)) [
    | inl ([], found) ↦
        rw (found, add_feed_for_user_internal) (record { users = refl; user_feeds = refl })
    | inl (url ∷ urls, found) ↦
        rw (found, add_feed_for_user_internal)
          (subscribe_found-IsAdded fs user (find_or_create fetch now user url fs.db)
            (Keeps-find_or_create fetch now user url fs.db))
    | inr (e, failed) ↦
        rw (failed, add_feed_for_user_internal) (record { users = refl; user_feeds = refl })
  ]

-- Whether a result says that the user `u` now reads the feed `f`.
abbrev pub tells : ℤ → Result ServiceError Feed → ℤ → ℤ → Bool
tells user (ok feed) u f = user == u && feed.id == f
tells user (err _) u f = false

-- Whatever discovery and the fetch return, the goroutine that adds a feed for a user subscribes that user
-- to the feed that it returns, and to no feed when it returns an error; no other subscription changes.
-- Within 15 seconds its result is the answer. Later the answer is the timeout, though the user may be
-- subscribed.
pub add-is_subscribed :
    (in_time : Bool) (discover : Discover) (fetch : Fetch) (fs : FeedService) (now : ℕ) (user : ℤ)
    (input : String) (u f : ℤ)
    → let (fs', r) = add_feed_for_user in_time discover fetch fs now user input in
      let added = (add_feed_for_user_internal discover fetch fs now user input).1 in
      (is_subscribed fs'.db.user_feeds u f
        ≡ (tells user added u f || is_subscribed fs.db.user_feeds u f))
      × (r ≡ (if in_time then added else err feed_timeout))
unfolding add_feed_for_user
add-is_subscribed in_time discover fetch fs now user input u f =
    let added = (add_feed_for_user_internal discover fetch fs now user input).1 in
    (
      ap (λ m. is_subscribed m u f) (add-IsAdded discover fetch fs now user input).user_feeds
          ∙ told added,
      refl,
    )
  where
    told :
        (r : Result ServiceError Feed)
        → is_subscribed (with_added user r fs.db.user_feeds) u f
          ≡ (tells user r u f || is_subscribed fs.db.user_feeds u f)
    told (ok feed) = ground (arith, lookup-insert (user, feed.id) (u, f) tt fs.db.user_feeds)
    told (err _) = refl

count-insert :
    (user v f : ℤ) (m : Subscriptions)
    → count_subscriptions user (insert (v, f) tt m) ≤ count_subscriptions user m + 1
unfolding count_subscriptions insert
count-insert user v f [] = ground arith
count-insert user v f (((w, g), _) ∷ m) =
    ground (arith, count-insert user v f m, int_eq_iff w v, int_eq_iff g f)

count-with_added :
    (user : ℤ) (r : Result ServiceError Feed) (m : Subscriptions)
    → count_subscriptions user (with_added user r m) ≤ count_subscriptions user m + 1
count-with_added user (ok feed) m = count-insert user user feed.id m
count-with_added user (err _) m = omega arith

-- A user on trial: no administrator, and nothing is paid or free.
pub record IsOnTrial (user : User) : Type 0 where
  pub not_admin : user.is_admin ≡ false
  pub status : (user.subscription_status == "trial") ≡ true
  pub no_months : ltb_ℤ (pos 0) user.free_months_remaining ≡ false

-- The check lets a user on trial add a feed only below the limit.
can_add-below :
    (now : ℕ) (id : ℤ) (db : Db) (user : User)
    → lookup id db.users ≡ some user
    → IsOnTrial user
    → can_user_add_feed true now id db ≡ ok tt
    → count_subscriptions id db.user_feeds < free_trial_feed_limit
unfolding can_user_add_feed check_user check_trial_limit get_user_by_id get_user_feed_count
can_add-below now id db user found trial allowed =
    let status = user.subscription_status in
    let is_trial : status ≡ "trial" = (eq_iff status "trial").0 trial.status in
    let unpaid : (status == "active") ≡ false = ap (λ s. s == "active") is_trial in
    ground (arith, found, trial.not_admin, trial.status, trial.no_months, unpaid, allowed)

settle_none : (i : Import) (n : ℕ) (fs : FeedService) → settle i n fs [] ≡ (fs, [])
unfolding settle
settle_none i zero fs = refl
settle_none i (suc n) fs = refl

module _ (i : Import) (user : User) (enabled : i.enabled ≡ true) (trial : IsOnTrial user)
    (in_time : (url : String) → i.in_time url ≡ true) where
  -- One feed more is within the limit, if the check let it be added.
  add-below :
      (fs : FeedService) (url : String)
      → lookup i.user fs.db.users ≡ some user
      → can_user_add_feed i.enabled (i.clock url) i.user fs.db ≡ ok tt
      → let fs' = (add_feed_for_user true i.discover i.fetch fs (i.clock url) i.user url).0 in
        (lookup i.user fs'.db.users ≡ some user)
        × (count_subscriptions i.user fs'.db.user_feeds ≤ free_trial_feed_limit)
  unfolding add_feed_for_user
  add-below fs url found allowed =
      let r = add_feed_for_user_internal i.discover i.fetch fs (i.clock url) i.user url in
      let added = add-IsAdded i.discover i.fetch fs (i.clock url) i.user url in
      let allowed' =
        subst (λ b. can_user_add_feed b (i.clock url) i.user fs.db ≡ ok tt) enabled allowed in
      let below = can_add-below (i.clock url) i.user fs.db user found trial allowed' in
      let more = count-with_added i.user r.1 fs.db.user_feeds in
      (
        ap (lookup i.user) added.users ∙ found,
        subst (λ m. count_subscriptions i.user m ≤ free_trial_feed_limit) (sym added.user_feeds)
            (omega (arith, below, more)),
      )

  import_loop-below :
      (fs : FeedService) (existing urls : List String) (n : ℕ)
      → lookup i.user fs.db.users ≡ some user
      → count_subscriptions i.user fs.db.user_feeds ≤ free_trial_feed_limit
      → count_subscriptions i.user (import_loop i fs existing [] urls n).0.db.user_feeds
        ≤ free_trial_feed_limit
  unfolding import_loop
  import_loop-below fs existing [] n found below = rw (settle_none i 0 fs) below
  import_loop-below fs existing (url ∷ urls) n found below =
      elim (Bool-cases (contains url existing)) [
        | inl known ↦ rw (known, import_loop) (import_loop-below fs existing urls n found below)
        | inr new ↦ elim (Result-cases (can_user_add_feed i.enabled (i.clock url) i.user fs.db)) [
          | inl (_, allowed) ↦
              let r = add_feed_for_user true i.discover i.fetch fs (i.clock url) i.user url in
              let next = add-below fs url found allowed in
              rw (new, import_loop)
                (rw (settle_none i (i.settled url) fs) (
                  rw allowed (
                    rw (in_time url) (
                      rw (settle_none i (i.settled url) fs) (
                        import_loop-below r.0 (if is_added r.1 then url ∷ existing else existing)
                          urls (if is_added r.1 then suc n else n) next.0 next.1)))))
          | inr (e, refused) ↦
              rw (new, import_loop)
                (rw (settle_none i (i.settled url) fs) (
                  rw refused
                    (rw (settle_none i (i.settled url) fs) (rw (settle_none i 0 fs) below))))
        ]
      ]

-- Importing an OPML document never takes a user on trial over the limit of 20 feeds, where every feed is
-- added within the timeout of 15 seconds: whatever the document, discovery and the fetches say, a user with
-- no more than 20 feeds has no more than 20 afterwards. The subscription system is on, and the store has
-- the user.
pub import-trial_limit :
    (i : Import) (fs : FeedService) (doc : Outlines) (user : User)
    → i.enabled ≡ true
    → IsOnTrial user
    → ((url : String) → i.in_time url ≡ true)
    → lookup i.user fs.db.users ≡ some user
    → count_subscriptions i.user fs.db.user_feeds ≤ free_trial_feed_limit
    → count_subscriptions i.user (import_opml_with_limits i fs doc).0.db.user_feeds
      ≤ free_trial_feed_limit
unfolding import_opml_with_limits
import-trial_limit i fs doc user enabled trial in_time found below =
    elim (Result-cases (get_user_feeds i.user fs.db)) [
      | inl (feeds, answered) ↦
          rw (answered, import_opml_with_limits)
            (import_loop-below i user enabled trial in_time fs _ _ 0 found below)
      | inr (e, failed) ↦ rw (failed, import_opml_with_limits) below
    ]

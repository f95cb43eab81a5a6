-- ===== src/Services/Reading/Counts.antt =====
-- internal/services/feed_service.go: the unread counts that are read when none are cached.
use goread.Base.{
  int_Eq, int_eq_iff, ℕ, ◌+◌, ◌≡◌, refl, ap, subst, ◌∙◌, true, false, none, some, Bool-cases, inl,
  inr, ℤ, pos, Map, lookup, insert, get_or, is_some, ◌==◌, ◌&&◌, ◌||◌, arith, lookup-insert, All,
  List, [], ◌∷◌,
}
use goread.Database.{Db, Feed, ok, Result-cases}
use goread.Database.Articles.{unread_in, unread_counts_of, get_user_unread_counts}
use goread.Database.Feeds.{rows, subscribed_feeds}
use goread.Cache.Unread.{UnreadCache, get, set, make_room}
use goread.Services.Reading.{FeedService, has_feed, filter_counts, get_user_unread_counts_of}
use goread.Services.Reading.Coherence.{Accurate}

-- An entry has the count of the store.
abbrev IsCount : Db → ℕ → ℤ → ℤ × ℤ → Type 0
IsCount db now user e =
    e.1 ≡ pos (unread_in db.user_articles (db.texts.since now) user e.0 (rows db.articles))

module _ (db : Db) (now : ℕ) (user : ℤ) where
  All-insert :
      (k v : ℤ) (m : Map ℤ ℤ)
      → IsCount db now user (k, v)
      → All (IsCount db now user) m
      → All (IsCount db now user) (insert k v m)
  unfolding insert
  All-insert k v [] p h = (p, tt)
  All-insert k v ((j, w) ∷ m) p h = elim (Bool-cases (j == k)) [
    | inl here ↦ rw here (p, h.1)
    | inr later ↦ rw later (h.0, All-insert k v m p h.1)
  ]

  All-unread_counts_of :
      (feeds : List Feed) (m : Map ℤ ℤ)
      → All (IsCount db now user) m
      → All (IsCount db now user) (unread_counts_of db now user feeds m)
  unfolding unread_counts_of
  All-unread_counts_of [] m h = h
  All-unread_counts_of (feed ∷ feeds) m h =
      All-unread_counts_of feeds _ (All-insert feed.id _ m refl h)

  All-filter_counts :
      (feeds : List Feed) (counts filtered : Map ℤ ℤ)
      → All (IsCount db now user) counts
      → All (IsCount db now user) filtered
      → All (IsCount db now user) (filter_counts feeds counts filtered)
  unfolding filter_counts
  All-filter_counts feeds [] filtered h g = g
  All-filter_counts feeds ((id, count) ∷ counts) filtered h g =
      elim (Bool-cases (has_feed id feeds)) [
        | inl known ↦ rw known (
            All-filter_counts feeds counts (insert id count filtered) h.1
              (All-insert id count filtered h.0 g))
        | inr orphan ↦ rw orphan (All-filter_counts feeds counts filtered h.1 g)
      ]

  count_of_found :
      (m : Map ℤ ℤ) (f : ℤ)
      → All (IsCount db now user) m
      → is_some (lookup f m) ≡ true
      → get_or (lookup f m) (pos 0)
        ≡ pos (unread_in db.user_articles (db.texts.since now) user f (rows db.articles))
  unfolding lookup
  count_of_found [] f h present = cc
  count_of_found ((j, w) ∷ m) f h present = elim (Bool-cases (j == f)) [
    | inl here ↦ rw here (
        h.0
        ∙ ap (λ x. pos (unread_in db.user_articles (db.texts.since now) user x (rows db.articles)))
            ((int_eq_iff j f).0 here))
    | inr later ↦ rw later (count_of_found m f h.1 (ground arith))
  ]

  present-unread_counts_of :
      (f : ℤ) (feeds : List Feed) (m : Map ℤ ℤ)
      → is_some (lookup f (unread_counts_of db now user feeds m))
        ≡ (has_feed f feeds || is_some (lookup f m))
  unfolding unread_counts_of
  present-unread_counts_of f [] m = refl
  present-unread_counts_of f (feed ∷ feeds) m =
      let count =
        pos (unread_in db.user_articles (db.texts.since now) user feed.id (rows db.articles)) in
      let rest = present-unread_counts_of f feeds (insert feed.id count m) in
      ground (arith, rest, lookup-insert feed.id f count m)

-- The filter keeps the counts of the given feeds, and no others.
present-filter_counts :
    (f : ℤ) (feeds : List Feed) (counts filtered : Map ℤ ℤ)
    → is_some (lookup f (filter_counts feeds counts filtered))
      ≡ (has_feed f feeds && is_some (lookup f counts) || is_some (lookup f filtered))
unfolding filter_counts lookup
present-filter_counts f feeds [] filtered = ground arith
present-filter_counts f feeds ((id, count) ∷ counts) filtered =
    elim (Bool-cases (has_feed id feeds)) [
      | inl known ↦
          let rest = present-filter_counts f feeds counts (insert id count filtered) in
          let added = lookup-insert id f count filtered in
          rw known (
            rest ∙ (elim (Bool-cases (id == f)) [
              | inl here ↦
                  let same : has_feed f feeds ≡ true =
                    subst (λ x. has_feed x feeds ≡ true) ((int_eq_iff id f).0 here) known in
                  ground (arith, here, same, added)
              | inr other ↦ ground (arith, other, added)
            ]))
      | inr orphan ↦
          let rest = present-filter_counts f feeds counts filtered in
          rw orphan (
            rest ∙ (elim (Bool-cases (id == f)) [
              | inl here ↦
                  let same : has_feed f feeds ≡ false =
                    subst (λ x. has_feed x feeds ≡ false) ((int_eq_iff id f).0 here) orphan in
                  ground (arith, here, same)
              | inr other ↦ ground (arith, other)
            ]))
    ]

-- What is stored at a time is read again at that time.
get-set :
    (c : UnreadCache) (now : ℕ) (user : ℤ) (m : Map ℤ ℤ)
    → (get (set c now user m) now user).1 ≡ some m
unfolding get set
get-set c now user m =
    let c' = make_room c user in
    ground (
      arith,
      lookup-insert user user m c'.counts,
      lookup-insert user user (now + c'.ttl) c'.refresh_at,
      int_eq_iff user user,
    )

counts-All :
    (db : Db) (now : ℕ) (user : ℤ) (counts : Map ℤ ℤ)
    → get_user_unread_counts now user db ≡ ok counts
    → All (IsCount db now user) counts
unfolding get_user_unread_counts
counts-All db now user counts answered = elim (Bool-cases db.up) [
  | inl up ↦
      let e : unread_counts_of db now user (subscribed_feeds db.user_feeds user (rows db.feeds)) []
          ≡ counts =
        ground (arith, up, answered) in
      subst (All (IsCount db now user)) e (All-unread_counts_of db now user _ [] tt)
  | inr down ↦ absurd (ground (arith, down, answered))
]

counts-present :
    (db : Db) (now : ℕ) (user f : ℤ) (counts : Map ℤ ℤ)
    → get_user_unread_counts now user db ≡ ok counts
    → is_some (lookup f counts) ≡ has_feed f (subscribed_feeds db.user_feeds user (rows db.feeds))
unfolding get_user_unread_counts lookup
counts-present db now user f counts answered =
    let feeds = subscribed_feeds db.user_feeds user (rows db.feeds) in
    let present = present-unread_counts_of db now user f feeds [] in
    elim (Bool-cases db.up) [
      | inl up ↦
          let e : unread_counts_of db now user feeds [] ≡ counts = ground (arith, up, answered) in
          subst (λ m. is_some (lookup f m) ≡ has_feed f feeds) e (present ∙ ground arith)
      | inr down ↦ absurd (ground (arith, down, answered))
    ]

-- When nothing valid is cached for a user, the counts that are returned have exactly the feeds that are
-- both among the given ones and among those that the store has for the user, each with the count of the
-- store; the next read at that time finds them cached, and the store is as before.
pub miss-Accurate :
    (fs : FeedService) (now : ℕ) (user : ℤ) (feeds : List Feed) (m : Map ℤ ℤ)
    → (get fs.unread_cache now user).1 ≡ none
    → (get_user_unread_counts_of fs now user feeds).1 ≡ ok m
    → let fs' = (get_user_unread_counts_of fs now user feeds).0 in
      ((f : ℤ)
        → is_some (lookup f m) ≡ (
            has_feed f feeds
            && has_feed f (subscribed_feeds fs.db.user_feeds user (rows fs.db.feeds))))
      × Accurate fs'.db now user m
      × ((get fs'.unread_cache now user).1 ≡ some m)
      × (fs'.db ≡ fs.db)
unfolding get_user_unread_counts_of lookup
miss-Accurate fs now user feeds m miss read =
    elim (Result-cases (get_user_unread_counts now user fs.db)) [
      | inl (counts, answered) ↦
          let same : filter_counts feeds counts [] ≡ m = ground (arith, miss, answered, read) in
          let all = subst (All (IsCount fs.db now user)) same (
            All-filter_counts fs.db now user feeds counts []
              (counts-All fs.db now user counts answered) tt) in
          rw (miss, get_user_unread_counts_of)
            (rw answered (
              (λ f. ground (
                arith,
                same,
                present-filter_counts f feeds counts [],
                counts-present fs.db now user f counts answered,
              )),
              record { same = λ f h. count_of_found fs.db now user m f all h },
              get-set (get fs.unread_cache now user).0 now user (filter_counts feeds counts [])
                  ∙ ap some same,
              refl,
            ))
      | inr (e, failed) ↦ absurd (ground (arith, miss, failed, read))
    ]

-- ===== src/Database/Stats/Sums.antt =====
-- internal/database/schema.go: the sum of the unread counts of a user's feeds.
use goread.Base.{
  if_true, int_Eq, pair_Eq, int_eq_iff, int_laws, eq_of_parts, pos_part, neg_part, ℕ, suc, ◌+◌, ◌≡◌,
  ◌≢◌, refl, sym, ap, ◌∙◌, Bool, true, false, ◌&&◌, not, none, ℤ, pos, Map, lookup, lookup-insert,
  insert, is_some, if◌then◌else◌, ◌==◌, List, [], ◌∷◌, length, select, ◌+ℤ◌, arith, Bool-cases,
  Option-cases, inl, inr, All,
}
use goread.Database.{Db, Feed, Article, ok}
use goread.Database.Articles.{
  Statuses, unread_in, is_read_by, unread_counts_of, get_user_unread_counts,
}
use goread.Database.Feeds.{rows, subscribed_feeds, Subscriptions, is_subscribed}
use goread.Database.Pages.{joined}
use goread.Database.Stats.{
  total_of, unread_rows, is_unread_row, count_feeds, Stats, get_account_stats,
}

-- The feeds of a list have different ids.
abbrev pub HasDistinctFeeds : List Feed → Type 0
HasDistinctFeeds [] = Unit
HasDistinctFeeds (a ∷ l) = All (λ (b : Feed). b.id ≢ a.id) l × HasDistinctFeeds l

abbrev pub lists : ℤ → List Feed → Bool
lists feed_id [] = false
lists feed_id (feed ∷ feeds) = if feed.id == feed_id then true else lists feed_id feeds

-- Every feed is stored under its id.
abbrev pub StandsById : Map ℤ Feed → Type 0
StandsById [] = Unit
StandsById ((id, feed) ∷ m) = (feed.id ≡ id) × StandsById m

sum_unread : Statuses → (Article → Bool) → ℤ → List Feed → List Article → ℕ
sum_unread m since user [] l = 0
sum_unread m since user (feed ∷ feeds) l =
    unread_in m since user feed.id l + sum_unread m since user feeds l

total_of-insert :
    (f : ℤ) (n : ℤ) (counts : Map ℤ ℤ)
    → lookup f counts ≡ none
    → total_of (insert f n counts) ≡ total_of counts +ℤ n
unfolding total_of insert lookup
total_of-insert f n [] new = omega int_laws
total_of-insert f n ((g, k) ∷ counts) new = elim (Bool-cases (g == f)) [
  | inl here ↦ ground (arith, here)
  | inr other ↦
      let later = total_of-insert f n counts (ground (arith, other, new)) in
      rw other (omega (int_laws, ap pos_part later, ap neg_part later))
]

not_listed :
    (f : ℤ) (feeds : List Feed) → All (λ (b : Feed). b.id ≢ f) feeds → lists f feeds ≡ false
not_listed f [] ne = refl
not_listed f (feed ∷ feeds) ne = ground (arith, ne.0, int_eq_iff feed.id f, not_listed f feeds ne.1)

-- One article more.
sum_unread-cons :
    (m : Statuses) (since : Article → Bool) (user : ℤ) (feeds : List Feed) (a : Article)
    (l : List Article)
    → HasDistinctFeeds feeds
    → sum_unread m since user feeds (a ∷ l) ≡ (
        if lists a.feed_id feeds && (since a && not (is_read_by m user a.id))
        then suc (sum_unread m since user feeds l)
        else sum_unread m since user feeds l)
unfolding sum_unread unread_in
sum_unread-cons m since user [] a l d = refl
sum_unread-cons m since user (feed ∷ feeds) a l d = ground (
  arith,
  int_eq_iff a.feed_id feed.id,
  int_eq_iff feed.id a.feed_id,
  sum_unread-cons m since user feeds a l d.1,
  not_listed feed.id feeds d.0,
)

lists-subscribed :
    (subs : Subscriptions) (user f : ℤ) (m : Map ℤ Feed)
    → StandsById m
    → lists f (subscribed_feeds subs user (rows m))
      ≡ (is_some (lookup f m) && is_subscribed subs user f)
unfolding subscribed_feeds lookup
lists-subscribed subs user f [] s = refl
lists-subscribed subs user f ((id, feed) ∷ m) s =
    elim (Bool-cases (is_subscribed subs user feed.id)) [
      | inl reads ↦ rw reads (
          ground (
            arith,
            s.0,
            reads,
            int_eq_iff id f,
            int_eq_iff feed.id f,
            ap (λ x. lookup (user, x) subs) s.0,
            lists-subscribed subs user f m s.1,
          ))
      | inr reads_not ↦ rw reads_not (
          ground (
            arith,
            s.0,
            reads_not,
            int_eq_iff id f,
            int_eq_iff feed.id f,
            ap (λ x. lookup (user, x) subs) s.0,
            lists-subscribed subs user f m s.1,
          ))
    ]

still_new :
    (f : ℤ) (n : ℕ) (counts : Map ℤ ℤ) (feeds : List Feed)
    → All (λ (b : Feed). b.id ≢ f) feeds
    → All (λ (feed : Feed). lookup feed.id counts ≡ none) feeds
    → All (λ (feed : Feed). lookup feed.id (insert f (pos n) counts) ≡ none) feeds
still_new f n counts [] ne new = tt
still_new f n counts (feed ∷ feeds) ne new = (
  rw lookup-insert (ground (arith, ne.0, int_eq_iff f feed.id, new.0)),
  still_new f n counts feeds ne.1 new.1,
)

-- The counts of the feeds sum up to the unread articles of all of them.
total_of-counts :
    (db : Db) (now : ℕ) (user : ℤ) (feeds : List Feed) (counts : Map ℤ ℤ)
    → HasDistinctFeeds feeds
    → All (λ (feed : Feed). lookup feed.id counts ≡ none) feeds
    → total_of (unread_counts_of db now user feeds counts)
      ≡ total_of counts
        +ℤ pos (sum_unread db.user_articles (db.texts.since now) user feeds (rows db.articles))
unfolding unread_counts_of sum_unread
total_of-counts db now user [] counts d new = omega int_laws
total_of-counts db now user (feed ∷ feeds) counts d new =
    let n = unread_in db.user_articles (db.texts.since now) user feed.id (rows db.articles) in
    let later =
      total_of-counts db now user feeds (insert feed.id (pos n) counts) d.1
        (still_new feed.id n counts feeds d.0 new.1) in
    let here = total_of-insert feed.id (pos n) counts new.0 in
    omega (int_laws, ap pos_part later, ap neg_part later, ap pos_part here, ap neg_part here)

sum_unread-none :
    (m : Statuses) (since : Article → Bool) (user : ℤ) (feeds : List Feed)
    → sum_unread m since user feeds [] ≡ 0
unfolding sum_unread unread_in
sum_unread-none m since user [] = refl
sum_unread-none m since user (feed ∷ feeds) = omega (arith, sum_unread-none m since user feeds)

-- The unread rows of a list of articles.
rows-sum :
    (db : Db) (now : ℕ) (user : ℤ) (feeds : List Feed) (l : List Article)
    → HasDistinctFeeds feeds
    → ((f : ℤ)
        → lists f feeds ≡ (is_some (lookup f db.feeds) && is_subscribed db.user_feeds user f))
    → length (select (is_unread_row (db.texts.since now)) (joined db user l))
      ≡ sum_unread db.user_articles (db.texts.since now) user feeds l
unfolding joined
rows-sum db now user feeds [] d listed =
    sym (sum_unread-none db.user_articles (db.texts.since now) user feeds)
rows-sum db now user feeds (a ∷ l) d listed = elim (Option-cases (lookup a.feed_id db.feeds)) [
  | inl absent ↦
      rw (absent, joined)
        (ground (
          arith,
          absent,
          listed a.feed_id,
          sum_unread-cons db.user_articles (db.texts.since now) user feeds a l d,
          rows-sum db now user feeds l d listed,
        ))
  | inr (feed, present) ↦
      rw (present, joined)
        (ground (
          arith,
          present,
          listed a.feed_id,
          sum_unread-cons db.user_articles (db.texts.since now) user feeds a l d,
          rows-sum db now user feeds l d listed,
        ))
]

outside-subscribed :
    (subs : Subscriptions) (user f : ℤ) (feeds : List Feed)
    → All (λ (b : Feed). b.id ≢ f) feeds
    → All (λ (b : Feed). b.id ≢ f) (subscribed_feeds subs user feeds)
unfolding subscribed_feeds
outside-subscribed subs user f [] ne = tt
outside-subscribed subs user f (feed ∷ feeds) ne =
    elim (Bool-cases (is_subscribed subs user feed.id)) [
      | inl reads ↦ rw reads (ne.0, outside-subscribed subs user f feeds ne.1)
      | inr reads_not ↦ rw reads_not (outside-subscribed subs user f feeds ne.1)
    ]

subscribed-HasDistinctFeeds :
    (subs : Subscriptions) (user : ℤ) (feeds : List Feed)
    → HasDistinctFeeds feeds
    → HasDistinctFeeds (subscribed_feeds subs user feeds)
unfolding subscribed_feeds
subscribed-HasDistinctFeeds subs user [] d = tt
subscribed-HasDistinctFeeds subs user (feed ∷ feeds) d =
    elim (Bool-cases (is_subscribed subs user feed.id)) [
      | inl reads ↦ rw reads (
        outside-subscribed subs user feed.id feeds d.0,
        subscribed-HasDistinctFeeds subs user feeds d.1,
      )
      | inr reads_not ↦ rw reads_not (subscribed-HasDistinctFeeds subs user feeds d.1)
    ]

abbrev no_counts : Map ℤ ℤ
no_counts = []

none_counted : (feeds : List Feed) → All (λ (feed : Feed). lookup feed.id (no_counts) ≡ none) feeds
unfolding lookup
none_counted [] = tt
none_counted (feed ∷ feeds) = (refl, none_counted feeds)

-- While the driver answers, the total of unread articles that GetAccountStats reads is the sum of the counts
-- of GetUserUnreadCounts. Feeds have different ids and stand under them.
pub stats-eq-counts :
    (db : Db) (now : ℕ) (user : ℤ)
    → db.up ≡ true
    → HasDistinctFeeds (rows db.feeds)
    → StandsById db.feeds
    → (counts : Map ℤ ℤ) × (stats : Stats) × (get_user_unread_counts now user db ≡ ok counts)
      × (get_account_stats now user db ≡ ok stats)
      × (stats.total_unread ≡ total_of counts)
unfolding get_user_unread_counts get_account_stats unread_rows total_of
stats-eq-counts db now user up distinct stands =
    let feeds = subscribed_feeds db.user_feeds user (rows db.feeds) in
    let d = subscribed-HasDistinctFeeds db.user_feeds user (rows db.feeds) distinct in
    let sums = total_of-counts db now user feeds [] d (none_counted feeds) in
    let same =
      rows-sum db now user feeds (rows db.articles) d
        (λ f. lists-subscribed db.user_feeds user f db.feeds stands) in
    (
      unread_counts_of db now user feeds [],
      record {
        total_articles = length (joined db user (rows db.articles));
        total_unread = pos (length (unread_rows db now user));
        active_feeds = count_feeds (unread_rows db now user);
      },
      if_true db.up _ _ up,
      if_true db.up _ _ up,
      ap pos same ∙ eq_of_parts _ _ (omega (int_laws, ap pos_part sums, ap neg_part sums)),
    )

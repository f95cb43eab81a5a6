-- ===== src/Datastore/Counts/Bounds.antt =====
-- internal/database/datastore.go: GetUserUnreadCounts against the counts of the rows, under any faults.
use goread.Base.{
  int_Eq, pair_Eq, int_eq_iff, int_laws, pos_part, neg_part, ℕ, ◌+◌, ◌≤◌, ◌≡◌, refl, sym, ap, ◌∙◌,
  subst, true, ℤ, pos, Map, List, [], ◌∷◌, concat, chunks, concat-chunks, ◌+ℤ◌, ◌≤ℤ◌, arith, inl,
  inr, length,
}
use goread.Database.{Db, Feed, Article, DbError, Result, ok, err}
use goread.Database.Articles.{Statuses, unread_in, is_read_by}
use goread.Database.Feeds.{rows}
use goread.Database.Stats.Sums.{HasDistinctFeeds, lists}
use goread.Datastore.{Store, micro, Ds, bind-ok, bind-err, ◌>>=◌}
use goread.Datastore.Counts.{
  Recent, published_since, recent_ids, of_feed, seed_counts, subtract_read, get_user_unread_counts,
}
use goread.Datastore.Counts.Down.{count_in, reads}
use goread.Datastore.Counts.Seeds.{script, subtract-Counted, subtract-answered}
use goread.Datastore.Subscriptions.{get_user_feeds_with_retry}
use goread.Datastore.Counts.Start.{seeded, recent_of, seeded-listed, seed-cases, seed-answered}

-- Every article is stored under its id.
abbrev pub IsKeyed : Map ℤ Article → Type 0
IsKeyed [] = Unit
IsKeyed ((id, article) ∷ m) = (article.id ≡ id) × IsKeyed m

-- The recent articles of a feed are those that count as unread and those that are read.
unread-add-reads :
    (m : Statuses) (now : ℕ) (user f : ℤ) (articles : Map ℤ Article)
    → IsKeyed articles
    → unread_in m (published_since (micro now)) user f (rows articles)
        + reads m user f (of_feed f (recent_ids f now articles))
      ≡ length (recent_ids f now articles)
unfolding unread_in recent_ids reads
unread-add-reads m now user f [] keyed = refl
unread-add-reads m now user f ((id, article) ∷ rest) keyed = ground (
  arith,
  int_eq_iff f f,
  ap (is_read_by m user) keyed.0,
  unread-add-reads m now user f rest keyed.1,
)

-- What GetUserUnreadCounts does once the feeds are read.
abbrev counts_of_feeds : ℕ → ℤ → List Feed → Ds (Map ℤ ℤ)
counts_of_feeds now user_id feeds =
    seed_counts now feeds []
    >>= (λ (r : Map ℤ ℤ × Recent). subtract_read user_id (chunks 999 r.1) r.0)

err-ne-ok : (e : DbError) (counts : Map ℤ ℤ) → err e ≡ ok counts → ⊥
err-ne-ok e counts h = cc

ok-injective : (a b : Map ℤ ℤ) → ◌≡◌ {A = Result DbError (Map ℤ ℤ)} (ok a) (ok b) → a ≡ b
ok-injective a b h = cc

module _ (now : ℕ) (user f : ℤ) (feeds : List Feed) (db : Db) (distinct : HasDistinctFeeds feeds)
    (listed : lists f feeds ≡ true) (keyed : IsKeyed db.articles) where
  balance :
      (after : Map ℤ ℤ) (gone : ℕ)
      → count_in f after +ℤ pos gone ≡ count_in f (seeded now db feeds [])
      → gone ≤ reads db.user_articles user f (concat (chunks 999 (recent_of now db feeds)))
      → (pos (unread_in db.user_articles (published_since (micro now)) user f (rows db.articles))
          ≤ℤ count_in f after)
        × (count_in f after ≤ℤ pos (length (recent_ids f now db.articles)))
  balance after gone left bound =
      let m = db.user_articles in
      let (count, read) = seeded-listed now db m user f feeds [] distinct listed in
      omega (
        int_laws,
        ap pos_part (left ∙ count),
        ap neg_part (left ∙ count),
        bound,
        ap (reads m user f) (concat-chunks 999 (recent_of now db feeds)),
        read,
        unread-add-reads m now user f db.articles keyed,
      )

-- For every feed that GetUserUnreadCounts has read, its count in an answer is at least the number of
-- unread recent articles of the feed, and at most the number of its recent articles, whatever the calls
-- do: faults leave articles unread. The feeds have different ids and the articles stand under theirs.
pub counts_bounds :
    (now : ℕ) (user f : ℤ) (feeds : List Feed) (s s' : Store) (counts : Map ℤ ℤ)
    → get_user_feeds_with_retry user 3 s ≡ (s', ok feeds)
    → HasDistinctFeeds feeds
    → lists f feeds ≡ true
    → IsKeyed s'.db.articles
    → (get_user_unread_counts now user s).1 ≡ ok counts
    → (pos
          (unread_in s'.db.user_articles (published_since (micro now)) user f (rows s'.db.articles))
        ≤ℤ count_in f counts)
      × (count_in f counts ≤ℤ pos (length (recent_ids f now s'.db.articles)))
unfolding get_user_unread_counts
counts_bounds now user f feeds s s' counts read distinct listed keyed answer =
    let db = s'.db in
    let subtract = λ (r : Map ℤ ℤ × Recent).
      let out : Ds (Map ℤ ℤ) = subtract_read user (chunks 999 r.1) r.0 in out in
    let begun =
      bind-ok (get_user_feeds_with_retry user 3) (counts_of_feeds now user) s s' feeds read in
    elim (seed-cases now feeds [] s'.calls db) [
      | inr (e, refused) ↦
          let none_left = bind-err (seed_counts now feeds []) subtract s' e refused in
          absurd (err-ne-ok e counts (sym none_left ∙ sym (ap (λ r. r.1) begun) ∙ answer))
      | inl (calls, seeds) ↦
          let r : Map ℤ ℤ × Recent = (seeded now db feeds [], recent_of now db feeds) in
          let (after, good, counted) =
            subtract-Counted user f (chunks 999 (recent_of now db feeds)) (seeded now db feeds [])
              calls db in
          let through = bind-ok (seed_counts now feeds []) subtract s' (script calls db) r seeds in
          let same : counts ≡ after =
            ok-injective counts after
              (sym answer ∙ ap (λ r. r.1) begun ∙ ap (λ r. r.1) through ∙ good) in
          subst
            (λ x.
              (pos (
                  unread_in db.user_articles (published_since (micro now)) user f
                    (rows db.articles))
                ≤ℤ count_in f x)
              × (count_in f x ≤ℤ pos (length (recent_ids f now db.articles))))
            (sym same)
            (balance now user f feeds db distinct listed keyed after counted.gone counted.balance
              counted.bound)
    ]

-- Where all calls are answered, GetUserUnreadCounts gives every feed that it has read the number of the
-- stored articles of the feed that were published since 90 days before the call, to the microsecond, and
-- that the user has not read, and changes nothing. The feeds have different ids and the articles stand
-- under theirs.
pub counts-eq-unread :
    (now : ℕ) (user f : ℤ) (feeds : List Feed) (db : Db)
    → get_user_feeds_with_retry user 3 (script [] db) ≡ (script [] db, ok feeds)
    → HasDistinctFeeds feeds
    → lists f feeds ≡ true
    → IsKeyed db.articles
    → (counts : Map ℤ ℤ) × (get_user_unread_counts now user (script [] db)
        ≡ (script [] db, ok counts))
      × (count_in f counts
          ≡ pos
              (unread_in db.user_articles (published_since (micro now)) user f (rows db.articles)))
unfolding get_user_unread_counts
counts-eq-unread now user f feeds db read distinct listed keyed =
    let m = db.user_articles in
    let seeds = seed-answered now feeds [] db in
    let (after, good, left) =
      subtract-answered user f (chunks 999 (recent_of now db feeds)) (seeded now db feeds []) db in
    let (count, recent_read) = seeded-listed now db m user f feeds [] distinct listed in
    (
      after,
      bind-ok (get_user_feeds_with_retry user 3) (counts_of_feeds now user) (script [] db)
            (script [] db) feeds read
          ∙ bind-ok (seed_counts now feeds []) (λ r. subtract_read user (chunks 999 r.1) r.0)
              (script [] db) (script [] db) (seeded now db feeds [], recent_of now db feeds) seeds
          ∙ good,
      omega (
        int_laws,
        ap pos_part (left ∙ count),
        ap neg_part (left ∙ count),
        ap (reads m user f) (concat-chunks 999 (recent_of now db feeds)),
        recent_read,
        unread-add-reads m now user f db.articles keyed,
      ),
    )

-- ===== src/Datastore/Counts/Start.antt =====
-- internal/database/datastore.go: the counts that GetUserUnreadCounts starts from, under any faults.
use goread.Base.{
  int_Eq, pair_Eq, int_eq_iff, ℕ, ◌≡◌, ◌≢◌, refl, ap, ◌∙◌, subst, true, ℤ, pos, Map, lookup-insert,
  insert, ◌==◌, List, [], ◌∷◌, ◌++◌, arith, Bool-cases, All, inl, inr, ◌⊎◌, length,
}
use goread.Database.{Db, Feed, DbError, unavailable, Result, ok, err}
use goread.Database.Articles.{Statuses}
use goread.Database.Stats.Sums.{HasDistinctFeeds, lists}
use goread.Datastore.{
  Store, Ds, Outcome, answered, failed, lost, partial, query_entities, bind-ok, bind-err, ◌>>=◌,
  pure,
}
use goread.Datastore.Counts.{Recent, recent_ids, of_feed, seed_counts}
use goread.Datastore.Counts.Down.{count_in, reads, reads-append}
use goread.Datastore.Counts.Seeds.{script}

-- What the queries of the feeds give where none fails.
unfoldable pub seeded : ℕ → Db → List Feed → Map ℤ ℤ → Map ℤ ℤ
seeded now db [] counts = counts
seeded now db (feed ∷ feeds) counts =
    seeded now db feeds (insert feed.id (pos (length (recent_ids feed.id now db.articles))) counts)

unfoldable pub recent_of : ℕ → Db → List Feed → Recent
recent_of now db [] = []
recent_of now db (feed ∷ feeds) =
    of_feed feed.id (recent_ids feed.id now db.articles) ++ recent_of now db feeds

pub query-cases :
    {A : Type 0} (f : Db → A) (calls : List Outcome) (db : Db)
    → (calls' : List Outcome) × ((query_entities f (script calls db)
          ≡ (script calls' db, ok (f db)))
        ⊎ (query_entities f (script calls db) ≡ (script calls' db, err unavailable)))
query-cases f [] db = ([], inl refl)
query-cases f (answered ∷ calls) db = (calls, inl refl)
query-cases f (failed ∷ calls) db = (calls, inr refl)
query-cases f (lost ∷ calls) db = (calls, inr refl)
query-cases f (partial reported ∷ calls) db = (calls, inl refl)

seeded-other :
    (now : ℕ) (db : Db) (f : ℤ) (feeds : List Feed) (counts : Map ℤ ℤ)
    → All (λ (b : Feed). b.id ≢ f) feeds
    → count_in f (seeded now db feeds counts) ≡ count_in f counts
unfolding seeded
seeded-other now db f [] counts ne = refl
seeded-other now db f (feed ∷ feeds) counts ne =
    seeded-other now db f feeds _ ne.1
    ∙ rw lookup-insert (ground (arith, ne.0, int_eq_iff feed.id f))

reads-other :
    (m : Statuses) (user f g : ℤ) (ids : List ℤ) → g ≢ f → reads m user f (of_feed g ids) ≡ 0
unfolding reads
reads-other m user f g [] ne = refl
reads-other m user f g (id ∷ ids) ne = ground (arith, int_eq_iff g f, reads-other m user f g ids)

reads-recent_of_other :
    (now : ℕ) (db : Db) (m : Statuses) (user f : ℤ) (feeds : List Feed)
    → All (λ (b : Feed). b.id ≢ f) feeds
    → reads m user f (recent_of now db feeds) ≡ 0
unfolding recent_of reads
reads-recent_of_other now db m user f [] ne = refl
reads-recent_of_other now db m user f (feed ∷ feeds) ne = omega (
  arith,
  reads-append m user f (of_feed feed.id (recent_ids feed.id now db.articles))
      (recent_of now db feeds),
  reads-other m user f feed.id (recent_ids feed.id now db.articles) ne.0,
  reads-recent_of_other now db m user f feeds ne.1,
)

pub seeded-listed :
    (now : ℕ) (db : Db) (m : Statuses) (user f : ℤ) (feeds : List Feed) (counts : Map ℤ ℤ)
    → HasDistinctFeeds feeds
    → lists f feeds ≡ true
    → (count_in f (seeded now db feeds counts) ≡ pos (length (recent_ids f now db.articles)))
      × (reads m user f (recent_of now db feeds)
          ≡ reads m user f (of_feed f (recent_ids f now db.articles)))
unfolding seeded recent_of
seeded-listed now db m user f [] counts d listed = absurd (cc)
seeded-listed now db m user f (feed ∷ feeds) counts d listed = elim (Bool-cases (feed.id == f)) [
  | inl here ↦
      let same : feed.id ≡ f = (int_eq_iff feed.id f).0 here in
      let ids = recent_ids feed.id now db.articles in
      subst
        (λ x.
          (count_in x (seeded now db (feed ∷ feeds) counts)
            ≡ pos (length (recent_ids x now db.articles)))
          × (reads m user x (recent_of now db (feed ∷ feeds))
              ≡ reads m user x (of_feed x (recent_ids x now db.articles))))
        same
        (
          seeded-other now db feed.id feeds _ d.0
              ∙ rw lookup-insert (ground (arith, int_eq_iff feed.id feed.id)),
          omega (
            arith,
            reads-append m user feed.id (of_feed feed.id ids) (recent_of now db feeds),
            reads-recent_of_other now db m user feed.id feeds d.0,
          ),
        )
  | inr other ↦
      let ne : feed.id ≢ f = ground (arith, int_eq_iff feed.id f) in
      let (count, read) =
        seeded-listed now db m user f feeds
          (insert feed.id (pos (length (recent_ids feed.id now db.articles))) counts) d.1
          (ground arith) in
      (
        count,
        omega (
          arith,
          read,
          reads-append m user f (of_feed feed.id (recent_ids feed.id now db.articles))
              (recent_of now db feeds),
          reads-other m user f feed.id (recent_ids feed.id now db.articles) ne,
        ),
      )
]

pub seed-cases :
    (now : ℕ) (feeds : List Feed) (counts : Map ℤ ℤ) (calls : List Outcome) (db : Db)
    → ((calls' : List Outcome) × (seed_counts now feeds counts (script calls db)
          ≡ (script calls' db, ok (seeded now db feeds counts, recent_of now db feeds))))
      ⊎ ((e : DbError) × ((seed_counts now feeds counts (script calls db)).1 ≡ err e))
unfolding seed_counts seeded recent_of
seed-cases now [] counts calls db = inl (calls, refl)
seed-cases now (feed ∷ feeds) counts calls db =
    let q = query_entities (λ (db : Db). recent_ids feed.id now db.articles) in
    let ids = recent_ids feed.id now db.articles in
    let counts' = insert feed.id (pos (length ids)) counts in
    let rest = λ (r : Map ℤ ℤ × Recent).
      let out : Ds (Map ℤ ℤ × Recent) = pure (r.0, of_feed feed.id ids ++ r.1) in out in
    let after = λ (ids : List ℤ).
      let out : Ds (Map ℤ ℤ × Recent) =
        seed_counts now feeds (insert feed.id (pos (length ids)) counts)
        >>= (λ r. pure (r.0, of_feed feed.id ids ++ r.1)) in
      out in
    let (calls', answer) = query-cases (λ (db : Db). recent_ids feed.id now db.articles) calls db in
    elim answer [
      | inr refused ↦
          inr (unavailable, bind-err q after (script calls db) unavailable (ap (λ r. r.1) refused))
      | inl good ↦ elim (seed-cases now feeds counts' calls' db) [
        | inl (calls2, seeds) ↦ inl (
          calls2,
          bind-ok q after (script calls db) (script calls' db) ids good
              ∙ bind-ok (seed_counts now feeds counts') rest (script calls' db) (script calls2 db)
                  (seeded now db feeds counts', recent_of now db feeds) seeds,
        )
        | inr (e, failed_later) ↦ inr (
          e,
          ap (λ (r : Store × Result DbError (Map ℤ ℤ × Recent)). r.1)
                (bind-ok q after (script calls db) (script calls' db) ids good)
              ∙ bind-err (seed_counts now feeds counts') rest (script calls' db) e failed_later,
        )
      ]
    ]

pub seed-answered :
    (now : ℕ) (feeds : List Feed) (counts : Map ℤ ℤ) (db : Db)
    → seed_counts now feeds counts (script [] db)
      ≡ (script [] db, ok (seeded now db feeds counts, recent_of now db feeds))
unfolding seed_counts seeded recent_of
seed-answered now [] counts db = refl
seed-answered now (feed ∷ feeds) counts db =
    let ids = recent_ids feed.id now db.articles in
    let counts' = insert feed.id (pos (length ids)) counts in
    bind-ok (seed_counts now feeds counts')
      (λ (r : Map ℤ ℤ × Recent). pure (r.0, of_feed feed.id ids ++ r.1)) (script [] db)
      (script [] db) (seeded now db feeds counts', recent_of now db feeds)
      (seed-answered now feeds counts' db)

-- ===== src/Datastore/Orphans/Safe.antt =====
-- internal/database/datastore.go: a run of CleanupOrphanedUserArticles and the marks of the feeds' readers.
use goread.Base.{
  int_Eq, pair_Eq, ℕ, ◌+◌, ◌≡◌, refl, sym, ap, ◌∙◌, subst, true, some, ℤ, lookup, List, [], ◌∷◌,
  Bool-cases, inl, inr, ◌⊎◌, All, nat_eq, length, chunks,
}
use goread.Database.{Db, Article, ok, Result-cases}
use goread.Database.Feeds.{is_subscribed}
use goread.Datastore.{Store, Outcome, answered, failed, lost, partial, call}
use goread.Datastore.Orphans.{
  Keys, query_page, next_page, delete_orphaned_user_articles_batch, cleanup_pages,
  cleanup_orphaned_user_articles, keys_in,
}
use goread.Datastore.Orphans.Kept.{IsWhole}
use goread.Datastore.Orphans.Batch.{script, Keeps, batch-Keeps}

Keeps-trans :
    (key : ℤ × ℤ) (db : Db) (s s' : Store) → Keeps key db s → Keeps key s.db s' → Keeps key db s'
Keeps-trans key db s s' first second =
    (second.0, second.1 ∙ first.1, second.2 ∙ first.2, second.3 ∙ first.3)

call-Keeps :
    {A : Type 0} (key : ℤ × ℤ) (a : A) (calls : List Outcome) (db : Db)
    → All IsWhole calls
    → Keeps key db (call (λ db. (db, ok a)) (script calls db)).0
call-Keeps key a [] db w = (tt, refl, refl, refl)
call-Keeps key a (answered ∷ calls) db w = (w.1, refl, refl, refl)
call-Keeps key a (failed ∷ calls) db w = (w.1, refl, refl, refl)
call-Keeps key a (lost ∷ calls) db w = (w.1, refl, refl, refl)
call-Keeps key a (partial reported ∷ calls) db w = absurd w.0

module _ (now days : ℕ) where
  -- Where a round of the loop over the pages ends.
  page-cases :
      (keys : Keys) (pages : List Keys) (deleted : ℕ) (s : Store)
      → let q = (query_page keys s).0 in
        let b = (delete_orphaned_user_articles_batch now days keys q).0 in
        let out = (cleanup_pages now days (keys ∷ pages) deleted s).0 in
        (out ≡ q)
        ⊎ ((out ≡ b)
            ⊎ ((out ≡ (next_page b).0)
                ⊎ ((n : ℕ) × (out ≡ (cleanup_pages now days pages n (next_page b).0).0))))
  unfolding cleanup_pages
  page-cases keys pages deleted s =
      let q = (query_page keys s).0 in
      let b = delete_orphaned_user_articles_batch now days keys q in
      elim (Result-cases (query_page keys s).1) [
        | inr (e, refused) ↦ inl (rw (refused, cleanup_pages))
        | inl (page, good) ↦ elim (Result-cases b.1) [
          | inr (e, refused) ↦ inr (inl (rw (good, cleanup_pages) (rw refused)))
          | inl (n, done) ↦ elim (Bool-cases (nat_eq (length keys) 500)) [
            | inr short ↦ inr (inl (rw (good, cleanup_pages) (rw done (rw short))))
            | inl full ↦ elim (Result-cases (next_page b.0).1) [
              | inr (e, refused) ↦
                  inr (inr (inl (rw (good, cleanup_pages) (rw done (rw full (rw refused))))))
              | inl (more, there) ↦
                  inr (
                    inr
                      (inr (deleted + n, rw (good, cleanup_pages) (rw done (rw full (rw there))))))
            ]
          ]
        ]
      ]

  last-page :
      (deleted : ℕ) (s : Store) → (cleanup_pages now days [] deleted s).0 ≡ (query_page [] s).0
  unfolding cleanup_pages
  last-page deleted s = elim (Result-cases (query_page [] s).1) [
    | inr (e, refused) ↦ rw (refused, cleanup_pages)
    | inl (page, good) ↦ rw (good, cleanup_pages)
  ]

  pages-Keeps :
      (user id : ℤ) (pages : List Keys) (deleted : ℕ) (s : Store) (article : Article)
      → lookup id s.db.articles ≡ some article
      → is_subscribed s.db.user_feeds user article.feed_id ≡ true
      → All IsWhole s.calls
      → Keeps (user, id) s.db (cleanup_pages now days pages deleted s).0
  pages-Keeps user id [] deleted s article stored subscribed w =
      subst (λ x. Keeps (user, id) s.db x) (sym (last-page deleted s))
        (call-Keeps (user, id) [] s.calls s.db w)
  pages-Keeps user id (keys ∷ pages) deleted s article stored subscribed w =
      let q = (query_page keys s).0 in
      let b = (delete_orphaned_user_articles_batch now days keys q).0 in
      let x = (next_page b).0 in
      let at_q = call-Keeps (user, id) keys s.calls s.db w in
      let at_b =
        Keeps-trans (user, id) s.db q b at_q
          (batch-Keeps now days user id q.db article keys q.calls (ap (lookup id) at_q.1 ∙ stored)
            (ap (λ subs. is_subscribed subs user article.feed_id) at_q.2 ∙ subscribed) at_q.0) in
      let at_x =
        Keeps-trans (user, id) s.db b x at_b (call-Keeps (user, id) tt b.calls b.db at_b.0) in
      let moved = λ (y : Store). λ (e : (cleanup_pages now days (keys ∷ pages) deleted s).0 ≡ y).
        λ (k : Keeps (user, id) s.db y). subst (λ z. Keeps (user, id) s.db z) (sym e) k in
      elim (page-cases keys pages deleted s) [
        | inl e ↦ moved q e at_q
        | inr (inl e) ↦ moved b e at_b
        | inr (inr (inl e)) ↦ moved x e at_x
        | inr (inr (inr (n, e))) ↦ moved (cleanup_pages now days pages n x).0 e (
            Keeps-trans (user, id) s.db x (cleanup_pages now days pages n x).0 at_x
              (pages-Keeps user id pages n x article (ap (lookup id) at_x.1 ∙ stored)
                (ap (λ subs. is_subscribed subs user article.feed_id) at_x.2 ∙ subscribed) at_x.0))
      ]

-- A run of CleanupOrphanedUserArticles keeps the mark of a user on a stored article of a feed that the user
-- reads, and all articles and subscriptions, however many of its calls fail or lose their answers, while
-- no batch read reports an error for a single key.
pub cleanup-keeps :
    (now days : ℕ) (user id : ℤ) (article : Article) (s : Store)
    → lookup id s.db.articles ≡ some article
    → is_subscribed s.db.user_feeds user article.feed_id ≡ true
    → All IsWhole s.calls
    → let s' = (cleanup_orphaned_user_articles now days s).0 in
      (lookup (user, id) s'.db.user_articles ≡ lookup (user, id) s.db.user_articles)
      × (s'.db.articles ≡ s.db.articles)
      × (s'.db.user_feeds ≡ s.db.user_feeds)
unfolding cleanup_orphaned_user_articles
cleanup-keeps now days user id article s stored subscribed w =
    let kept =
      pages-Keeps now days user id (chunks 499 (keys_in s.db.user_articles)) 0 s article stored
        subscribed w in
    (kept.3, kept.1, kept.2)

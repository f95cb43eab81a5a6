-- ===== src/Datastore/Orphans/Reported.antt =====
-- internal/database/datastore.go: what the cleanup does with a mark whose article cannot be read.
use goread.Base.{
  int_Eq, pair_Eq, ℕ, ◌≡◌, refl, ap, ◌∙◌, Bool, false, none, ℤ, lookup, lookup-delete, delete, List,
  [], ◌∷◌, ◌++◌, arith, beq_refl,
}
use goread.Database.{Db, DbError, Result, ok}
use goread.Database.Articles.{Statuses}
use goread.Datastore.{Store, Outcome, partial, slots, delete_all, bind-ok}
use goread.Datastore.Orphans.{
  Keys, sort_out, check_subscriptions, delete_marks, article_ids_of,
  delete_orphaned_user_articles_batch,
}

abbrev script : List Outcome → Db → Store
script calls db = record { calls = calls; db = db }

lookup-delete_all-none :
    (key : ℤ × ℤ) (keys : Keys) (m : Statuses)
    → lookup key m ≡ none
    → lookup key (delete_all keys m) ≡ none
lookup-delete_all-none key [] m h = h
lookup-delete_all-none key (k ∷ keys) m h =
    lookup-delete_all-none key keys (delete k m) (lookup-delete k key m ∙ ground (arith, h))

check-answered :
    (pending : List ((ℤ × ℤ) × (ℤ × ℤ))) (db : Db)
    → (orphans : Keys) × (check_subscriptions pending (script [] db) ≡ (script [] db, ok orphans))
unfolding check_subscriptions
check-answered [] db = ([], refl)
check-answered (p ∷ pending) db = (_, refl)

-- Where the batch read of the articles reports an error for the article of the first mark of a page, and all
-- later calls are answered, that mark is deleted, whether its article is stored and its feed is read by
-- the user or not.
pub broken-deleted :
    (now days : ℕ) (key : ℤ × ℤ) (keys : Keys) (reported : List Bool) (db : Db)
    → lookup key
        (delete_orphaned_user_articles_batch now days
          (key ∷ keys)
          (record { calls = partial (false ∷ reported) ∷ []; db = db })).0.db.user_articles
      ≡ none
unfolding delete_orphaned_user_articles_batch slots sort_out
broken-deleted now days key keys reported db =
    let answers = slots db.articles (false ∷ reported) (article_ids_of (key ∷ keys)) in
    let sorted = sort_out now days (key ∷ keys) answers in
    let (orphans, checked) = check-answered sorted.1 db in
    let remove = λ (orphans : Keys). delete_marks (sorted.0 ++ orphans) in
    let done =
      bind-ok (check_subscriptions sorted.1) remove (script [] db) (script [] db) orphans checked in
    ap (λ (r : Store × Result DbError ℕ). lookup key r.0.db.user_articles) done
    ∙ lookup-delete_all-none key
        ((sort_out now days keys (slots db.articles reported (article_ids_of keys))).0 ++ orphans)
        (delete key db.user_articles) (lookup-delete key key db.user_articles ∙ rw (beq_refl key))

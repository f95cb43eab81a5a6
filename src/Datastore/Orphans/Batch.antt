-- ===== src/Datastore/Orphans/Batch.antt =====
-- internal/database/datastore.go: one page of the cleanup and the marks of the feeds' readers.
use goread.Base.Eq.{Eq}
use goread.Base.{
  int_Eq, pair_Eq, ℕ, ◌≡◌, refl, sym, ◌∙◌, subst, true, false, some, ℤ, Map, lookup, List, [], ◌∷◌,
  ◌++◌, inl, inr, ◌⊎◌, All,
}
use goread.Database.{Db, Article, DbError, unavailable, Result, ok, err}
use goread.Database.Feeds.{is_subscribed}
use goread.Datastore.{
  Store, Ds, Outcome, answered, failed, lost, partial, slots, get_multi, bind-ok, bind-fail, ◌>>=◌,
  pure, Slot,
}
use goread.Datastore.Orphans.{
  Keys, sort_out, second_keys, unsubscribed, check_subscriptions, delete_marks, article_ids_of,
  delete_orphaned_user_articles_batch,
}
use goread.Datastore.Orphans.Kept.{
  IsWhole, has, has-append, lookup-delete_all, gone-has, IsAligned, sort_out-IsAligned,
  unsubscribed-has,
}

abbrev pub script : List Outcome → Db → Store
script calls db = record { calls = calls; db = db }

read_cases :
    {K V : Type 0} ⦃keys : Eq K⦄ (kind : Db → Map K V) (ks : List K) (calls : List Outcome)
    (db : Db)
    → All IsWhole calls
    → (calls' : List Outcome) × All IsWhole calls'
      × ((get_multi kind ks (script calls db) ≡ (script calls' db, ok (slots (kind db) [] ks)))
          ⊎ (get_multi kind ks (script calls db) ≡ (script calls' db, err unavailable)))
read_cases kind ks [] db w = ([], tt, inl refl)
read_cases kind ks (answered ∷ calls) db w = (calls, w.1, inl refl)
read_cases kind ks (failed ∷ calls) db w = (calls, w.1, inr refl)
read_cases kind ks (lost ∷ calls) db w = (calls, w.1, inr refl)
read_cases kind ks (partial reported ∷ calls) db w = absurd w.0

-- The step changes no articles and no subscriptions, and leaves the mark as it is.
abbrev pub Keeps : ℤ × ℤ → Db → Store → Type 0
Keeps key db s =
    All IsWhole s.calls
    × (s.db.articles ≡ db.articles)
    × (s.db.user_feeds ≡ db.user_feeds)
    × (lookup key s.db.user_articles ≡ lookup key db.user_articles)

kept-eq :
    (key : ℤ × ℤ) (db : Db) (r r' : Store × Result DbError ℕ)
    → r ≡ r'
    → Keeps key db r'.0
    → Keeps key db r.0
kept-eq key db r r' e k = subst (λ (x : Store × Result DbError ℕ). Keeps key db x.0) (sym e) k

delete_marks-Keeps :
    (key : ℤ × ℤ) (keys : Keys) (calls : List Outcome) (db : Db)
    → All IsWhole calls
    → has key keys ≡ false
    → Keeps key db (delete_marks keys (script calls db)).0
delete_marks-Keeps key [] calls db w h = (w, refl, refl, refl)
delete_marks-Keeps key (k ∷ keys) [] db w h =
    (tt, refl, refl, lookup-delete_all key (k ∷ keys) db.user_articles h)
delete_marks-Keeps key (k ∷ keys) (answered ∷ calls) db w h =
    (w.1, refl, refl, lookup-delete_all key (k ∷ keys) db.user_articles h)
delete_marks-Keeps key (k ∷ keys) (failed ∷ calls) db w h = (w.1, refl, refl, refl)
delete_marks-Keeps key (k ∷ keys) (lost ∷ calls) db w h =
    (w.1, refl, refl, lookup-delete_all key (k ∷ keys) db.user_articles h)
delete_marks-Keeps key (k ∷ keys) (partial reported ∷ calls) db w h = absurd w.0

module _ (now days : ℕ) (user id : ℤ) where
  -- From the pending marks on.
  pending-Keeps :
      (db : Db) (article : Article) (gone : Keys) (pending : List ((ℤ × ℤ) × (ℤ × ℤ)))
      (calls : List Outcome)
      → lookup id db.articles ≡ some article
      → is_subscribed db.user_feeds user article.feed_id ≡ true
      → All IsWhole calls
      → has (user, id) gone ≡ false
      → IsAligned (user, id) (user, article.feed_id) pending
      → Keeps
          (user, id)
          db
          ((check_subscriptions pending >>= (λ (orphans : Keys). delete_marks (gone ++ orphans)))
            (script calls db)).0
  unfolding check_subscriptions
  pending-Keeps db article gone [] calls stored subscribed w h aligned =
      delete_marks-Keeps (user, id) (gone ++ []) calls db w (has-append (user, id) gone [] ∙ rw h)
  pending-Keeps db article gone (p ∷ pending) calls stored subscribed w h aligned =
      let keys = second_keys (p ∷ pending) in
      let (calls', w', answer) = read_cases (λ (db : Db). db.user_feeds) keys calls db w in
      let read = λ (answers : List (Slot (Unit {0}))).
        let out : Ds Keys = pure (unsubscribed (p ∷ pending) answers) in out in
      let remove = λ (orphans : Keys). delete_marks (gone ++ orphans) in
      let m = get_multi (λ (db : Db). db.user_feeds) keys in
      let s = script calls db in
      let s' = script calls' db in
      elim answer [
        | inr refused ↦
            let checked = bind-fail m read s s' unavailable refused in
            kept-eq (user, id) db _ (s', err unavailable)
              (bind-fail (check_subscriptions (p ∷ pending)) remove s s' unavailable checked)
              (w', refl, refl, refl)
        | inl found_all ↦
            let orphans = unsubscribed (p ∷ pending) (slots db.user_feeds [] keys) in
            let checked = bind-ok m read s s' (slots db.user_feeds [] keys) found_all in
            kept-eq (user, id) db _ (remove orphans s')
              (bind-ok (check_subscriptions (p ∷ pending)) remove s s' orphans checked)
              (delete_marks-Keeps (user, id) (gone ++ orphans) calls' db w'
                (has-append (user, id) gone orphans
                  ∙ rw (
                    h,
                    unsubscribed-has now days user id db article stored subscribed (p ∷ pending)
                        aligned,
                  )))
      ]

  pub batch-Keeps :
      (db : Db) (article : Article) (keys : Keys) (calls : List Outcome)
      → lookup id db.articles ≡ some article
      → is_subscribed db.user_feeds user article.feed_id ≡ true
      → All IsWhole calls
      → Keeps (user, id) db (delete_orphaned_user_articles_batch now days keys (script calls db)).0
  unfolding delete_orphaned_user_articles_batch
  batch-Keeps db article [] calls stored subscribed w = (w, refl, refl, refl)
  batch-Keeps db article (key ∷ keys) calls stored subscribed w =
      let ids = article_ids_of (key ∷ keys) in
      let (calls', w', answer) = read_cases (λ (db : Db). db.articles) ids calls db w in
      let m = get_multi (λ (db : Db). db.articles) ids in
      let s = script calls db in
      let s' = script calls' db in
      let next = λ (answers : List (Slot Article)).
        let sorted = sort_out now days (key ∷ keys) answers in
        let out : Ds ℕ =
          check_subscriptions sorted.1
          >>= (λ (orphans : Keys). delete_marks (sorted.0 ++ orphans)) in
        out in
      elim answer [
        | inr refused ↦
            kept-eq (user, id) db _ (s', err unavailable)
              (bind-fail m next s s' unavailable refused) (w', refl, refl, refl)
        | inl found_all ↦
            let answers = slots db.articles [] ids in
            let sorted = sort_out now days (key ∷ keys) answers in
            kept-eq (user, id) db _ (next answers s') (bind-ok m next s s' answers found_all)
              (pending-Keeps db article sorted.0 sorted.1 calls' stored subscribed w'
                (gone-has now days user id db article stored subscribed (key ∷ keys))
                (sort_out-IsAligned now days user id db article stored subscribed (key ∷ keys)))
      ]

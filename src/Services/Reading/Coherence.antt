-- ===== src/Services/Reading/Coherence.antt =====
-- internal/services/feed_service.go: the cached unread counts against those of the store.
use mathlib.Core.Option
use goread.Base.{
  int_Eq, int_eq_iff, ℕ, ◌<◌, ◌≡◌, refl, sym, ap, subst, ◌∙◌, Bool, true, false, Option, some,
  if◌then◌else◌, if_true, if_false, Bool-cases, inl, inr, ℤ, pos, Map, lookup, get_or, is_some, ltb,
  ltb_ℤ, ◌==◌, beq_refl, int_max, arith, lookup-insert,
}
use goread.Database.{Db, Article, DbError, Result, ok}
use goread.Database.Articles
use goread.Database.Articles.{mark_row, is_read_by, unread_in, ninety_days}
use goread.Database.Feeds.{rows}
use goread.Database.Unread.{DistinctIds, Within, unread_in-mark_row, unread_in-mark_ne}
use goread.Cache.Unread.{UnreadCache, update_count, expiry, get, update_feed}
use goread.Cache.Unread.Counts.{get-update_count, lookup-update_feed}
use goread.Services.Reading.{FeedService, mark_user_article_read, finish_mark}

-- Each cached count is that of the store.
pub record Accurate (db : Db) (now : ℕ) (user : ℤ) (counts : Map ℤ ℤ) : Type 0 where
  pub same :
      (f : ℤ)
      → is_some (lookup f counts) ≡ true
      → get_or (lookup f counts) (pos 0)
        ≡ pos (unread_in db.user_articles (db.texts.since now) user f (rows db.articles))

lookup-update_feed_ne :
    (m : Map ℤ ℤ) (feed f : ℤ) (was_read is_read : Bool)
    → (feed == f) ≡ false
    → lookup f (update_feed m feed was_read is_read) ≡ lookup f m
unfolding update_feed
lookup-update_feed_ne m feed f true true h = refl
lookup-update_feed_ne m feed f false false h = refl
lookup-update_feed_ne m feed f true false h = lookup-insert _ f _ m ∙ if_false _ _ _ h
lookup-update_feed_ne m feed f false true h = lookup-insert _ f _ m ∙ if_false _ _ _ h

module _ (db : Db) (now : ℕ) (user : ℤ) (a : Article) (is_read : Bool) (m : Map ℤ ℤ) where
  update-Accurate :
      DistinctIds (rows db.articles)
      → Within a (rows db.articles)
      → db.texts.since now a ≡ true
      → is_some (lookup a.feed_id m) ≡ true
      → unread_in db.user_articles (db.texts.since now) user a.feed_id (rows db.articles) < int_max
      → Accurate db now user m
      → Accurate
          (record db { user_articles = mark_row user a.id is_read db.user_articles })
          now
          user
          (update_feed m a.feed_id (is_read_by db.user_articles user a.id) is_read)
  update-Accurate distinct within recent cached bound acc = record {
    same = λ f h. elim (Bool-cases (a.feed_id == f)) [
      | inl own ↦
          let e : a.feed_id ≡ f = (int_eq_iff a.feed_id f).0 own in
          subst
            (λ x.
              get_or (lookup x (update_feed m a.feed_id was is_read)) (pos 0)
              ≡ pos (
                  unread_in (mark_row user a.id is_read db.user_articles) (db.texts.since now) user
                    x (rows db.articles)))
            e
            (lookup-update_feed m a.feed_id a.feed_id was is_read n (acc.same a.feed_id cached)
                bound
              ∙ if_true _ _ _ (beq_refl a.feed_id)
              ∙ ap pos (
                  sym (
                    unread_in-mark_row db.user_articles user a.id is_read (db.texts.since now) a
                      (rows db.articles) refl distinct within recent)))
      | inr other ↦
          let kept = lookup-update_feed_ne m a.feed_id f was is_read other in
          ap (λ (o : Option ℤ). get_or o (pos 0)) kept
          ∙ acc.same f (sym (ap (λ (o : Option ℤ). is_some o) kept) ∙ h)
          ∙ ap pos (
              sym (
                unread_in-mark_ne db.user_articles user a.id is_read (db.texts.since now) f a
                  (rows db.articles) refl distinct within
                  (λ e. ground (arith, int_eq_iff a.feed_id f))))
    ];
  }
    where
      was : Bool
      was = is_read_by db.user_articles user a.id

      n : ℕ
      n = unread_in db.user_articles (db.texts.since now) user a.feed_id (rows db.articles)

hit-unexpired :
    (c : UnreadCache) (now : ℕ) (user : ℤ) (m : Map ℤ ℤ)
    → (get c now user).1 ≡ some m
    → ltb (expiry c user) now ≡ false
unfolding get
hit-unexpired c now user m hit = ground arith

mark_succeeds :
    (fs : FeedService) (now : ℕ) (user id feed : ℤ) (is_read was_read : Bool)
    → fs.db.up ≡ true
    → ltb_ℤ (pos 0) feed ≡ true
    → mark_user_article_read fs now user id is_read feed was_read ≡ (
      record fs {
        db = record fs.db { user_articles = mark_row user id is_read fs.db.user_articles };
        unread_cache = update_count fs.unread_cache now user feed was_read is_read;
      },
      ok tt,
    )
unfolding mark_user_article_read Articles.mark_user_article_read
mark_succeeds fs now user id feed is_read was_read up known =
    ap (finish_mark fs now user feed was_read is_read) (if_true fs.db.up _ _ up)
    ∙ ap
        (λ (c : UnreadCache). (
          record fs {
            db = record fs.db { user_articles = mark_row user id is_read fs.db.user_articles };
            unread_cache = c;
          },
          ok tt,
        ))
        (if_true _ _ _ known)

-- Marking an article keeps the cache right. The article is stored, SQLite finds it published in the last 90
-- days, and the caller passes its feed (with a positive id) and its read mark as the store has them; the
-- driver answers, the ids of the articles differ, and the user's cached counts are those of the store,
-- that of the article's feed (below the largest `int`) among them. Then the call succeeds, and every
-- count cached after it is that of the store after it.
pub mark-Accurate :
    (fs : FeedService) (now : ℕ) (user : ℤ) (a : Article) (is_read : Bool) (m : Map ℤ ℤ)
    → fs.db.up ≡ true
    → DistinctIds (rows fs.db.articles)
    → Within a (rows fs.db.articles)
    → fs.db.texts.since now a ≡ true
    → ltb_ℤ (pos 0) a.feed_id ≡ true
    → (get fs.unread_cache now user).1 ≡ some m
    → is_some (lookup a.feed_id m) ≡ true
    → unread_in fs.db.user_articles (fs.db.texts.since now) user a.feed_id (rows fs.db.articles)
      < int_max
    → Accurate fs.db now user m
    → let after =
        mark_user_article_read fs now user a.id is_read a.feed_id
          (is_read_by fs.db.user_articles user a.id) in
      (m' : Map ℤ ℤ) × (after.1 ≡ ok tt)
      × ((get after.0.unread_cache now user).1 ≡ some m')
      × Accurate after.0.db now user m'
mark-Accurate fs now user a is_read m up distinct within recent known hit cached bound acc =
    let was = is_read_by fs.db.user_articles user a.id in
    let done = mark_succeeds fs now user a.id a.feed_id is_read was up known in
    (
      update_feed m a.feed_id was is_read,
      ap (λ (r : FeedService × Result DbError (Unit {0})). r.1) done,
      ap (λ (r : FeedService × Result DbError (Unit {0})). (get r.0.unread_cache now user).1) done
          ∙ get-update_count fs.unread_cache now now user user a.feed_id was is_read
              (hit-unexpired fs.unread_cache now user m hit)
          ∙ ap
              (Option.map (λ m'. if user == user then update_feed m' a.feed_id was is_read else m'))
              hit
          ∙ ap some (if_true _ _ _ (beq_refl user)),
      subst
          (λ (r : FeedService × Result DbError (Unit {0})).
            Accurate r.0.db now user (update_feed m a.feed_id was is_read))
          (sym done)
          (update-Accurate fs.db now user a is_read m distinct within recent cached bound acc),
    )

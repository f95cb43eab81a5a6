-- ===== src/Database/Stars.antt =====
-- internal/database/schema.go: marking everything read, and the stars.
use mathlib.Core.Option
use goread.Base.{
  if_true, int_Eq, pair_Eq, int_eq_iff, ℕ, ◌≡◌, refl, sym, subst, ap, Bool, true, false, ◌||◌, not,
  Option, none, some, ℤ, lookup, lookup-insert, if◌then◌else◌, ◌==◌, List, [], ◌∷◌, arith,
  Bool-cases, Option-cases, inl, inr, All,
}
use goread.Database.{Db, Article, UserArticle, Result, DbError}
use goread.Database.Feeds.{Subscriptions, is_subscribed, rows}
use goread.Database.Articles.{
  row_read, Statuses, is_read_by, mark_row, toggle_row, replace_rows, subscribed_articles,
  mark_all_user_articles_read, unread_in,
}
use goread.Database.Unread.{Within}

-- Rows of other articles are left by a batch, and those of its articles are replaced.
abbrev pub replaces : ℤ → List Article → Bool
replaces id [] = false
replaces id (a ∷ l) = a.id == id || replaces id l

pub lookup-replace_rows :
    (user id : ℤ) (row : UserArticle) (l : List Article) (m : Statuses)
    → lookup (user, id) (replace_rows user row l m)
      ≡ (if replaces id l then some row else lookup (user, id) m)
unfolding replace_rows
lookup-replace_rows user id row [] m = refl
lookup-replace_rows user id row (a ∷ l) m =
    rw (lookup-replace_rows user id row l, lookup-insert) (ground (arith, int_eq_iff user user))

-- An article of a subscribed feed is among those that are replaced.
replaces-subscribed :
    (subs : Subscriptions) (user : ℤ) (a : Article) (l : List Article)
    → Within a l
    → is_subscribed subs user a.feed_id ≡ true
    → replaces a.id (subscribed_articles subs user l) ≡ true
unfolding subscribed_articles
replaces-subscribed subs user a [] w h = absurd w
replaces-subscribed subs user a (b ∷ l) (inl here) h =
    subst (λ x. replaces a.id (subscribed_articles subs user (x ∷ l)) ≡ true) (sym here)
      (rw h (ground (arith, int_eq_iff a.id a.id)))
replaces-subscribed subs user a (b ∷ l) (inr later) h =
    elim (Bool-cases (is_subscribed subs user b.feed_id)) [
      | inl yes_subscribed ↦
          rw yes_subscribed (ground (arith, replaces-subscribed subs user a l later h))
      | inr not_subscribed ↦ rw not_subscribed (replaces-subscribed subs user a l later h)
    ]

-- The loop over the rest of a table whose articles are all read counts none.
unread_in_read :
    (m : Statuses) (since : Article → Bool) (user f : ℤ) (l : List Article)
    → All (λ a. a.feed_id ≡ f → is_read_by m user a.id ≡ true) l
    → unread_in m since user f l ≡ 0
unfolding unread_in
unread_in_read m since user f [] h = refl
unread_in_read m since user f (a ∷ l) h =
    rw (unread_in_read m since user f l h.1) (ground (arith, int_eq_iff a.feed_id f, h.0))

All-Within :
    (P : Article → Type 0) (all l : List Article)
    → ((a : Article) → Within a all → P a)
    → ((a : Article) → Within a l → Within a all)
    → All P l
All-Within P all [] p sub = tt
All-Within P all (a ∷ l) p sub =
    (p a (sub a (inl refl)), All-Within P all l p (λ x w. sub x (inr w)))

abbrev read_row : UserArticle
read_row = record { is_read = true; is_starred = false }

module _ (db : Db) (user : ℤ) (up : db.up ≡ true) where
  mark_all-rows :
      (mark_all_user_articles_read user db).0.user_articles
      ≡ replace_rows user read_row
          (subscribed_articles db.user_feeds user (rows db.articles))
          db.user_articles
  unfolding mark_all_user_articles_read
  mark_all-rows = ap (λ (r : Db × Result DbError ℕ). r.0.user_articles) (if_true db.up _ _ up)

  lookup-mark_all :
      (a : Article)
      → Within a (rows db.articles)
      → is_subscribed db.user_feeds user a.feed_id ≡ true
      → lookup (user, a.id) (mark_all_user_articles_read user db).0.user_articles ≡ some read_row
  lookup-mark_all a w subscribed =
      rw (mark_all-rows, lookup-replace_rows)
        (rw (replaces-subscribed db.user_feeds user a (rows db.articles) w subscribed))

-- After `MarkAllUserArticlesRead`, as the driver answers, no article of a subscribed feed counts as
-- unread.
pub mark_all-unread_zero :
    (db : Db) (now : ℕ) (user f : ℤ)
    → db.up ≡ true
    → is_subscribed db.user_feeds user f ≡ true
    → unread_in
        (mark_all_user_articles_read user db).0.user_articles
        (db.texts.since now)
        user
        f
        (rows db.articles)
      ≡ 0
unfolding is_read_by
mark_all-unread_zero db now user f up subscribed =
    unread_in_read _ (db.texts.since now) user f (rows db.articles) (
      All-Within _ (rows db.articles) (rows db.articles)
        (λ a w e. ap row_read (lookup-mark_all db user up a w (rw e subscribed))) (λ a w. w))

-- Every article of a subscribed feed has no star after `MarkAllUserArticlesRead`, whatever stars the
-- user had set.
pub mark_all-drops_stars :
    (db : Db) (user : ℤ) (a : Article)
    → db.up ≡ true
    → Within a (rows db.articles)
    → is_subscribed db.user_feeds user a.feed_id ≡ true
    → Option.map
        (λ row. row.is_starred)
        (lookup (user, a.id) (mark_all_user_articles_read user db).0.user_articles)
      ≡ some false
mark_all-drops_stars db user a up w subscribed = rw (lookup-mark_all db user up a w subscribed)

-- Whether the user has starred the article.
abbrev pub row_starred : Option UserArticle → Bool
row_starred none = false
row_starred (some row) = row.is_starred

lookup-mark_row :
    (m : Statuses) (user id : ℤ) (r : Bool) (k : ℤ × ℤ)
    → lookup k (mark_row user id r m) ≡ (
        if (user, id) == k
        then some (record { is_read = r; is_starred = row_starred (lookup (user, id) m) })
        else lookup k m)
unfolding mark_row
lookup-mark_row m user id r k = elim (Option-cases (lookup (user, id) m)) [
  | inl absent ↦ rw (absent, mark_row) (lookup-insert (user, id) k _ m)
  | inr (row, present) ↦ rw (present, mark_row) (lookup-insert (user, id) k _ m)
]

lookup-toggle_row :
    (m : Statuses) (user id : ℤ) (k : ℤ × ℤ)
    → lookup k (toggle_row user id m) ≡ (
        if (user, id) == k
        then some (record {
          is_read = row_read (lookup (user, id) m);
          is_starred = not (row_starred (lookup (user, id) m));
        })
        else lookup k m)
unfolding toggle_row
lookup-toggle_row m user id k = elim (Option-cases (lookup (user, id) m)) [
  | inl absent ↦ rw (absent, toggle_row) (lookup-insert (user, id) k _ m)
  | inr (row, present) ↦ rw (present, toggle_row) (lookup-insert (user, id) k _ m)
]

-- Marking an article, read or unread, keeps every star, and starring keeps every read mark; to star
-- an article twice restores its star.
pub star_and_read_independent :
    (m : Statuses) (user id u a : ℤ) (r : Bool)
    → (row_starred (lookup (u, a) (mark_row user id r m)) ≡ row_starred (lookup (u, a) m))
      × (row_read (lookup (u, a) (toggle_row user id m)) ≡ row_read (lookup (u, a) m))
      × (row_starred (lookup (u, a) (toggle_row user id (toggle_row user id m)))
          ≡ row_starred (lookup (u, a) m))
star_and_read_independent m user id u a r = (
  rw lookup-mark_row (ground (arith, int_eq_iff user u, int_eq_iff id a)),
  rw lookup-toggle_row (ground (arith, int_eq_iff user u, int_eq_iff id a)),
  rw (lookup-toggle_row (toggle_row user id m) user id (u, a)) (
      ground (
        arith,
        int_eq_iff user u,
        int_eq_iff id a,
        int_eq_iff user user,
        int_eq_iff id id,
        lookup-toggle_row m user id (u, a),
        lookup-toggle_row m user id (user, id),
      )),
)

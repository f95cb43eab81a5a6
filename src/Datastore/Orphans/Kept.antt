-- ===== src/Datastore/Orphans/Kept.antt =====
-- internal/database/datastore.go: the marks that the cleanup leaves alone while no key of a batch read
-- is reported.
use goread.Base.{
  int_Eq, pair_Eq, ℕ, ◌+◌, ◌*◌, ltb, ◌≡◌, refl, sym, ap, ◌∙◌, Bool, true, false, ◌&&◌, ◌||◌, not,
  none, some, ℤ, lookup, lookup-delete, delete, ◌==◌, List, [], ◌∷◌, ◌++◌, arith, Bool-cases,
  Option-cases, inl, inr, All, nat_eq,
}
use goread.Database.{Db, Article}
use goread.Database.Articles.{Statuses}
use goread.Datastore.Orphans.{day}
use goread.Database.Feeds.{is_subscribed}
use goread.Datastore.{Outcome, answered, failed, lost, partial, slots, delete_all}
use goread.Datastore.Orphans.{Keys, sort_out, second_keys, unsubscribed, article_ids_of}

-- The outcome is that of a whole call.
abbrev pub IsWhole : Outcome → Type 0
IsWhole (partial reported) = ⊥
IsWhole answered = Unit
IsWhole failed = Unit
IsWhole lost = Unit

abbrev pub has : ℤ × ℤ → Keys → Bool
has key [] = false
has key (other ∷ keys) = other == key || has key keys

pub has-append : (key : ℤ × ℤ) (xs ys : Keys) → has key (xs ++ ys) ≡ (has key xs || has key ys)
has-append key [] ys = refl
has-append key (x ∷ xs) ys = ground (arith, has-append key xs ys)

pub lookup-delete_all :
    (key : ℤ × ℤ) (keys : Keys) (m : Statuses)
    → has key keys ≡ false
    → lookup key (delete_all keys m) ≡ lookup key m
lookup-delete_all key [] m h = refl
lookup-delete_all key (k ∷ keys) m h =
    lookup-delete_all key keys (delete k m) (ground arith) ∙ lookup-delete k key m ∙ ground arith

-- The pending marks with a key are looked up by the subscription of a feed.
abbrev pub IsAligned : ℤ × ℤ → ℤ × ℤ → List ((ℤ × ℤ) × (ℤ × ℤ)) → Type 0
IsAligned key subscription pending =
    All (λ (p : (ℤ × ℤ) × (ℤ × ℤ)). p.0 ≡ key → p.1 ≡ subscription) pending

module _ (now days : ℕ) (user id : ℤ) (db : Db) (article : Article)
    (stored : lookup id db.articles ≡ some article)
    (subscribed : is_subscribed db.user_feeds user article.feed_id ≡ true) where
  pub gone-has :
      (keys : Keys)
      → has (user, id) (sort_out now days keys (slots db.articles [] (article_ids_of keys))).0
        ≡ false
  unfolding sort_out slots
  gone-has [] = refl
  gone-has ((u, a) ∷ keys) = elim (Option-cases (lookup a db.articles)) [
    | inl absent ↦
        rw (absent, sort_out) (ground (arith, pair_Eq.beq_iff (u, a) (user, id), gone-has keys))
    | inr (found_article, present) ↦ rw (present, sort_out) (ground (arith, gone-has keys))
  ]

  pub sort_out-IsAligned :
      (keys : Keys)
      → IsAligned
          (user, id)
          (user, article.feed_id)
          (sort_out now days keys (slots db.articles [] (article_ids_of keys))).1
  unfolding sort_out slots
  sort_out-IsAligned [] = tt
  sort_out-IsAligned ((u, a) ∷ keys) = elim (Option-cases (lookup a db.articles)) [
    | inl absent ↦ rw (absent, sort_out) (sort_out-IsAligned keys)
    | inr (there, present) ↦
        rw (present, sort_out)
          (elim (Bool-cases (not (nat_eq days 0) && ltb now (there.created_at + days * day))) [
            | inl recent ↦ rw recent (sort_out-IsAligned keys)
            | inr old ↦ rw old (
              λ same.
                  let user_same : u ≡ user = ap (λ (k : ℤ × ℤ). k.0) same in
                  let id_same : lookup a db.articles ≡ lookup id db.articles =
                    ap (λ (k : ℤ × ℤ). lookup k.1 db.articles) same in
                  let feed_same : there.feed_id ≡ article.feed_id = cc (present, stored, id_same) in
                  cc (user_same, feed_same),
              sort_out-IsAligned keys,
            )
          ])
  ]

  none-ne-subscribed :
      (subscription : ℤ × ℤ)
      → lookup subscription db.user_feeds ≡ none
      → subscription ≡ (user, article.feed_id)
      → ⊥
  none-ne-subscribed subscription absent same =
      let missing_one : lookup (user, article.feed_id) db.user_feeds ≡ none =
        sym (ap (λ (k : ℤ × ℤ). lookup k db.user_feeds) same) ∙ absent in
      ground (arith, missing_one, subscribed)

  pub unsubscribed-has :
      (pending : List ((ℤ × ℤ) × (ℤ × ℤ)))
      → IsAligned (user, id) (user, article.feed_id) pending
      → has (user, id) (unsubscribed pending (slots db.user_feeds [] (second_keys pending))) ≡ false
  unfolding unsubscribed slots
  unsubscribed-has [] aligned = refl
  unsubscribed-has ((key, subscription) ∷ pending) aligned =
      elim (Option-cases (lookup subscription db.user_feeds)) [
        | inl absent ↦ elim (Bool-cases (key == (user, id))) [
          | inl here ↦
              let same = aligned.0 ((pair_Eq.beq_iff key (user, id)).0 here) in
              absurd (none-ne-subscribed subscription absent same)
          | inr other ↦
              rw (absent, unsubscribed) (ground (arith, other, unsubscribed-has pending aligned.1))
        ]
        | inr (one, present) ↦ rw (present, unsubscribed) (unsubscribed-has pending aligned.1)
      ]

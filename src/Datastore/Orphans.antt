-- ===== src/Datastore/Orphans.antt =====
-- internal/database/datastore.go: CleanupOrphanedUserArticles, in pages of 500 marks. Nothing else writes
-- during a run, so the pages are those of the marks at its start.
pub mod Kept
pub mod Batch
pub mod Safe
pub mod Reported
use goread.Base.{
  int_Eq, pair_Eq, ℕ, suc, ◌+◌, ◌*◌, Bool, true, false, ◌&&◌, not, Option, none, some, ℤ, Map,
  lookup, if◌then◌else◌, ◌==◌, List, [], ◌∷◌, ◌++◌, length, chunks, ltb, nat_eq,
}
use goread.Database.{Db, Article, DbError, Result, ok, err}
use goread.Database.Articles.{Statuses}
use goread.Datastore.{
  Store, Ds, ◌>>=◌, ◌>>◌, pure, call, write_entities, get_multi, slots, Slot, found, missing,
  broken, delete_all,
}

abbrev pub day : ℕ
day = 86400000000000

abbrev pub Keys : Type 0
Keys = List (ℤ × ℤ)

abbrev pub article_ids_of : Keys → List ℤ
article_ids_of [] = []
article_ids_of ((_, article_id) ∷ keys) = article_id ∷ article_ids_of keys

-- The marks that go since their article is missing or cannot be read, and the others that are old enough,
-- with the key of the subscription to look for.
unfoldable pub sort_out : ℕ → ℕ → Keys → List (Slot Article) → Keys × List ((ℤ × ℤ) × (ℤ × ℤ))
sort_out now older_than_days [] answers = ([], [])
sort_out now older_than_days (key ∷ keys) [] = ([], [])
sort_out now older_than_days (key ∷ keys) (answer ∷ answers) =
    let (gone, pending) = sort_out now older_than_days keys answers in
    elim answer [
      | missing ↦ (key ∷ gone, pending)
      | broken ↦ (key ∷ gone, pending)
      | found article ↦
          if not (nat_eq older_than_days 0) && ltb now (article.created_at + older_than_days * day)
          then (gone, pending)
          else (gone, (key, (key.0, article.feed_id)) ∷ pending)
    ]

abbrev pub second_keys : List ((ℤ × ℤ) × (ℤ × ℤ)) → Keys
second_keys [] = []
second_keys ((_, subscription) ∷ pending) = subscription ∷ second_keys pending

-- The pending marks whose subscription is missing; a subscription that cannot be read keeps its mark.
unfoldable pub unsubscribed : List ((ℤ × ℤ) × (ℤ × ℤ)) → List (Slot (Unit {0})) → Keys
unsubscribed [] answers = []
unsubscribed (p ∷ pending) [] = []
unsubscribed (p ∷ pending) (found _ ∷ answers) = unsubscribed pending answers
unsubscribed (p ∷ pending) (missing ∷ answers) = p.0 ∷ unsubscribed pending answers
unsubscribed (p ∷ pending) (broken ∷ answers) = unsubscribed pending answers

unfoldable pub check_subscriptions : List ((ℤ × ℤ) × (ℤ × ℤ)) → Ds Keys
unfolding slots unsubscribed
check_subscriptions [] = pure []
check_subscriptions (p ∷ pending) = do
  answers ← get_multi (λ db. db.user_feeds) (second_keys (p ∷ pending))
  pure (unsubscribed (p ∷ pending) answers)

abbrev pub delete_marks : Keys → Ds ℕ
delete_marks [] = pure 0
delete_marks (key ∷ keys) = do
  write_entities (λ db. record db { user_articles = delete_all (key ∷ keys) db.user_articles })
  pure (length (key ∷ keys))

-- The result is the number of marks deleted.
unfoldable pub delete_orphaned_user_articles_batch : ℕ → ℕ → Keys → Ds ℕ
unfolding slots check_subscriptions sort_out
delete_orphaned_user_articles_batch now older_than_days [] = pure 0
delete_orphaned_user_articles_batch now older_than_days (key ∷ keys) = do
  answers ← get_multi (λ db. db.articles) (article_ids_of (key ∷ keys))
  let sorted = sort_out now older_than_days (key ∷ keys) answers
  orphans ← check_subscriptions sorted.1
  delete_marks (sorted.0 ++ orphans)

-- The query of one page.
abbrev pub query_page : Keys → Ds Keys
query_page keys = call (λ db. (db, ok keys))

-- The call of `it.Cursor`, whose error ends the run with no error.
abbrev pub next_page : Ds (Unit {0})
next_page = call (λ db. (db, ok tt))

-- The loop over the pages, with the number of marks deleted so far. The last page is shorter than 500 or
-- has no marks. The result is the number of marks deleted, also beside an error.
unfoldable pub cleanup_pages : ℕ → ℕ → List Keys → ℕ → Store → Store × ℕ × Option DbError
unfolding delete_orphaned_user_articles_batch
cleanup_pages now older_than_days [] deleted s = elim (query_page [] s).1 [
  | err e ↦ ((query_page [] s).0, deleted, some e)
  | ok _ ↦ ((query_page [] s).0, deleted, none)
]
cleanup_pages now older_than_days (keys ∷ pages) deleted s = elim (query_page keys s).1 [
  | err e ↦ ((query_page keys s).0, deleted, some e)
  | ok _ ↦
      let batch =
        delete_orphaned_user_articles_batch now older_than_days keys (query_page keys s).0 in
      elim batch.1 [
        | err e ↦ (batch.0, deleted, some e)
        | ok n ↦ elim (nat_eq (length keys) 500) [
          | false ↦ (batch.0, deleted + n, none)
          | true ↦ elim (next_page batch.0).1 [
            | err _ ↦ ((next_page batch.0).0, deleted + n, none)
            | ok _ ↦ cleanup_pages now older_than_days pages (deleted + n) (next_page batch.0).0
          ]
        ]
      ]
]

abbrev pub keys_in : Statuses → Keys
keys_in [] = []
keys_in ((key, _) ∷ m) = key ∷ keys_in m

unfoldable pub cleanup_orphaned_user_articles : ℕ → ℕ → Store → Store × ℕ × Option DbError
unfolding cleanup_pages
cleanup_orphaned_user_articles now older_than_days s =
    cleanup_pages now older_than_days (chunks 499 (keys_in s.db.user_articles)) 0 s

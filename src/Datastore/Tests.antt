-- ===== src/Datastore/Tests.antt =====
-- A small store, runs of the methods of `DatastoreDB` on it, and the theorems at it.
use goread.Base.{
  int_Eq, pair_Eq, string_Eq, ◌≡◌, refl, true, false, some, none, List, [], ◌∷◌, ℤ, pos, Map,
  lookup, insert, ◌≤ℤ◌, length, select,
}
use goread.Database.{Db, ok}
use goread.Database.Tests.{feed_7, day, article_1, article_2, small_db}
use goread.Database.Feeds.{rows}
use goread.Database.Articles.{unread_in, is_read_by}
use goread.Database.Articles
use goread.Database.Feeds
use goread.Database.Users
use goread.Datastore.{micro, Store, failed, lost, partial, answered}
use goread.Datastore.Agreement.{Agrees}
use goread.Datastore.Agreement.Marks.{marks-Agree}
use goread.Datastore.Agreement.Accounts.{refresh-Agrees}
use goread.Datastore.Feeds.{unless_zero, add_feed}
use goread.Datastore.Feeds as Kinds
use goread.Datastore.Users as Entities
use goread.Datastore.Marks
use goread.Datastore.Subscriptions
use goread.Datastore.Subscriptions.{get_user_feeds_with_retry}
use goread.Datastore.Subscriptions.Retry.{first_answer, retry-eq-first}
use goread.Datastore.Counts.{get_user_unread_counts, recent_ids, published_since}
use goread.Datastore.Counts.Down.{count_in}
use goread.Datastore.Counts.Seeds.{script}
use goread.Datastore.Counts.Bounds.{counts_bounds, counts-eq-unread}
use goread.Datastore.Orphans.{cleanup_orphaned_user_articles, delete_orphaned_user_articles_batch}
use goread.Datastore.Orphans.Safe.{cleanup-keeps}
use goread.Datastore.Orphans.Reported.{broken-deleted}
use goread.Datastore.Pages.{Ref, comes_after, remaining, sort_refs}
use goread.Datastore.Pages.Restart.{or_all, remaining-eq-select}

-- User 5 reads feed 7, which has two articles, and has starred the first.
abbrev stored_db : Db
stored_db = record small_db { feeds = (pos 7, feed_7) ∷ []; next_feed = 8 }

-- A failed read of the mark loses the star, and the method reports no error.
lost_star :
    (Marks.mark_user_article_read
      (pos 5)
      (pos 1)
      true
      (script (failed ∷ []) stored_db)).0.db.user_articles
    ≡ ((pos 5, pos 1), record { is_read = true; is_starred = false }) ∷ []
unfolding Marks.mark_user_article_read insert
lost_star = refl

-- Two feeds with one URL are stored.
same_url_twice : length (add_feed feed_7 (script [] stored_db)).0.db.feeds ≡ 2
unfolding add_feed insert
same_url_twice = refl

marks-Agree_example :
    Agrees
      (Marks.mark_user_article_read (pos 5) (pos 1) true)
      (Articles.mark_user_article_read (pos 5) (pos 1) true)
      stored_db
    × Agrees
        (Marks.toggle_user_article_star (pos 5) (pos 1))
        (Articles.toggle_user_article_star (pos 5) (pos 1))
        stored_db
    × Agrees
        (Marks.set_user_article_status (pos 5) (pos 1) true false)
        (Articles.set_user_article_status (pos 5) (pos 1) true false)
        stored_db
    × Agrees
        (Marks.batch_set_user_article_status (pos 5) (article_1 ∷ article_2 ∷ []) true false)
        (Articles.batch_set_user_article_status (pos 5) (article_1 ∷ article_2 ∷ []) true false)
        stored_db
    × Agrees
        (Subscriptions.subscribe_user_to_feed (pos 5) (pos 1))
        (Feeds.subscribe_user_to_feed (pos 5) (pos 1))
        stored_db
    × Agrees
        (Subscriptions.unsubscribe_user_from_feed (pos 5) (pos 1))
        (Feeds.unsubscribe_user_from_feed (pos 5) (pos 1))
        stored_db
marks-Agree_example =
    marks-Agree stored_db (pos 5) (pos 1) (article_1 ∷ article_2 ∷ []) true false refl

refresh-Agrees_example :
    Agrees
      (Kinds.update_feed_after_refresh (pos 7) 1009 0 (pos 3) 1009 "e" "m")
      (Feeds.update_feed_after_refresh
        (pos 7)
        (micro 1009)
        (unless_zero 0 feed_7.last_had_new_content)
        (pos 3)
        (micro 1009)
        "e"
        "m")
      stored_db
    × Agrees
        (Kinds.update_feed_tracking (pos 7) 1009 0 (pos 3))
        (Feeds.update_feed_tracking
          (pos 7)
          (micro 1009)
          (unless_zero 0 feed_7.last_had_new_content)
          (pos 3))
        stored_db
refresh-Agrees_example =
    refresh-Agrees stored_db feed_7 (pos 7) (pos 3) 1009 0 1009 "e" "m" refl (unfold lookup in refl)

retry-eq-first_example :
    get_user_feeds_with_retry (pos 5) 3 (script (failed ∷ lost ∷ []) stored_db)
    ≡ first_answer 3 (pos 5) (script (failed ∷ lost ∷ []) stored_db)
retry-eq-first_example = retry-eq-first 3 (pos 5) (script (failed ∷ lost ∷ []) stored_db)

feeds_read :
    get_user_feeds_with_retry (pos 5) 3 (script [] stored_db)
    ≡ (script [] stored_db, ok (feed_7 ∷ []))
unfolding get_user_feeds_with_retry Subscriptions.get_user_feeds lookup
feeds_read = refl

counts-eq-unread_example :
    (counts : Map ℤ ℤ) × (get_user_unread_counts day (pos 5) (script [] stored_db)
      ≡ (script [] stored_db, ok counts))
    × (count_in (pos 7) counts
        ≡ pos (
            unread_in stored_db.user_articles
              (published_since (micro day))
              (pos 5)
              (pos 7)
              (rows stored_db.articles)))
counts-eq-unread_example =
    counts-eq-unread day (pos 5) (pos 7) (feed_7 ∷ []) stored_db feeds_read (tt, tt) refl
      (refl, (refl, tt))

-- The user has read the first article, and the batch read of the marks fails.
abbrev read_db : Db
read_db = record stored_db {
  user_articles = ((pos 5, pos 1), record { is_read = true; is_starred = true }) ∷ [];
}

abbrev faulty : Store
faulty = script (failed ∷ answered ∷ answered ∷ answered ∷ failed ∷ []) read_db

feeds_read_late :
    get_user_feeds_with_retry (pos 5) 3 faulty
    ≡ (script (answered ∷ failed ∷ []) read_db, ok (feed_7 ∷ []))
unfolding get_user_feeds_with_retry Subscriptions.get_user_feeds lookup
feeds_read_late = refl

faulty_counts : (get_user_unread_counts day (pos 5) faulty).1 ≡ ok ((pos 7, pos 2) ∷ [])
unfolding get_user_unread_counts get_user_feeds_with_retry Subscriptions.get_user_feeds lookup
    insert micro
faulty_counts = refl

counts_bounds_example :
    (pos (
        unread_in read_db.user_articles
          (published_since (micro day))
          (pos 5)
          (pos 7)
          (rows read_db.articles))
      ≤ℤ count_in (pos 7) ((pos 7, pos 2) ∷ []))
    × (count_in (pos 7) ((pos 7, pos 2) ∷ [])
        ≤ℤ pos (length (recent_ids (pos 7) day read_db.articles)))
counts_bounds_example =
    counts_bounds day (pos 5) (pos 7) (feed_7 ∷ []) faulty (script (answered ∷ failed ∷ []) read_db)
      ((pos 7, pos 2) ∷ []) feeds_read_late (tt, tt) refl (refl, (refl, tt)) faulty_counts

abbrev cleaned : Store
cleaned = (cleanup_orphaned_user_articles day 0 (script (answered ∷ lost ∷ []) stored_db)).0

cleanup-keeps_example :
    (lookup (pos 5, pos 1) cleaned.db.user_articles ≡ lookup (pos 5, pos 1) stored_db.user_articles)
    × (cleaned.db.articles ≡ stored_db.articles)
    × (cleaned.db.user_feeds ≡ stored_db.user_feeds)
cleanup-keeps_example =
    cleanup-keeps day 0 (pos 5) (pos 1) article_1 (script (answered ∷ lost ∷ []) stored_db)
      (unfold lookup in refl) (unfold lookup in refl) (tt, (tt, tt))

broken-deleted_example :
    lookup
      (pos 5, pos 1)
      (delete_orphaned_user_articles_batch day 0
        ((pos 5, pos 1) ∷ [])
        (record { calls = partial (false ∷ []) ∷ []; db = stored_db })).0.db.user_articles
    ≡ none
broken-deleted_example = broken-deleted day 0 (pos 5, pos 1) [] [] stored_db

abbrev two_refs : List Ref
two_refs = record { id = pos 1; published_at = 5 } ∷ record { id = pos 2; published_at = 9 } ∷ []

remaining-eq-select_example :
    remaining (some (record { published_at = 5; id = pos 1 })) (sort_refs two_refs)
    ≡ or_all
        (select (comes_after (record { published_at = 5; id = pos 1 })) (sort_refs two_refs))
        (sort_refs two_refs)
remaining-eq-select_example = remaining-eq-select (record { published_at = 5; id = pos 1 }) two_refs

-- ===== src/Datastore/Agreement/Accounts.antt =====
-- internal/database/datastore.go and schema.go: changes of one user or of one feed in the two stores. The
-- Datastore reads the entity first and reports one that is missing.
use goread.Base.{int_Eq, ℕ, ◌≡◌, Bool, true, String, some, ℤ, lookup, if◌then◌else◌, arith, is_some}
use goread.Database.{Db, Feed, no_rows, err, Exec}
use goread.Database.Users
use goread.Database.Feeds
use goread.Database.Feeds.{update_feed_row}
use goread.Datastore.{Ds, micro}
use goread.Datastore.Agreement.{Agrees, answering}
use goread.Datastore.Users as Entities
use goread.Datastore.Feeds as Kinds
use goread.Datastore.Feeds.{unless_zero}

-- The method does on the entities what the statement does on the tables, and reports a missing entity,
-- for which the statement reports no error.
abbrev pub AgreesIfStored : Bool → Ds (Unit {0}) → Exec (Unit {0}) → Db → Type 0
AgreesIfStored stored d q db =
    d (answering db) ≡ (answering (q db).0, if stored then (q db).1 else err no_rows)

change_feed-Agrees :
    (db : Db) (feed_id : ℤ) (f : Feed → Feed)
    → db.up ≡ true
    → AgreesIfStored
        (is_some (lookup feed_id db.feeds))
        (Kinds.change_feed feed_id f)
        (update_feed_row feed_id f)
        db
unfolding Kinds.change_feed update_feed_row
change_feed-Agrees db feed_id f up = ground arith

-- For a stored feed, while all calls and the driver answer, the update after a refresh does in the
-- Datastore what it does in SQLite with times cut to the microsecond, except that the zero time leaves
-- the last new content as it was; the update of the tracking does so too.
pub refresh-Agrees :
    (db : Db) (feed : Feed) (feed_id average : ℤ) (checked new_content fetched : ℕ)
    (etag last_modified : String)
    → db.up ≡ true
    → lookup feed_id db.feeds ≡ some feed
    → Agrees
        (Kinds.update_feed_after_refresh feed_id checked new_content average fetched etag
          last_modified)
        (Feeds.update_feed_after_refresh feed_id
          (micro checked)
          (unless_zero new_content feed.last_had_new_content)
          average
          (micro fetched)
          etag
          last_modified)
        db
      × Agrees
          (Kinds.update_feed_tracking feed_id checked new_content average)
          (Feeds.update_feed_tracking feed_id
            (micro checked)
            (unless_zero new_content feed.last_had_new_content)
            average)
          db
unfolding Kinds.update_feed_after_refresh Feeds.update_feed_after_refresh Kinds.update_feed_tracking
    Feeds.update_feed_tracking Kinds.change_feed update_feed_row
refresh-Agrees db feed feed_id average checked new_content fetched etag last_modified up stored =
    (ground (arith, stored), ground (arith, stored))

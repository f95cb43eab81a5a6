-- ===== src/Database/Orphans/Tests.antt =====
-- A user who left a feed.
use goread.Base.{int_Eq, pair_Eq, ◌≡◌, refl, true, [], pos, lookup}
use goread.Database.{Db}
use goread.Database.Tests.{small_db}
use goread.Database.Orphans.{cleanup_orphaned_user_articles, Older, is_orphan, without}

abbrev after_leaving : Db
after_leaving = record small_db { user_feeds = [] }

abbrev all_older : Older
all_older days article = true

mark_removed : (cleanup_orphaned_user_articles all_older (pos 7) after_leaving).0.user_articles ≡ []
unfolding cleanup_orphaned_user_articles is_orphan without lookup
mark_removed = refl

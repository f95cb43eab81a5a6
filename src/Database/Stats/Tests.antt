-- ===== src/Database/Stats/Tests.antt =====
-- The statistics of a user with a feed of two articles.
use goread.Base.{int_Eq, pair_Eq, string_Eq, ◌≡◌, refl, [], ◌∷◌, ℤ, pos, Map, lookup}
use goread.Database.{Db, ok}
use goread.Database.Tests.{day, feed_7, small_db}
use goread.Database.Articles.{get_user_unread_counts, is_read_by}
use goread.Database.Pages.{joined}
use goread.Database.Stats.{Stats, get_account_stats, total_of}
use goread.Database.Stats.Sums.{stats-eq-counts}

abbrev feed_db : Db
feed_db = record small_db { feeds = (pos 7, feed_7) ∷ [] }

two_of_feed_7 :
    get_account_stats day (pos 5) feed_db
    ≡ ok (record { total_articles = 2; total_unread = pos 2; active_feeds = 1 })
unfolding get_account_stats lookup joined is_read_by
two_of_feed_7 = refl

stats-eq-counts_example :
    (counts : Map ℤ ℤ) × (stats : Stats) × (get_user_unread_counts day (pos 5) feed_db ≡ ok counts)
    × (get_account_stats day (pos 5) feed_db ≡ ok stats)
    × (stats.total_unread ≡ total_of counts)
stats-eq-counts_example = stats-eq-counts feed_db day (pos 5) refl (tt, tt) (refl, tt)

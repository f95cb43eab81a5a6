-- ===== src/Cache/FeedList/Tests.antt =====
-- Runs of the feed list cache, and the theorem about it at a concrete input.
use goread.Base.{arith, ◌≡◌, refl, some, List, [], ◌∷◌, pos}
use goread.Database.{Feed}
use goread.Cache.FeedList.{
  Op, set_op, cleanup_op, new_feed_list_cache, get, set, run, cleanup, step, get_stats,
}
use goread.Cache.FeedList.Answers.{stored, get-exact}

abbrev feed : Feed
feed = record {
  id = pos 7;
  title = "A";
  url = "https://a.example/rss";
  description = "";
  created_at = 0;
  updated_at = 0;
  last_fetch = 0;
  last_checked = 0;
  last_had_new_content = 0;
  average_update_interval = pos 0;
  etag = "";
  last_modified = "";
}

-- The second list is over the limit of one feed, and the first one stays.
abbrev calls : List Op
calls = set_op 10 (feed ∷ []) ∷ set_op 20 (feed ∷ feed ∷ []) ∷ cleanup_op 25 ∷ []

stats_now :
    (get_stats (run (record (new_feed_list_cache 20) { max_feeds = pos 1 }) calls) 29).cached_feeds
    ≡ 1
unfolding get_stats run step set cleanup new_feed_list_cache
stats_now = refl

get-exact_example :
    (get (run (record (new_feed_list_cache 20) { max_feeds = pos 1 }) calls) 30).1
    ≡ some (feed ∷ [])
unfolding stored
get-exact_example = get-exact 20 (pos 1) calls 0 30 (omega arith)

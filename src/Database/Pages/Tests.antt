-- ===== src/Database/Pages/Tests.antt =====
-- The pages of a small store.
use mathlib.Core.List.{Perm}
use goread.Base.{
  int_Eq, pair_Eq, string_Eq, ◌≡◌, refl, true, false, none, some, [], ◌∷◌, pos, lookup, arith,
  select,
}
use goread.Database.{Db, Feed}
use goread.Database.Feeds.{rows}
use goread.Database.Articles.{is_read_by}
use goread.Database.Tests.{small_db, article_2}
use goread.Database.Pages.{
  Row, is_wanted, joined, listed, walk, page_of, cut, sort_rows, insert_row, cursor_of,
}
use goread.Database.Pages.Order.{IsDescending}
use goread.Database.Pages.Walk.{walk-perm}

abbrev feed_7 : Feed
feed_7 = record {
  id = pos 7;
  title = "Seven";
  url = "https://a.example/feed";
  description = "";
  created_at = 1;
  updated_at = 1;
  last_fetch = 1;
  last_checked = 1;
  last_had_new_content = 0;
  average_update_interval = pos 0;
  etag = "";
  last_modified = "";
}

abbrev db : Db
db = record small_db { feeds = (pos 7, feed_7) ∷ [] }

abbrev row_2 : Row
row_2 = record {
  article = article_2;
  text = 86400000000000;
  feed_title = "Seven";
  is_read = false;
  is_starred = false;
}

-- The first page of one row, with a cursor at it.
first_page :
    page_of (λ t. t) 1 none (listed db (pos 5) (pos 0) false)
    ≡ some (record { articles = row_2 ∷ []; next_cursor = some (cursor_of row_2) })
unfolding page_of cut listed sort_rows insert_row joined lookup is_read_by
first_page = refl

zero_limit_panics : page_of (λ t. t) 0 none (listed db (pos 5) (pos 0) false) ≡ none
unfolding page_of cut listed sort_rows insert_row joined lookup is_read_by
zero_limit_panics = refl

walk-perm_example :
    let seen = walk (λ t. t) 3 1 none (listed db (pos 5) (pos 0) true) in
    Perm seen (select (is_wanted (pos 0) true) (joined db (pos 5) (rows db.articles)))
    × IsDescending seen
walk-perm_example =
    walk-perm db (pos 5) (pos 0) true 1 3 (((λ e. ground arith), tt), (tt, tt)) (refl, (refl, tt))
      (omega arith) (unfold joined lookup is_read_by in omega arith)

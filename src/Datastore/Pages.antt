-- ===== src/Datastore/Pages.antt =====
-- internal/database/datastore.go: the pages of a user's articles. References of the newest articles of
-- each feed are put in order, then the page is cut, then its articles are read.
pub mod Restart
use goread.Base.{
  int_Eq, pair_Eq, ℕ, zero, suc, ◌*◌, min, Bool, true, false, ◌&&◌, ◌||◌, not, String, Option, none,
  some, ℤ, pos, Map, lookup, if◌then◌else◌, ◌==◌, List, [], ◌∷◌, ◌++◌, take, drop, length, select,
  ltb, nat_eq, ltb_ℤ, get_or, get_elem?,
}
use goread.Database.{Db, Feed, Article, UserArticle, DbError, Result, ok, err}
use goread.Database.Articles.{articles_by_date, row_read}
use goread.Database.Feeds.{rows}
use goread.Database.Stars.{row_starred}
use goread.Database.Pages.{Row, Cursor, Page}
use goread.Datastore.{
  Store, Ds, ◌>>=◌, ◌>>◌, pure, fail, attempt, query_entities, get_multi, slots, Slot, found,
  missing, broken,
}
use goread.Datastore.Marks.{slot_mark, without_content, keys_of}
use goread.Datastore.Subscriptions.{get_user_feeds}

-- `articleRef`; the feed is not needed after the query.
pub record Ref : Type 0 where
  pub id : ℤ
  pub published_at : ℕ

abbrev pub refs_of : List Article → List Ref
refs_of [] = []
refs_of (article ∷ articles) =
    record { id = article.id; published_at = article.published_at } ∷ refs_of articles

-- Whether the second comes after the first: an older article, or one of the same time with a lower id.
abbrev pub comes_after : Cursor → Ref → Bool
comes_after c ref =
    ltb ref.published_at c.published_at
    || (nat_eq ref.published_at c.published_at && ltb_ℤ ref.id c.id)

abbrev pub cursor_at : Ref → Cursor
cursor_at ref = record { published_at = ref.published_at; id = ref.id }

-- `sort.Slice`, whose result does not depend on how it sorts where the ids differ.
unfoldable pub insert_ref : Ref → List Ref → List Ref
insert_ref a [] = a ∷ []
insert_ref a (b ∷ l) = if comes_after (cursor_at a) b then a ∷ b ∷ l else b ∷ insert_ref a l

unfoldable pub sort_refs : List Ref → List Ref
unfolding insert_ref
sort_refs [] = []
sort_refs (a ∷ l) = insert_ref a (sort_refs l)

abbrev pub articles_per_feed : ℕ → ℕ
articles_per_feed limit = min (limit * 2) 200

-- A feed whose query fails is left out of the page. The queries of up to five feeds run at the same time;
-- here they stand in the order of the feeds.
unfoldable pub collect_refs : ℕ → List Feed → Ds (List Ref)
collect_refs per_feed [] = pure []
collect_refs per_feed (feed ∷ feeds) = do
  refs ←
      attempt (
        query_entities
          (λ db. refs_of (take per_feed (articles_by_date feed.id (rows db.articles)))))
  rest ← collect_refs per_feed feeds
  pure (get_or refs [] ++ rest)

unfoldable pub find_start : Cursor → List Ref → Option (List Ref)
find_start c [] = none
find_start c (ref ∷ refs) = if comes_after c ref then some (ref ∷ refs) else find_start c refs

-- `startIdx` is 0 unless a reference comes after the cursor.
unfoldable pub remaining : Option Cursor → List Ref → List Ref
unfolding find_start
remaining none refs = refs
remaining (some c) refs = get_or (find_start c refs) refs

abbrev pub candidate_count : ℕ → Bool → ℕ
candidate_count limit unread_only = if unread_only then articles_per_feed limit else limit

abbrev ref_ids : List Ref → List ℤ
ref_ids [] = []
ref_ids (ref ∷ refs) = ref.id ∷ ref_ids refs

-- `statusMap`, as the candidates with their marks; after a failure there are none.
unfoldable pub with_marks : List Ref → List (Slot UserArticle) → List (Ref × Option UserArticle)
with_marks [] answers = []
with_marks (ref ∷ refs) [] = (ref, none) ∷ with_marks refs []
with_marks (ref ∷ refs) (answer ∷ answers) = (ref, slot_mark answer) ∷ with_marks refs answers

abbrev read_marks : ℤ → List Ref → Ds (Option (List (Slot UserArticle)))
unfolding slots
read_marks user_id [] = pure none
read_marks user_id (ref ∷ refs) =
    attempt (get_multi (λ db. db.user_articles) (keys_of user_id (ref_ids (ref ∷ refs))))

-- The loop that fills the page.
abbrev page_refs : ℕ → Bool → List (Ref × Option UserArticle) → List (Ref × Option UserArticle)
page_refs limit unread_only candidates =
    take limit (select (λ c. not (unread_only && row_read c.1)) candidates)

abbrev last {ℓ} : {A : Type ℓ} → List A → Option A
last [] = none
last (x ∷ []) = some x
last (x ∷ y ∷ xs) = last (y ∷ xs)

-- `none` is the panic of `pageRefs[len(pageRefs)-1]` where the limit is 0 and there are references.
abbrev next_cursor_of : ℕ → ℕ → List Ref → List (Ref × Option UserArticle) → Option (Option Cursor)
next_cursor_of limit candidates remaining page =
    if nat_eq (length page) limit
      && (ltb (length page) candidates || ltb candidates (length remaining))
    then elim (last page) [ none ↦ none | some r ↦ some (some (cursor_at r.0)) ]
    else some none

unfoldable pub title_of : ℤ → List Feed → String
title_of feed_id [] = ""
title_of feed_id (feed ∷ feeds) = if feed.id == feed_id then feed.title else title_of feed_id feeds

-- The articles of the page with their marks; one that is gone or cannot be read is left out.
-- `text` is of use in SQLite only.
unfoldable pub page_rows :
    List Feed → List (Ref × Option UserArticle) → List (Slot Article) → List Row
unfolding title_of
page_rows feeds [] answers = []
page_rows feeds (r ∷ refs) [] = []
page_rows feeds ((ref, mark) ∷ refs) (found article ∷ answers) =
    record {
      article = record (without_content article) { id = ref.id };
      text = article.published_at;
      feed_title = title_of article.feed_id feeds;
      is_read = row_read mark;
      is_starred = row_starred mark;
    }
    ∷ page_rows feeds refs answers
page_rows feeds (r ∷ refs) (missing ∷ answers) = page_rows feeds refs answers
page_rows feeds (r ∷ refs) (broken ∷ answers) = page_rows feeds refs answers

abbrev page_ids : List (Ref × Option UserArticle) → List ℤ
page_ids [] = []
page_ids (r ∷ refs) = r.0.id ∷ page_ids refs

abbrev fetch_page : List Feed → Option Cursor → List (Ref × Option UserArticle) → Ds Page
unfolding page_rows slots
fetch_page feeds next [] = pure (record { articles = []; next_cursor = next })
fetch_page feeds next (r ∷ refs) = do
  answers ← get_multi (λ db. db.articles) (page_ids (r ∷ refs))
  pure (record { articles = page_rows feeds (r ∷ refs) answers; next_cursor = next })

abbrev finish_page :
    List Feed → List (Ref × Option UserArticle) → Option (Option Cursor) → Ds (Option Page)
unfolding page_rows slots
finish_page feeds refs none = pure none
finish_page feeds refs (some next) = do page ← fetch_page feeds next refs; pure (some page)

-- From the references in order to the page.
unfoldable pub cut_page : ℤ → ℕ → Bool → List Feed → List Ref → Ds (Option Page)
unfolding page_rows slots with_marks
cut_page user_id limit unread_only feeds rest = do
  let candidates = take (candidate_count limit unread_only) rest
  answers ← read_marks user_id candidates
  let page = page_refs limit unread_only (with_marks candidates (get_or answers []))
  finish_page feeds page (next_cursor_of limit (length candidates) rest page)

abbrev empty_page : Page
empty_page = record { articles = []; next_cursor = none }

abbrev page_of_feeds : ℤ → ℕ → Option Cursor → Bool → List Feed → Ds (Option Page)
unfolding collect_refs cut_page sort_refs remaining
page_of_feeds user_id limit cursor unread_only [] = pure (some empty_page)
page_of_feeds user_id limit cursor unread_only (feed ∷ feeds) = do
  refs ← collect_refs (articles_per_feed limit) (feed ∷ feeds)
  cut_page user_id limit unread_only (feed ∷ feeds) (remaining cursor (sort_refs refs))

-- The feed 0 stands for all feeds of the user.
unfoldable pub only_feed : ℤ → List Feed → List Feed
only_feed feed_id feeds =
    if feed_id == pos 0 then feeds else take 1 (select (λ feed. feed.id == feed_id) feeds)

-- `GetUserArticlesPaginated` is this with the feed 0. The cursor is decoded.
unfoldable pub get_user_articles_paginated : ℤ → ℤ → ℕ → Option Cursor → Bool → Ds (Option Page)
unfolding collect_refs cut_page sort_refs remaining only_feed get_user_feeds
get_user_articles_paginated user_id feed_id limit cursor unread_only = do
  feeds ← get_user_feeds user_id
  page_of_feeds user_id limit cursor unread_only (only_feed feed_id feeds)

-- The first page, of 50.
unfoldable pub get_user_articles : ℤ → Ds (Option Page)
unfolding get_user_articles_paginated
get_user_articles user_id = get_user_articles_paginated user_id (pos 0) 50 none false

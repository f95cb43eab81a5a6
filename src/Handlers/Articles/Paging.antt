-- ===== src/Handlers/Articles/Paging.antt =====
-- internal/handlers/feed_handler.go with internal/database/schema.go: the listings always answer, with
-- pages of bounded length.
use goread.Base.{
  string_Eq, ℕ, zero, suc, ◌+◌, ◌≤◌, ◌≡◌, refl, Bool, true, false, String, Option, none, some, List,
  [], ◌∷◌, ℤ, if◌then◌else◌, ◌==◌, length, take, get_elem?, arith, Option-cases, Bool-cases, inl,
  inr, if_true, pos,
}
use goread.Database.{Db, User, ok, err, unavailable}
use goread.Database.Pages.{
  Row, Cursor, Page, cut, page_of, from_cursor, listed, cursor_of, get_user_articles_paginated,
}
use goread.Handlers.Server.{page_body, Body, Reply, refusal, Server, Atoi}
use goread.Handlers.Articles.{
  Query, parse_limit, parse_unread_only, start_at, get_articles_of, get_articles,
}

parse_limit-bounds :
    (atoi : Atoi) (text : String) → (1 ≤ parse_limit atoi text) × (parse_limit atoi text ≤ 100)
unfolding parse_limit
parse_limit-bounds atoi text = elim (Option-cases (atoi text)) [
  | inl bad ↦ rw (bad, parse_limit) (omega arith, omega arith)
  | inr (ℤ.pos n, good) ↦ rw (good, parse_limit) (ground arith, ground arith)
  | inr (ℤ.negsuc n, good) ↦ rw (good, parse_limit) (omega arith, omega arith)
]

length-take : {A : Type 0} (n : ℕ) (l : List A) → length (take n l) ≤ n
length-take zero l = omega arith
length-take (suc n) [] = omega arith
length-take (suc n) (x ∷ l) = omega (arith, length-take n l)

length_of_none : {A : Type 0} (l : List A) (i : ℕ) → get_elem? l i ≡ none → length l ≤ i
length_of_none [] i h = omega arith
length_of_none (x ∷ l) zero h = cc
length_of_none (x ∷ l) (suc i) h = omega (arith, length_of_none l i h)

get_elem_below :
    {A : Type 0} (l : List A) (i : ℕ) (x : A)
    → get_elem? l (suc i) ≡ some x
    → (y : A) × (get_elem? l i ≡ some y)
get_elem_below [] i x h = cc
get_elem_below (y ∷ l) zero x h = (y, refl)
get_elem_below (y ∷ l) (suc i) x h = get_elem_below l i x h

-- With a positive limit there is a page, of no more rows than the limit.
cut_total :
    (n : ℕ) (found : List Row)
    → (page : Page) × (cut (suc n) found ≡ some page) × (length page.articles ≤ suc n)
unfolding cut
cut_total n [] = (record { articles = []; next_cursor = none }, refl, omega arith)
cut_total n (row ∷ found) = elim (Option-cases (get_elem? (row ∷ found) (suc n))) [
  | inl over ↦ (
    record { articles = row ∷ found; next_cursor = none },
    rw (over, cut),
    length_of_none (row ∷ found) (suc n) over,
  )
  | inr (after, more) ↦
      let (last, at) = get_elem_below (row ∷ found) n after more in
      (
        record { articles = take (suc n) (row ∷ found); next_cursor = some (cursor_of last) },
        rw (more, cut) (rw at),
        length-take (suc n) (row ∷ found),
      )
]

abbrev pub IsShort : Body → Type 0
IsShort (page_body page) = length page.articles ≤ 100
IsShort _ = Unit

pub record Answers (r : Option (Server × Reply)) (s : Server) : Type 0 where
  pub reply : Reply
  pub returned : r ≡ some (s, reply)
  pub short : IsShort reply.body

page_up :
    (user feed : ℤ) (limit : ℕ) (cursor : Option Cursor) (unread_only : Bool) (db : Db)
    → db.up ≡ true
    → get_user_articles_paginated user feed limit cursor unread_only db
      ≡ ok (page_of db.texts.bound limit cursor (listed db user feed unread_only))
unfolding get_user_articles_paginated
page_up user feed limit cursor unread_only db up = if_true db.up _ _ up

page_down :
    (user feed : ℤ) (limit : ℕ) (cursor : Option Cursor) (unread_only : Bool) (db : Db)
    → db.up ≡ false
    → get_user_articles_paginated user feed limit cursor unread_only db ≡ err unavailable
unfolding get_user_articles_paginated
page_down user feed limit cursor unread_only db down = rw down

get_articles_of-Answers :
    (decode : String → Option Cursor) (limit : ℕ) (q : Query) (feed : ℤ) (user : User) (s : Server)
    → 1 ≤ limit
    → limit ≤ 100
    → Answers (get_articles_of decode limit q feed user s) s
unfolding get_articles_of page_of
get_articles_of-Answers decode zero q feed user s low high = absurd (omega arith)
get_articles_of-Answers decode (suc n) q feed user s low high =
    elim (Option-cases (start_at decode q.cursor)) [
      | inl bad ↦ record { reply = refusal 500; returned = rw (bad, get_articles_of); short = tt }
      | inr (cursor, good) ↦ elim (Bool-cases s.service.db.up) [
        | inr down ↦ record {
          reply = refusal 500;
          returned =
              rw (good, get_articles_of)
                (rw (
                  page_down user.id feed (suc n) cursor (parse_unread_only q.unread_only)
                    s.service.db down));
          short = tt;
        }
        | inl up ↦
            let unread = parse_unread_only q.unread_only in
            let (page, found, few) = cut_total n (
              take (suc n + 1) (
                from_cursor s.service.db.texts.bound cursor
                  (listed s.service.db user.id feed unread))) in
            record {
              reply = record { status = 200; body = page_body page };
              returned =
                  rw (good, get_articles_of)
                    (rw (page_up user.id feed (suc n) cursor unread s.service.db up) (rw found));
              short = omega (arith, few, high);
            }
      ]
    ]

-- Whatever the parameters of a listing are, it answers, where a limit of 0 would make the store panic, it
-- changes nothing, and a page that it answers has at most 100 articles.
pub get_articles-Answers :
    (atoi : Atoi) (decode : String → Option Cursor) (id_str : String) (q : Query)
    (user : Option User) (s : Server)
    → Answers (get_articles atoi decode id_str q user s) s
unfolding get_articles
get_articles-Answers atoi decode id_str q none s = record {
  reply = refusal 401;
  returned = refl;
  short = tt;
}
get_articles-Answers atoi decode id_str q (some user) s =
    elim (Option-cases (if id_str == "all" then some (pos 0) else atoi id_str)) [
      | inl bad ↦ record { reply = refusal 400; returned = rw (bad, get_articles); short = tt }
      | inr (feed, good) ↦
          let bounds = parse_limit-bounds atoi q.limit in
          rw (good, get_articles)
            (get_articles_of-Answers decode (parse_limit atoi q.limit) q feed user s bounds.0
              bounds.1)
    ]

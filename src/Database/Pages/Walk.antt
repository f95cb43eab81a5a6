-- ===== src/Database/Pages/Walk.antt =====
-- internal/database/schema.go: what a client sees that follows the cursors.
use mathlib.Core.List.{Perm, append_assoc}
use goread.Base.{
  int_Eq, ℕ, zero, suc, ◌+◌, ◌≤◌, ◌<◌, ◌≡◌, refl, sym, ap, subst, ◌∙◌, Bool, true, Option, none,
  some, List, [], ◌∷◌, ◌++◌, arith, Bool-cases, inl, inr, ◌⊎◌, ◌≢◌, Option-cases, lookup, pair_Eq,
  All, select, length, length-append, take, get_elem?, ℤ,
}
use goread.Database.{Db, Article}
use goread.Database.Unread.{DistinctIds}
use goread.Database.Feeds.{rows, is_subscribed}
use goread.Database.Pages.{
  Row, Cursor, cursor_of, key_of, is_after, cut, page_of, from_cursor, walk, sort_rows, is_wanted,
  joined, listed,
}
use goread.Database.Pages.Order.{
  IsDescending, HasDistinctIds, after_asymm, after_irrefl, sort-IsDescending, sort_rows-perm,
  length-sort_rows, All-sort_rows,
}

select_every : (p : Row → Bool) (l : List Row) → All (λ r. p r ≡ true) l → select p l ≡ l
select_every p [] h = refl
select_every p (r ∷ l) h = rw (h.0) (ap (◌∷◌ r) (select_every p l h.1))

All-middle :
    (P : Row → Type 0) (front : List Row) (x : Row) (post : List Row)
    → All P (front ++ x ∷ post)
    → P x
All-middle P [] x post h = h.0
All-middle P (y ∷ front) x post h = All-middle P front x post h.1

-- The text that the date of the row is bound as is that which is stored.
abbrev pub IsBound : (ℕ → ℕ) → Row → Type 0
IsBound bound row = bound row.article.published_at ≡ row.text

-- A cursor at a row selects what stands below it.
select-after :
    (front : List Row) (x : Row) (post : List Row)
    → IsDescending (front ++ x ∷ post)
    → select (is_after (key_of x)) (front ++ x ∷ post) ≡ post
select-after [] x post d = rw (after_irrefl x) (select_every _ post d.0)
select-after (y ∷ front) x post d =
    rw (after_asymm y x (All-middle _ front x post d.0)) (select-after front x post d.1)

-- A list with more than `n + 1` rows, cut after that many.
record Split (n : ℕ) (r : List Row) : Type 0 where
  pre : List Row
  last : Row
  next : Row
  rest : List Row
  whole : r ≡ pre ++ last ∷ next ∷ rest
  first : take (suc n) r ≡ pre ++ last ∷ []
  at_last : get_elem? r n ≡ some last
  at_next : get_elem? r (suc n) ≡ some next

pieces_of :
    (n : ℕ) (r : List Row) → ((take (suc (suc n)) r ≡ r) × (get_elem? r (suc n) ≡ none)) ⊎ Split n r
pieces_of n [] = inl (refl, refl)
pieces_of n (a ∷ []) = inl (refl, refl)
pieces_of zero (a ∷ b ∷ r) = inr (record {
  pre = [];
  last = a;
  next = b;
  rest = r;
  whole = refl;
  first = refl;
  at_last = refl;
  at_next = refl;
})
pieces_of (suc n) (a ∷ b ∷ r) = elim (pieces_of n (b ∷ r)) [
  | inl (all, over) ↦ inl (ap (◌∷◌ a) all, over)
  | inr s ↦ inr (record {
    pre = a ∷ s.pre;
    last = s.last;
    next = s.next;
    rest = s.rest;
    whole = ap (◌∷◌ a) s.whole;
    first = ap (◌∷◌ a) s.first;
    at_last = s.at_last;
    at_next = s.at_next;
  })
]

get_elem?-take : (i k : ℕ) (l : List Row) → i < k → get_elem? (take k l) i ≡ get_elem? l i
get_elem?-take i zero l h = absurd (omega arith)
get_elem?-take i (suc k) [] h = refl
get_elem?-take zero (suc k) (x ∷ l) h = refl
get_elem?-take (suc i) (suc k) (x ∷ l) h = get_elem?-take i k l (omega arith)

take-take : (k : ℕ) (l : List Row) → take k (take (suc k) l) ≡ take k l
take-take zero l = refl
take-take (suc k) [] = refl
take-take (suc k) (x ∷ l) = ap (◌∷◌ x) (take-take k l)

-- What a page holds of the rows below its cursor: all, or as many as the limit allows.
cut_all :
    (n : ℕ) (r : List Row)
    → take (suc (suc n)) r ≡ r
    → get_elem? r (suc n) ≡ none
    → cut (suc n) (take (suc (suc n)) r) ≡ some (record { articles = r; next_cursor = none })
unfolding cut
cut_all n [] all over = refl
cut_all n (a ∷ r) all over = rw all (rw (over, cut))

cut_pieces :
    (n : ℕ) (r : List Row) (s : Split n r)
    → cut (suc n) (take (suc (suc n)) r)
      ≡ some (record { articles = s.pre ++ s.last ∷ []; next_cursor = some (cursor_of s.last) })
unfolding cut
cut_pieces n [] s = cc (s.at_last)
cut_pieces n (a ∷ r) s =
    rw (get_elem?-take (suc n) (suc (suc n)) (a ∷ r) (omega arith) ∙ s.at_next, cut)
      (rw (get_elem?-take n (suc (suc n)) (a ∷ r) (omega arith) ∙ s.at_last)
        (rw (take-take (suc n) (a ∷ r)) (rw (s.first))))

page_of_rest :
    (bound : ℕ → ℕ) (n : ℕ) (cursor : Option Cursor) (r l : List Row)
    → from_cursor bound cursor l ≡ r
    → page_of bound (suc n) cursor l ≡ cut (suc n) (take (suc (suc n)) r)
unfolding page_of
page_of_rest bound n cursor r l below =
    let more : suc n + 1 ≡ suc (suc n) = omega arith in
    ap (λ k. cut (suc n) (take k (from_cursor bound cursor l))) more
    ∙ ap (λ x. cut (suc n) (take (suc (suc n)) x)) below

-- The row at which a page ends, with what stands above it and below it.
module _ (n : ℕ) (front r l : List Row) (d : IsDescending l) (whole : l ≡ front ++ r)
    (s : Split n r) where
  at_cursor : l ≡ (front ++ s.pre) ++ s.last ∷ s.next ∷ s.rest
  at_cursor =
      whole
      ∙ ap (λ x. front ++ x) s.whole
      ∙ sym (append_assoc front s.pre (s.last ∷ s.next ∷ s.rest))

  below_cursor : select (is_after (key_of s.last)) l ≡ s.next ∷ s.rest
  below_cursor =
      ap (select (is_after (key_of s.last))) at_cursor
      ∙ select-after (front ++ s.pre) s.last (s.next ∷ s.rest) (subst IsDescending at_cursor d)

  at_bound :
      (bound : ℕ → ℕ)
      → All (IsBound bound) l
      → from_cursor bound (some (cursor_of s.last)) l ≡ s.next ∷ s.rest
  at_bound bound h =
      let last : bound s.last.article.published_at ≡ s.last.text =
        All-middle (IsBound bound) (front ++ s.pre) s.last (s.next ∷ s.rest)
          (subst (All (IsBound bound)) at_cursor h) in
      ap (λ t. select (is_after (record { text = t; id = s.last.article.id })) l) last
      ∙ below_cursor

  page_and_rest : (s.pre ++ s.last ∷ []) ++ s.next ∷ s.rest ≡ r
  page_and_rest = append_assoc s.pre (s.last ∷ []) (s.next ∷ s.rest) ∙ sym s.whole

  next_whole : l ≡ (front ++ (s.pre ++ s.last ∷ [])) ++ s.next ∷ s.rest
  next_whole =
      whole
      ∙ ap (λ x. front ++ x) (sym page_and_rest)
      ∙ sym (append_assoc front (s.pre ++ s.last ∷ []) (s.next ∷ s.rest))

  fewer : length (s.next ∷ s.rest) < length r
  fewer = omega (arith, ap length s.whole, length-append s.pre (s.last ∷ s.next ∷ s.rest))

-- The rows below a cursor are those that the pages from it on have, with enough pages.
walk_rest :
    (bound : ℕ → ℕ) (pages n : ℕ) (cursor : Option Cursor) (front r l : List Row)
    → IsDescending l
    → All (IsBound bound) l
    → l ≡ front ++ r
    → from_cursor bound cursor l ≡ r
    → length r ≤ pages
    → walk bound (suc pages) (suc n) cursor l ≡ r
unfolding walk
walk_rest bound zero n cursor front r l d same whole below enough = elim (pieces_of n r) [
  | inl (all, over) ↦ rw (page_of_rest bound n cursor r l below ∙ cut_all n r all over, walk)
  | inr s ↦ absurd (omega (arith, fewer n front r l d whole s))
]
walk_rest bound (suc pages) n cursor front r l d same whole below enough = elim (pieces_of n r) [
  | inl (all, over) ↦ rw (page_of_rest bound n cursor r l below ∙ cut_all n r all over, walk)
  | inr s ↦
      let page = s.pre ++ s.last ∷ [] in
      let next =
        walk_rest bound pages n (some (cursor_of s.last)) (front ++ page) (s.next ∷ s.rest) l d same
          (next_whole n front r l d whole s) (at_bound n front r l d whole s bound same)
          (omega (arith, fewer n front r l d whole s)) in
      rw (page_of_rest bound n cursor r l below ∙ cut_pieces n r s, walk)
        (ap (λ x. page ++ x) next ∙ page_and_rest n front r l d whole s)
]

All-flip : (i : ℤ) (l : List Article) → All (λ b. b.id ≢ i) l → All (λ b. i ≢ b.id) l
All-flip i [] h = tt
All-flip i (b ∷ l) h = ((λ e. h.0 (sym e)), All-flip i l h.1)

-- The rows of different articles.
All-joined :
    (db : Db) (user : ℤ) (P : Article → Type 0) (l : List Article)
    → All P l
    → All (λ (row : Row). P row.article) (joined db user l)
unfolding joined
All-joined db user P [] h = tt
All-joined db user P (a ∷ l) h = elim (Option-cases (lookup a.feed_id db.feeds)) [
  | inl absent ↦ rw (absent, joined) (All-joined db user P l h.1)
  | inr (feed, present) ↦ elim (Bool-cases (is_subscribed db.user_feeds user a.feed_id)) [
    | inl reads ↦ rw (present, joined) (rw reads (h.0, All-joined db user P l h.1))
    | inr other ↦ rw (present, joined) (rw other (All-joined db user P l h.1))
  ]
]

joined-HasDistinctIds :
    (db : Db) (user : ℤ) (l : List Article) → DistinctIds l → HasDistinctIds (joined db user l)
unfolding joined
joined-HasDistinctIds db user [] d = tt
joined-HasDistinctIds db user (a ∷ l) d = elim (Option-cases (lookup a.feed_id db.feeds)) [
  | inl absent ↦ rw (absent, joined) (joined-HasDistinctIds db user l d.1)
  | inr (feed, present) ↦ elim (Bool-cases (is_subscribed db.user_feeds user a.feed_id)) [
    | inl reads ↦
        rw (present, joined)
          (rw reads (
            All-joined db user (λ b. a.id ≢ b.id) l (All-flip a.id l d.0),
            joined-HasDistinctIds db user l d.1,
          ))
    | inr other ↦ rw (present, joined) (rw other (joined-HasDistinctIds db user l d.1))
  ]
]

All-select : (P : Row → Type 0) (p : Row → Bool) (l : List Row) → All P l → All P (select p l)
All-select P p [] h = tt
All-select P p (r ∷ l) h = elim (Bool-cases (p r)) [
  | inl kept ↦ rw kept (h.0, All-select P p l h.1)
  | inr left ↦ rw left (All-select P p l h.1)
]

select-HasDistinctIds :
    (p : Row → Bool) (l : List Row) → HasDistinctIds l → HasDistinctIds (select p l)
select-HasDistinctIds p [] d = tt
select-HasDistinctIds p (r ∷ l) d = elim (Bool-cases (p r)) [
  | inl kept ↦ rw kept (All-select _ p l d.0, select-HasDistinctIds p l d.1)
  | inr left ↦ rw left (select-HasDistinctIds p l d.1)
]

joined-IsBound :
    (db : Db) (user : ℤ) (l : List Article)
    → All (λ a. db.texts.bound a.published_at ≡ db.texts.rank a) l
    → All (IsBound db.texts.bound) (joined db user l)
unfolding joined
joined-IsBound db user [] h = tt
joined-IsBound db user (a ∷ l) h = elim (Option-cases (lookup a.feed_id db.feeds)) [
  | inl absent ↦ rw (absent, joined) (joined-IsBound db user l h.1)
  | inr (feed, present) ↦ elim (Bool-cases (is_subscribed db.user_feeds user a.feed_id)) [
    | inl reads ↦ rw (present, joined) (rw reads (h.0, joined-IsBound db user l h.1))
    | inr other ↦ rw (present, joined) (rw other (joined-IsBound db user l h.1))
  ]
]

-- A client that follows the cursors from the first page sees every article of the query, read or
-- starred as the user left it, exactly once, in descending order of the stored texts of the dates. The date
-- of every stored article is bound, in a cursor, as the text under which it is stored, as where the server
-- and the articles have one time zone. The limit is positive, the ids of the articles differ, and the
-- client asks for more pages than there are articles.
pub walk-perm :
    (db : Db) (user feed : ℤ) (unread_only : Bool) (limit pages : ℕ)
    → DistinctIds (rows db.articles)
    → All (λ a. db.texts.bound a.published_at ≡ db.texts.rank a) (rows db.articles)
    → 0 < limit
    → length (select (is_wanted feed unread_only) (joined db user (rows db.articles))) < pages
    → let seen = walk db.texts.bound pages limit none (listed db user feed unread_only) in
      Perm seen (select (is_wanted feed unread_only) (joined db user (rows db.articles)))
      × IsDescending seen
unfolding listed
walk-perm db user feed unread_only zero pages d bound positive enough = absurd (omega arith)
walk-perm db user feed unread_only (suc n) zero d bound positive enough = absurd (omega arith)
walk-perm db user feed unread_only (suc n) (suc pages) d bound positive enough =
    let every = select (is_wanted feed unread_only) (joined db user (rows db.articles)) in
    let sorted = sort_rows every in
    let down = sort-IsDescending every (
      select-HasDistinctIds (is_wanted feed unread_only) (joined db user (rows db.articles))
        (joined-HasDistinctIds db user (rows db.articles) d)) in
    let all_bound = All-sort_rows (IsBound db.texts.bound) every (
      All-select (IsBound db.texts.bound) (is_wanted feed unread_only)
        (joined db user (rows db.articles)) (joined-IsBound db user (rows db.articles) bound)) in
    let size = length-sort_rows every in
    let same =
      walk_rest db.texts.bound pages n none [] sorted sorted down all_bound refl refl
        (omega (arith, size)) in
    (rw same (sort_rows-perm every), rw same down)

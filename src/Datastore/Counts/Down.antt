-- ===== src/Datastore/Counts/Down.antt =====
-- internal/database/datastore.go: how the read marks count down the unread counts, with any faults.
use goread.Base.{
  int_Eq, pair_Eq, int_eq_iff, int_laws, pos_part, neg_part, ℕ, suc, ◌+◌, ◌≤◌, ◌≡◌, refl, ap, ◌∙◌,
  Bool, true, false, ◌&&◌, ℤ, pos, Map, lookup, lookup-insert, if◌then◌else◌, ◌==◌, List, [], ◌∷◌,
  ◌++◌, get_or, ◌+ℤ◌, ◌-ℤ◌, arith, Bool-cases, Option-cases, inl, inr,
}
use goread.Database.{UserArticle}
use goread.Database.Articles.{Statuses, is_read_by}
use goread.Datastore.{Slot, found, missing, broken, slots}
use goread.Datastore.Counts.{Recent, decrement, count_down, mark_keys}

-- A feed that is not in the map has the count 0.
abbrev pub count_in : ℤ → Map ℤ ℤ → ℤ
count_in feed_id counts = get_or (lookup feed_id counts) (pos 0)

-- The articles of a feed in the list that the user has read.
unfoldable pub reads : Statuses → ℤ → ℤ → Recent → ℕ
reads m user_id feed_id [] = 0
reads m user_id feed_id ((feed, id) ∷ recent) =
    let rest = reads m user_id feed_id recent in
    if feed == feed_id && is_read_by m user_id id then suc rest else rest

-- The read marks of a feed among the answers of a batch read.
pub seen : ℤ → Recent → List (Slot UserArticle) → ℕ
seen feed_id [] answers = 0
seen feed_id (article ∷ recent) [] = 0
seen feed_id (article ∷ recent) (found row ∷ answers) =
    let rest = seen feed_id recent answers in
    if article.0 == feed_id && row.is_read then suc rest else rest
seen feed_id (article ∷ recent) (missing ∷ answers) = seen feed_id recent answers
seen feed_id (article ∷ recent) (broken ∷ answers) = seen feed_id recent answers

count_in-decrement :
    (f g : ℤ) (counts : Map ℤ ℤ)
    → count_in f (decrement g counts)
      ≡ (if g == f then count_in f counts -ℤ pos 1 else count_in f counts)
count_in-decrement f g counts = rw lookup-insert (ground (arith, int_eq_iff g f))

one_more :
    (old less new : ℤ) (same : Bool) (n : ℕ)
    → new +ℤ pos n ≡ less
    → less ≡ (if same then old -ℤ pos 1 else old)
    → new +ℤ pos (if same && true then suc n else n) ≡ old
one_more old less new true n h e = omega (int_laws, ap pos_part (h ∙ e), ap neg_part (h ∙ e))
one_more old less new false n h e = h ∙ e

pub count_in-count_down :
    (f : ℤ) (recent : Recent) (answers : List (Slot UserArticle)) (counts : Map ℤ ℤ)
    → count_in f (count_down recent answers counts) +ℤ pos (seen f recent answers)
      ≡ count_in f counts
unfolding count_down seen
count_in-count_down f [] answers counts = omega int_laws
count_in-count_down f (article ∷ recent) [] counts = omega int_laws
count_in-count_down f ((g, id) ∷ recent) (found row ∷ answers) counts =
    elim (Bool-cases row.is_read) [
      | inl marked ↦
          let ih = count_in-count_down f recent answers (decrement g counts) in
          rw marked (one_more (count_in f counts) _ _ (g == f) _ ih (count_in-decrement f g counts))
      | inr unmarked ↦
          let ih = count_in-count_down f recent answers counts in rw unmarked (ground (arith, ih))
    ]
count_in-count_down f (article ∷ recent) (missing ∷ answers) counts =
    count_in-count_down f recent answers counts
count_in-count_down f (article ∷ recent) (broken ∷ answers) counts =
    count_in-count_down f recent answers counts

-- However the service answers, no more marks are seen than there are.
pub seen-le-reads :
    (m : Statuses) (user f : ℤ) (reported : List Bool) (recent : Recent)
    → seen f recent (slots m reported (mark_keys user recent)) ≤ reads m user f recent
unfolding seen reads slots is_read_by
seen-le-reads m user f reported [] = omega arith
seen-le-reads m user f [] ((g, id) ∷ recent) = elim (Option-cases (lookup (user, id) m)) [
  | inl absent ↦ rw (absent, seen) (ground (arith, seen-le-reads m user f [] recent))
  | inr (row, present) ↦ rw (present, seen) (ground (arith, seen-le-reads m user f [] recent))
]
seen-le-reads m user f (true ∷ reported) ((g, id) ∷ recent) =
    elim (Option-cases (lookup (user, id) m)) [
      | inl absent ↦ rw (absent, seen) (ground (arith, seen-le-reads m user f reported recent))
      | inr (row, present) ↦
          rw (present, seen) (ground (arith, seen-le-reads m user f reported recent))
    ]
seen-le-reads m user f (false ∷ reported) ((g, id) ∷ recent) =
    ground (arith, seen-le-reads m user f reported recent)

-- All marks are seen where no key is reported.
pub seen-eq-reads :
    (m : Statuses) (user f : ℤ) (recent : Recent)
    → seen f recent (slots m [] (mark_keys user recent)) ≡ reads m user f recent
unfolding seen reads slots is_read_by
seen-eq-reads m user f [] = refl
seen-eq-reads m user f ((g, id) ∷ recent) = elim (Option-cases (lookup (user, id) m)) [
  | inl absent ↦ rw (absent, seen) (ground (arith, seen-eq-reads m user f recent))
  | inr (row, present) ↦ rw (present, seen) (ground (arith, seen-eq-reads m user f recent))
]

-- What is left of a count, in an answer to any script of faults.
pub record Counted (m : Statuses) (user_id feed_id : ℤ) (recent : Recent) (before after : Map ℤ ℤ)
    : Type 0 where
  pub gone : ℕ
  pub balance : count_in feed_id after +ℤ pos gone ≡ count_in feed_id before
  pub bound : gone ≤ reads m user_id feed_id recent

pub reads-append :
    (m : Statuses) (user f : ℤ) (r r' : Recent)
    → reads m user f (r ++ r') ≡ reads m user f r + reads m user f r'
unfolding reads
reads-append m user f [] r' = omega arith
reads-append m user f ((g, id) ∷ r) r' = ground (arith, reads-append m user f r r')

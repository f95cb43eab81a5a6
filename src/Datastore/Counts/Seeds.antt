-- ===== src/Datastore/Counts/Seeds.antt =====
-- internal/database/datastore.go: the steps of GetUserUnreadCounts under any script of faults.
use goread.Base.{
  int_Eq, pair_Eq, int_laws, pos_part, neg_part, ◌+◌, ◌≡◌, refl, sym, ap, ◌∙◌, Bool, Option, none,
  some, ℤ, pos, Map, List, [], ◌∷◌, ◌++◌, concat, ◌+ℤ◌, arith, inl, inr, ◌⊎◌,
}
use goread.Database.{DbError, Db, UserArticle, Result, ok}
use goread.Database.Articles.{Statuses}
use goread.Datastore.{
  Store, Ds, Outcome, answered, failed, lost, partial, Slot, slots, attempt, get_multi, bind-ok,
}
use goread.Datastore.Counts.{Recent, count_down, mark_keys, subtract_read, count_down_answered}
use goread.Datastore.Counts.Down.{
  count_in, reads, seen, seen-le-reads, seen-eq-reads, count_in-count_down, reads-append, Counted,
}

abbrev pub script : List Outcome → Db → Store
script calls db = record { calls = calls; db = db }

abbrev batch : List (ℤ × ℤ) → Ds (Option (List (Slot UserArticle)))
batch keys = attempt (get_multi (λ db. db.user_articles) keys)

-- A batch read fails as a whole, or answers for each key but those that it reports.
batch-cases :
    (keys : List (ℤ × ℤ)) (calls : List Outcome) (db : Db)
    → (calls' : List Outcome) × ((batch keys (script calls db) ≡ (script calls' db, ok none))
        ⊎ ((reported : List Bool) × (batch keys (script calls db)
              ≡ (script calls' db, ok (some (slots db.user_articles reported keys))))))
batch-cases keys [] db = ([], inr ([], refl))
batch-cases keys (answered ∷ calls) db = (calls, inr ([], refl))
batch-cases keys (failed ∷ calls) db = (calls, inl refl)
batch-cases keys (lost ∷ calls) db = (calls, inl refl)
batch-cases keys (partial reported ∷ calls) db = (calls, inr (reported, refl))

none-Counted :
    (m : Statuses) (user f : ℤ) (recent : Recent) (counts : Map ℤ ℤ)
    → Counted m user f recent counts counts
none-Counted m user f recent counts = record {
  gone = 0;
  balance = omega int_laws;
  bound = omega arith;
}

down-Counted :
    (m : Statuses) (user f : ℤ) (reported : List Bool) (recent : Recent) (counts : Map ℤ ℤ)
    → Counted m user f recent counts
        (count_down recent (slots m reported (mark_keys user recent)) counts)
down-Counted m user f reported recent counts = record {
  gone = seen f recent (slots m reported (mark_keys user recent));
  balance = count_in-count_down f recent _ counts;
  bound = seen-le-reads m user f reported recent;
}

Counted-trans :
    (m : Statuses) (user f : ℤ) (here later : Recent) (before between after : Map ℤ ℤ)
    → Counted m user f here before between
    → Counted m user f later between after
    → Counted m user f (here ++ later) before after
Counted-trans m user f here later before between after first second = record {
  gone = first.gone + second.gone;
  balance = omega (
    int_laws,
    ap pos_part first.balance,
    ap neg_part first.balance,
    ap pos_part second.balance,
    ap neg_part second.balance,
  );
  bound = omega (arith, first.bound, second.bound, reads-append m user f here later);
}

subtract_read-step :
    (user : ℤ) (recent : Recent) (chunks : List Recent) (counts : Map ℤ ℤ) (s s' : Store)
    (answers : Option (List (Slot UserArticle)))
    → batch (mark_keys user recent) s ≡ (s', ok answers)
    → subtract_read user (recent ∷ chunks) counts s
      ≡ subtract_read user chunks (count_down_answered recent answers counts) s'
unfolding subtract_read
subtract_read-step user recent chunks counts s s' answers h =
    bind-ok (batch (mark_keys user recent))
      (λ answers. subtract_read user chunks (count_down_answered recent answers counts)) s s'
      answers h

pub subtract-Counted :
    (user f : ℤ) (chunks : List Recent) (counts : Map ℤ ℤ) (calls : List Outcome) (db : Db)
    → (after : Map ℤ ℤ) × ((subtract_read user chunks counts (script calls db)).1 ≡ ok after)
      × Counted db.user_articles user f (concat chunks) counts after
unfolding subtract_read
subtract-Counted user f [] counts calls db =
    (counts, refl, none-Counted db.user_articles user f [] counts)
subtract-Counted user f (recent ∷ chunks) counts calls db =
    let m = db.user_articles in
    let (calls', answer) = batch-cases (mark_keys user recent) calls db in
    elim answer [
      | inl lost_batch ↦
          let (after, good, rest) = subtract-Counted user f chunks counts calls' db in
          (
            after,
            ap (λ (r : Store × Result DbError (Map ℤ ℤ)). r.1)
                  (subtract_read-step user recent chunks counts (script calls db) (script calls' db)
                    _ lost_batch)
                ∙ good,
            Counted-trans m user f recent (concat chunks) counts counts after
                (none-Counted m user f recent counts) rest,
          )
      | inr (reported, read) ↦
          let counts' = count_down recent (slots m reported (mark_keys user recent)) counts in
          let (after, good, rest) = subtract-Counted user f chunks counts' calls' db in
          (
            after,
            ap (λ (r : Store × Result DbError (Map ℤ ℤ)). r.1)
                  (subtract_read-step user recent chunks counts (script calls db) (script calls' db)
                    _ read)
                ∙ good,
            Counted-trans m user f recent (concat chunks) counts counts' after
                (down-Counted m user f reported recent counts) rest,
          )
    ]

answered-balance :
    (m : Statuses) (user f : ℤ) (here later : Recent) (before between after : Map ℤ ℤ)
    → count_in f between +ℤ pos (reads m user f here) ≡ count_in f before
    → count_in f after +ℤ pos (reads m user f later) ≡ count_in f between
    → count_in f after +ℤ pos (reads m user f (here ++ later)) ≡ count_in f before
answered-balance m user f here later before between after first second = omega (
  int_laws,
  ap pos_part first,
  ap neg_part first,
  ap pos_part second,
  ap neg_part second,
  reads-append m user f here later,
)

down-balance :
    (m : Statuses) (user f : ℤ) (recent : Recent) (counts : Map ℤ ℤ)
    → count_in f (count_down recent (slots m [] (mark_keys user recent)) counts)
        +ℤ pos (reads m user f recent)
      ≡ count_in f counts
down-balance m user f recent counts =
    ap (λ n. count_in f (count_down recent (slots m [] (mark_keys user recent)) counts) +ℤ pos n)
      (sym (seen-eq-reads m user f recent))
    ∙ count_in-count_down f recent _ counts

-- Where all calls are answered, every read mark is counted down.
pub subtract-answered :
    (user f : ℤ) (chunks : List Recent) (counts : Map ℤ ℤ) (db : Db)
    → (after : Map ℤ ℤ) × (subtract_read user chunks counts (script [] db)
        ≡ (script [] db, ok after))
      × (count_in f after +ℤ pos (reads db.user_articles user f (concat chunks))
          ≡ count_in f counts)
unfolding subtract_read reads
subtract-answered user f [] counts db = (counts, refl, omega int_laws)
subtract-answered user f (recent ∷ chunks) counts db =
    let m = db.user_articles in
    let counts' = count_down recent (slots m [] (mark_keys user recent)) counts in
    let (after, good, rest) = subtract-answered user f chunks counts' db in
    (
      after,
      good,
      answered-balance m user f recent (concat chunks) counts counts' after
          (down-balance m user f recent counts) rest,
    )

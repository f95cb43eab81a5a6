-- ===== src/Database/Pages/Order.antt =====
-- internal/database/schema.go: the order of the rows of the pages.
use mathlib.Core.List.Perm
use mathlib.Core.List.{Perm}
use goread.Base.{
  int_Eq, eq_of_parts, suc, length, ◌≡◌, ◌≢◌, refl, true, false, List, [], ◌∷◌, arith, Bool-cases,
  inl, inr, All,
}
use goread.Database.Pages.{Row, key_of, is_after, insert_row, sort_rows}

-- Every row comes after those above it.
abbrev pub IsDescending : List Row → Type 0
IsDescending [] = Unit
IsDescending (a ∷ l) = All (λ b. is_after (key_of a) b ≡ true) l × IsDescending l

-- No two rows have one id.
abbrev pub HasDistinctIds : List Row → Type 0
HasDistinctIds [] = Unit
HasDistinctIds (a ∷ l) = All (λ b. a.article.id ≢ b.article.id) l × HasDistinctIds l

pub after_trans :
    (a b c : Row)
    → is_after (key_of a) b ≡ true
    → is_after (key_of b) c ≡ true
    → is_after (key_of a) c ≡ true
after_trans a b c h k = ground arith

pub after_asymm : (a b : Row) → is_after (key_of a) b ≡ true → is_after (key_of b) a ≡ false
after_asymm a b h = ground arith

pub after_irrefl : (a : Row) → is_after (key_of a) a ≡ false
after_irrefl a = ground arith

after_total :
    (a b : Row)
    → a.article.id ≢ b.article.id
    → is_after (key_of a) b ≡ false
    → is_after (key_of b) a ≡ true
after_total a b ne h = ground (arith, eq_of_parts a.article.id b.article.id)

All-mono : (P Q : Row → Type 0) (l : List Row) → ((r : Row) → P r → Q r) → All P l → All Q l
All-mono P Q [] f h = tt
All-mono P Q (r ∷ l) f h = (f r h.0, All-mono P Q l f h.1)

All-insert_row :
    (P : Row → Type 0) (a : Row) (l : List Row) → P a → All P l → All P (insert_row a l)
unfolding insert_row
All-insert_row P a [] p h = (p, tt)
All-insert_row P a (b ∷ l) p h = elim (Bool-cases (is_after (key_of a) b)) [
  | inl first ↦ rw first (p, h)
  | inr later ↦ rw later (h.0, All-insert_row P a l p h.1)
]

insert-IsDescending :
    (a : Row) (l : List Row)
    → All (λ b. a.article.id ≢ b.article.id) l
    → IsDescending l
    → IsDescending (insert_row a l)
unfolding insert_row
insert-IsDescending a [] ne h = (tt, tt)
insert-IsDescending a (b ∷ l) ne h = elim (Bool-cases (is_after (key_of a) b)) [
  | inl first ↦ rw first ((first, All-mono _ _ l (λ c later. after_trans a b c first later) h.0), h)
  | inr later ↦ rw later (
    All-insert_row (λ c. is_after (key_of b) c ≡ true) a l (after_total a b ne.0 later) h.0,
    insert-IsDescending a l ne.1 h.1,
  )
]

pub All-sort_rows : (P : Row → Type 0) (l : List Row) → All P l → All P (sort_rows l)
unfolding sort_rows
All-sort_rows P [] h = tt
All-sort_rows P (a ∷ l) h = All-insert_row P a (sort_rows l) h.0 (All-sort_rows P l h.1)

pub sort-IsDescending : (l : List Row) → HasDistinctIds l → IsDescending (sort_rows l)
unfolding sort_rows
sort-IsDescending [] d = tt
sort-IsDescending (a ∷ l) d =
    insert-IsDescending a (sort_rows l) (All-sort_rows (λ b. a.article.id ≢ b.article.id) l d.0)
      (sort-IsDescending l d.1)

insert_row-perm : (a : Row) (l : List Row) → Perm (insert_row a l) (a ∷ l)
unfolding insert_row
insert_row-perm a [] = Perm.refl (a ∷ [])
insert_row-perm a (b ∷ l) = elim (Bool-cases (is_after (key_of a) b)) [
  | inl first ↦ rw first (Perm.refl (a ∷ b ∷ l))
  | inr later ↦ rw later (Perm.trans (Perm.cons b (insert_row-perm a l)) (Perm.swap a b l))
]

pub sort_rows-perm : (l : List Row) → Perm (sort_rows l) l
unfolding sort_rows
sort_rows-perm [] = Perm.refl []
sort_rows-perm (a ∷ l) =
    Perm.trans (insert_row-perm a (sort_rows l)) (Perm.cons a (sort_rows-perm l))

length-insert_row : (a : Row) (l : List Row) → length (insert_row a l) ≡ suc (length l)
unfolding insert_row
length-insert_row a [] = refl
length-insert_row a (b ∷ l) = ground (arith, length-insert_row a l)

pub length-sort_rows : (l : List Row) → length (sort_rows l) ≡ length l
unfolding sort_rows
length-sort_rows [] = refl
length-sort_rows (a ∷ l) = omega (arith, length-insert_row a (sort_rows l), length-sort_rows l)

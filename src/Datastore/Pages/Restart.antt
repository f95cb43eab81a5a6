-- ===== src/Datastore/Pages/Restart.antt =====
-- internal/database/datastore.go: which references a page starts from.
use goread.Base.{
  int_Eq, ◌≡◌, refl, true, false, some, List, [], ◌∷◌, arith, Bool-cases, inl, inr, All, select,
  get_or,
}
use goread.Database.Pages.{Cursor}
use goread.Datastore.Pages.{
  Ref, comes_after, cursor_at, insert_ref, sort_refs, find_start, remaining,
}

-- Every reference comes after those above it, or has the same time and id.
abbrev pub IsOrdered : List Ref → Type 0
IsOrdered [] = Unit
IsOrdered (a ∷ l) = All (λ b. comes_after (cursor_at b) a ≡ false) l × IsOrdered l

All-insert_ref :
    (P : Ref → Type 0) (a : Ref) (l : List Ref) → P a → All P l → All P (insert_ref a l)
unfolding insert_ref
All-insert_ref P a [] p h = (p, tt)
All-insert_ref P a (b ∷ l) p h = elim (Bool-cases (comes_after (cursor_at a) b)) [
  | inl first ↦ rw first (p, h)
  | inr later ↦ rw later (h.0, All-insert_ref P a l p h.1)
]

All-mono : (P Q : Ref → Type 0) (l : List Ref) → ((r : Ref) → P r → Q r) → All P l → All Q l
All-mono P Q [] f h = tt
All-mono P Q (r ∷ l) f h = (f r h.0, All-mono P Q l f h.1)

not_before :
    (a b c : Ref)
    → comes_after (cursor_at a) b ≡ true
    → comes_after (cursor_at c) b ≡ false
    → comes_after (cursor_at c) a ≡ false
not_before a b c h k = ground arith

not_after : (a b : Ref) → comes_after (cursor_at a) b ≡ true → comes_after (cursor_at b) a ≡ false
not_after a b h = ground arith

insert-IsOrdered : (a : Ref) (l : List Ref) → IsOrdered l → IsOrdered (insert_ref a l)
unfolding insert_ref
insert-IsOrdered a [] h = (tt, tt)
insert-IsOrdered a (b ∷ l) h = elim (Bool-cases (comes_after (cursor_at a) b)) [
  | inl first ↦
      rw first ((not_after a b first, All-mono _ _ l (λ c k. not_before a b c first k) h.0), h)
  | inr later ↦ rw later (
    All-insert_ref (λ c. comes_after (cursor_at c) b ≡ false) a l later h.0,
    insert-IsOrdered a l h.1,
  )
]

sort-IsOrdered : (l : List Ref) → IsOrdered (sort_refs l)
unfolding sort_refs
sort-IsOrdered [] = tt
sort-IsOrdered (a ∷ l) = insert-IsOrdered a (sort_refs l) (sort-IsOrdered l)

abbrev pub or_all : List Ref → List Ref → List Ref
or_all [] all_refs = all_refs
or_all (ref ∷ refs) all_refs = ref ∷ refs

-- Below a reference that comes after the cursor, all do.
select-below :
    (c : Cursor) (a : Ref) (l : List Ref)
    → comes_after c a ≡ true
    → All (λ b. comes_after (cursor_at b) a ≡ false) l
    → select (comes_after c) l ≡ l
select-below c a [] h below = refl
select-below c a (b ∷ l) h below = ground (arith, select-below c a l h below.1)

find-eq-select :
    (c : Cursor) (l all_refs : List Ref)
    → IsOrdered l
    → get_or (find_start c l) all_refs ≡ or_all (select (comes_after c) l) all_refs
unfolding find_start
find-eq-select c [] all_refs h = refl
find-eq-select c (a ∷ l) all_refs h = elim (Bool-cases (comes_after c a)) [
  | inl after ↦ rw after (rw (select-below c a l after h.0))
  | inr before ↦ rw before (find-eq-select c l all_refs h.1)
]

-- A page starts from the references after the cursor, in their order, and where there are none it starts
-- again from the newest.
pub remaining-eq-select :
    (c : Cursor) (refs : List Ref)
    → remaining (some c) (sort_refs refs)
      ≡ or_all (select (comes_after c) (sort_refs refs)) (sort_refs refs)
unfolding remaining
remaining-eq-select c refs =
    find-eq-select c (sort_refs refs) (sort_refs refs) (sort-IsOrdered refs)

-- ===== src/Database/Unread.antt =====
-- internal/database/schema.go: what marking an article does to the unread counts.
use goread.Base.{
  int_Eq, pair_Eq, int_eq_iff, ℕ, ◌+◌, ◌-◌, ◌≡◌, ◌≢◌, refl, sym, ◌∙◌, subst, ap, ◌<◌, Bool, true,
  false, ◌&&◌, ℤ, lookup, lookup-insert, if◌then◌else◌, ◌==◌, List, [], ◌∷◌, arith, Option-cases,
  inl, inr, ◌⊎◌, All,
}
use goread.Database.{Article}
use goread.Database.Articles.{Statuses, is_read_by, mark_row, unread_in}

-- The articles of a list have different ids, as the primary key ensures.
abbrev pub DistinctIds : List Article → Type 0
DistinctIds [] = Unit
DistinctIds (a ∷ l) = All (λ b. b.id ≢ a.id) l × DistinctIds l

abbrev pub Within : Article → List Article → Type 0
Within a [] = ⊥
Within a (b ∷ bs) = (b ≡ a) ⊎ Within a bs

-- The count after one article changed from `was_read` to `now_read`.
abbrev pub adjusted : Bool → Bool → ℕ → ℕ
adjusted was_read now_read n =
    if was_read then (if now_read then n else n + 1) else (if now_read then n - 1 else n)

module _ (m : Statuses) (user id : ℤ) (now_read : Bool) where
  pub is_read_by-mark_row :
      (u a : ℤ)
      → is_read_by (mark_row user id now_read m) u a
        ≡ (if user == u && id == a then now_read else is_read_by m u a)
  unfolding mark_row is_read_by
  is_read_by-mark_row u a = elim (Option-cases (lookup (user, id) m)) [
    | inl absent ↦ rw (absent, mark_row) (rw lookup-insert (ground arith))
    | inr (row, present) ↦ rw (present, mark_row) (rw lookup-insert (ground arith))
  ]

  -- Articles with other ids count as before.
  unread_in-mark_other :
      (since : Article → Bool) (f : ℤ) (l : List Article)
      → All (λ b. b.id ≢ id) l
      → unread_in (mark_row user id now_read m) since user f l ≡ unread_in m since user f l
  unfolding unread_in
  unread_in-mark_other since f [] h = refl
  unread_in-mark_other since f (b ∷ l) h =
      rw (unread_in-mark_other since f l h.1, is_read_by-mark_row)
        (ground (arith, h.0, int_eq_iff id b.id))

  -- An unread recent article counts.
  unread_in-pos :
      (since : Article → Bool) (a : Article) (l : List Article)
      → a.id ≡ id
      → Within a l
      → since a ≡ true
      → is_read_by m user id ≡ false
      → 0 < unread_in m since user a.feed_id l
  unfolding unread_in
  unread_in-pos since a [] e w recent unread = absurd w
  unread_in-pos since a (b ∷ l) e (inl here) recent unread =
      subst (λ x. 0 < unread_in m since user a.feed_id (x ∷ l)) (sym here)
        (ground (arith, int_eq_iff a.feed_id a.feed_id, ap (is_read_by m user) e))
  unread_in-pos since a (b ∷ l) e (inr later) recent unread =
      ground (arith, unread_in-pos since a l e later recent unread)

  Within-ne :
      (a : Article) (b : Article) (l : List Article)
      → All (λ x. x.id ≢ b.id) l
      → Within a l
      → a.id ≢ b.id
  Within-ne a b [] h w = absurd w
  Within-ne a b (x ∷ l) h (inl here) = subst (λ y. y.id ≢ b.id) here h.0
  Within-ne a b (x ∷ l) h (inr later) = Within-ne a b l h.1 later

  -- The count of an article's feed when the article is marked.
  pub unread_in-mark_row :
      (since : Article → Bool) (a : Article) (l : List Article)
      → a.id ≡ id
      → DistinctIds l
      → Within a l
      → since a ≡ true
      → unread_in (mark_row user id now_read m) since user a.feed_id l
        ≡ adjusted (is_read_by m user id) now_read (unread_in m since user a.feed_id l)
  unfolding unread_in
  unread_in-mark_row since a [] e d w recent = absurd w
  unread_in-mark_row since a (b ∷ l) e d (inl here) recent =
      let others =
        unread_in-mark_other since a.feed_id l
          (subst (λ x. All (λ y. y.id ≢ x) l) (ap (λ (x : Article). x.id) here ∙ e) d.0) in
      subst
        (λ x.
          unread_in (mark_row user id now_read m) since user a.feed_id (x ∷ l)
          ≡ adjusted (is_read_by m user id) now_read (unread_in m since user a.feed_id (x ∷ l)))
        (sym here)
        (rw (others, is_read_by-mark_row)
          (ground (
            arith,
            int_eq_iff a.feed_id a.feed_id,
            int_eq_iff user user,
            int_eq_iff id a.id,
            ap (is_read_by m user) e,
          )))
  unread_in-mark_row since a (b ∷ l) e d (inr later) recent =
      let differ = Within-ne a b l d.0 later in
      rw (unread_in-mark_row since a l e d.1 later recent, is_read_by-mark_row)
        (ground (arith, int_eq_iff id b.id, unread_in-pos since a l e later recent))

  pub unread_in-mark_ne :
      (since : Article → Bool) (f : ℤ) (a : Article) (l : List Article)
      → a.id ≡ id
      → DistinctIds l
      → Within a l
      → a.feed_id ≢ f
      → unread_in (mark_row user id now_read m) since user f l ≡ unread_in m since user f l
  unfolding unread_in
  unread_in-mark_ne since f a [] e d w ne = absurd w
  unread_in-mark_ne since f a (b ∷ l) e d (inl here) ne =
      let others =
        unread_in-mark_other since f l
          (subst (λ x. All (λ y. y.id ≢ x) l) (ap (λ (x : Article). x.id) here ∙ e) d.0) in
      rw others (ground (arith, int_eq_iff b.feed_id f, ap (λ (x : Article). x.feed_id) here))
  unread_in-mark_ne since f a (b ∷ l) e d (inr later) ne =
      let differ = Within-ne a b l d.0 later in
      rw (unread_in-mark_ne since f a l e d.1 later ne, is_read_by-mark_row)
        (ground (arith, int_eq_iff id b.id))

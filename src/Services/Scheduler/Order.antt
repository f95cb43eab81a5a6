-- ===== src/Services/Scheduler/Order.antt =====
-- internal/services/feed_scheduler.go: the schedule holds every feed once, in order.
use mathlib.Core.List.Perm
use mathlib.Core.List.{Perm}
use goread.Base.{ℕ, ◌≡◌, true, false, List, [], ◌∷◌, ℤ, arith, Bool-cases, inl, inr, All, map}
use goread.Database.{Feed}
use goread.Services.Scheduler.{
  FeedScheduler, Hash, ScheduledFeed, scheduled, is_earlier, insert_scheduled,
  create_staggered_schedule,
}

-- No feed stands above one that is due before it, or at the same time with a higher priority.
abbrev pub IsInOrder : List ScheduledFeed → Type 0
IsInOrder [] = Unit
IsInOrder (a ∷ l) = All (λ b. is_earlier b a ≡ false) l × IsInOrder l

not_earlier_trans :
    (a b c : ScheduledFeed)
    → is_earlier b a ≡ false
    → is_earlier c b ≡ false
    → is_earlier c a ≡ false
not_earlier_trans a b c h k = ground arith

earlier_asymm : (a b : ScheduledFeed) → is_earlier a b ≡ true → is_earlier b a ≡ false
earlier_asymm a b h = ground arith

All-insert :
    (P : ScheduledFeed → Type 0) (a : ScheduledFeed) (l : List ScheduledFeed)
    → P a
    → All P l
    → All P (insert_scheduled a l)
unfolding insert_scheduled
All-insert P a [] p h = (p, tt)
All-insert P a (b ∷ l) p h = elim (Bool-cases (is_earlier b a)) [
  | inl later ↦ rw later (h.0, All-insert P a l p h.1)
  | inr first ↦ rw first (p, h)
]

All-weaken :
    (P Q : ScheduledFeed → Type 0) (l : List ScheduledFeed)
    → ((s : ScheduledFeed) → P s → Q s)
    → All P l
    → All Q l
All-weaken P Q [] f h = tt
All-weaken P Q (s ∷ l) f h = (f s h.0, All-weaken P Q l f h.1)

insert-IsInOrder :
    (a : ScheduledFeed) (l : List ScheduledFeed) → IsInOrder l → IsInOrder (insert_scheduled a l)
unfolding insert_scheduled
insert-IsInOrder a [] h = (tt, tt)
insert-IsInOrder a (b ∷ l) h = elim (Bool-cases (is_earlier b a)) [
  | inl later ↦ rw later (
    All-insert (λ c. is_earlier c b ≡ false) a l (earlier_asymm b a later) h.0,
    insert-IsInOrder a l h.1,
  )
  | inr first ↦ rw first ((first, All-weaken _ _ l (λ c k. not_earlier_trans a b c first k) h.0), h)
]

insert-perm :
    (a : ScheduledFeed) (l : List ScheduledFeed)
    → Perm (map (λ s. s.feed) (insert_scheduled a l)) (a.feed ∷ map (λ s. s.feed) l)
unfolding insert_scheduled
insert-perm a [] = Perm.refl _
insert-perm a (b ∷ l) = elim (Bool-cases (is_earlier b a)) [
  | inl later ↦ rw later (
      Perm.trans (Perm.cons b.feed (insert-perm a l))
        (Perm.swap a.feed b.feed (map (λ s. s.feed) l)))
  | inr first ↦ rw first (Perm.refl _)
]

-- The schedule is in the order of time and then of priority, and holds each feed exactly once.
pub schedule-perm :
    (hash : Hash) (fs : FeedScheduler) (now : ℕ) (clock : ℤ → ℕ) (feeds : List Feed)
    → IsInOrder (create_staggered_schedule hash fs now clock feeds)
      × Perm (map (λ s. s.feed) (create_staggered_schedule hash fs now clock feeds)) feeds
unfolding create_staggered_schedule
schedule-perm hash fs now clock [] = (tt, Perm.refl [])
schedule-perm hash fs now clock (feed ∷ feeds) =
    let (order, same) = schedule-perm hash fs now clock feeds in
    let s = scheduled hash fs now (clock feed.id) feed in
    let rest = create_staggered_schedule hash fs now clock feeds in
    (insert-IsInOrder s rest order, Perm.trans (insert-perm s rest) (Perm.cons feed same))

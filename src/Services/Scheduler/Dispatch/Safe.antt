-- ===== src/Services/Scheduler/Dispatch/Safe.antt =====
-- internal/services/feed_scheduler.go: what holds in every state of the loop.
use mathlib.Core.List.{Perm, perm_middle}
use mathlib.Core.List.Perm
use goread.Base.{
  ℕ, suc, ◌≤◌, ◌≡◌, refl, sym, ap, subst, false, List, [], ◌∷◌, ◌++◌, length, map, All, arith,
  Bool-cases, inl, inr,
}
use goread.Database.{Feed}
use goread.Services.Scheduler.{ScheduledFeed}
use goread.Services.Scheduler.Dispatch.{
  Launched, Dispatch, begin, Move, tick, launch, finish, stop, leave, sleep, queue, left,
  is_blocked, apply, Reach, here, next,
}

abbrev pub feeds_of : List Launched → List Feed
feeds_of = map (λ l. l.feed)

abbrev pub feeds_to_do : List ScheduledFeed → List Feed
feeds_to_do = map (λ s. s.feed)

-- Every feed of the schedule, once: it waits, runs or is done.
abbrev pub all_feeds : Dispatch → List Feed
all_feeds d = feeds_to_do d.waiting ++ (feeds_of d.running ++ feeds_of d.done)

abbrev pub IsTimely : Launched → Type 0
IsTimely l = l.due ≤ l.at

pub record IsSafe (max_concurrent : ℕ) (feeds : List Feed) (d : Dispatch) : Type 0 where
  pub few : length d.running ≤ max_concurrent
  pub running_timely : All IsTimely d.running
  pub done_timely : All IsTimely d.done
  pub each_once : d.has_left ≡ false → Perm (all_feeds d) feeds

All-remove :
    (P : Launched → Type 0) (front : List Launched) (l : Launched) (back : List Launched)
    → All P (front ++ l ∷ back)
    → P l × All P (front ++ back)
All-remove P [] l back h = h
All-remove P (x ∷ front) l back h =
    let (p, rest) = All-remove P front l back h.1 in (p, (h.0, rest))

-- A feed that moves from the goroutines to those that are done.
finished-perm :
    (front : List Launched) (l : Launched) (back done : List Launched)
    → Perm
        (feeds_of (front ++ back) ++ feeds_of (l ∷ done))
        (feeds_of (front ++ l ∷ back) ++ feeds_of done)
finished-perm [] l back done = perm_middle (feeds_of back) (feeds_of done)
finished-perm (x ∷ front) l back done = Perm.cons x.feed (finished-perm front l back done)

pub length-removed :
    (front : List Launched) (l : Launched) (back : List Launched)
    → length (front ++ l ∷ back) ≡ suc (length (front ++ back))
length-removed [] l back = refl
length-removed (x ∷ front) l back = ap suc (length-removed front l back)

left-IsSafe :
    (max_concurrent : ℕ) (feeds : List Feed) (d : Dispatch)
    → IsSafe max_concurrent feeds d
    → IsSafe max_concurrent feeds (left d)
left-IsSafe n feeds d h = record {
  few = h.few;
  running_timely = h.running_timely;
  done_timely = h.done_timely;
  each_once = λ stays. cc;
}

apply-IsSafe :
    (max_concurrent : ℕ) (feeds : List Feed) (d : Dispatch) (m : Move max_concurrent d)
    → IsSafe max_concurrent feeds d
    → IsSafe max_concurrent feeds (apply d m)
unfolding apply
apply-IsSafe n feeds d tick h = record {
  few = h.few;
  running_timely = h.running_timely;
  done_timely = h.done_timely;
  each_once = h.each_once;
}
apply-IsSafe n feeds d (sleep _ _ _ _ _ _) h = record {
  few = h.few;
  running_timely = h.running_timely;
  done_timely = h.done_timely;
  each_once = h.each_once;
}
apply-IsSafe n feeds d (queue _ _ _ _ _ _) h = record {
  few = h.few;
  running_timely = h.running_timely;
  done_timely = h.done_timely;
  each_once = h.each_once;
}
apply-IsSafe n feeds d (launch s rest first due room) h = record {
  few = omega (arith, room);
  running_timely = (due, h.running_timely);
  done_timely = h.done_timely;
  each_once = λ stays.
      Perm.trans (perm_middle (feeds_to_do rest) (feeds_of d.running ++ feeds_of d.done)) (
        subst (λ w. Perm (feeds_to_do w ++ (feeds_of d.running ++ feeds_of d.done)) feeds) first
          (h.each_once stays));
}
apply-IsSafe n feeds d (finish front l back found) h =
    let (timely, rest_timely) =
      All-remove IsTimely front l back (subst (All IsTimely) found h.running_timely) in
    record {
      few = omega (arith, h.few, ap length found, length-removed front l back);
      running_timely = rest_timely;
      done_timely = (timely, h.done_timely);
      each_once = λ stays.
          Perm.trans (Perm.append_left (feeds_to_do d.waiting) (finished-perm front l back d.done))
            (subst (λ r. Perm (feeds_to_do d.waiting ++ (feeds_of r ++ feeds_of d.done)) feeds)
              found (h.each_once stays));
    }
apply-IsSafe n feeds d stop h = elim (Bool-cases (is_blocked d.place n d)) [
  | inl blocked ↦ rw blocked (left-IsSafe n feeds d h)
  | inr free ↦ rw free (record {
    few = h.few;
    running_timely = h.running_timely;
    done_timely = h.done_timely;
    each_once = h.each_once;
  })
]
apply-IsSafe n feeds d (leave s rest first stopped on_the_way) h = left-IsSafe n feeds d h

append-empty : (l : List Feed) → l ++ [] ≡ l
append-empty [] = refl
append-empty (f ∷ l) = ap (◌∷◌ f) (append-empty l)

-- In every state that the loop can reach, in any interleaving, at most `max_concurrent` updates run, no
-- update was started before its time, and, unless the loop was stopped early, each feed of the schedule
-- waits, runs or is done exactly once.
pub reach-IsSafe :
    (max_concurrent now : ℕ) (l : List ScheduledFeed) (d : Dispatch)
    → Reach max_concurrent (begin now l) d
    → IsSafe max_concurrent (feeds_to_do l) d
reach-IsSafe n now l _ here = record {
  few = omega arith;
  running_timely = tt;
  done_timely = tt;
  each_once = λ stays.
      subst (λ x. Perm x (feeds_to_do l)) (sym (append-empty (feeds_to_do l)))
        (Perm.refl (feeds_to_do l));
}
reach-IsSafe n now l _ (next d before m) =
    apply-IsSafe n (feeds_to_do l) d m (reach-IsSafe n now l d before)

-- ===== src/Services/Scheduler/Dispatch/Live.antt =====
-- internal/services/feed_scheduler.go: the loop cannot get stuck.
use mathlib.Core.List.{Perm}
use goread.Base.{
  ℕ, zero, suc, ◌+◌, ◌-◌, ◌*◌, ◌≤◌, ◌<◌, ◌≡◌, refl, ◌∙◌, ap, false, List, [], ◌∷◌, ◌++◌, length,
  All, arith, ◌⊎◌, inl, inr, Bool-cases,
}
use goread.Database.{Feed}
use goread.Services.Scheduler.{ScheduledFeed}
use goread.Services.Scheduler.Dispatch.{
  Launched, Dispatch, begin, tick, launch, finish, stop, leave, sleep, queue, is_blocked, apply,
  Reach, here, next,
}
use goread.Services.Scheduler.Dispatch.Safe.{feeds_of, feeds_to_do, IsTimely, reach-IsSafe}

-- What is left to do: a feed is still to be started and finished, or to be finished.
abbrev pub work : Dispatch → ℕ
work d = 2 * length d.waiting + length d.running

-- The loop leaves early only once it was stopped.
left-is_stopped :
    (max_concurrent now : ℕ) (l : List ScheduledFeed) (d : Dispatch)
    → Reach max_concurrent (begin now l) d
    → d.is_stopped ≡ false
    → d.has_left ≡ false
unfolding apply
left-is_stopped n now l _ here going = refl
left-is_stopped n now l _ (next d before tick) going = left-is_stopped n now l d before going
left-is_stopped n now l _ (next d before (sleep _ _ _ _ _ _)) going =
    left-is_stopped n now l d before going
left-is_stopped n now l _ (next d before (queue _ _ _ _ _ _)) going =
    left-is_stopped n now l d before going
left-is_stopped n now l _ (next d before (launch _ _ _ _ _)) going =
    left-is_stopped n now l d before going
left-is_stopped n now l _ (next d before (finish _ _ _ _)) going =
    left-is_stopped n now l d before going
left-is_stopped n now l _ (next d before stop) going =
    absurd (ground (arith, going, Bool-cases (is_blocked d.place n d)))
left-is_stopped n now l _ (next d before (leave _ _ _ _ _)) going = cc

-- The clock runs on for `k` readings.
later :
    (max_concurrent : ℕ) (start d : Dispatch) (k : ℕ)
    → Reach max_concurrent start d
    → (d' : Dispatch) × Reach max_concurrent start d'
      × (d'.time ≡ k + d.time)
      × (d'.waiting ≡ d.waiting)
      × (d'.running ≡ d.running)
      × (d'.has_left ≡ d.has_left)
unfolding apply
later n start d zero path = (d, path, omega arith, refl, refl, refl)
later n start d (suc k) path =
    let (d', path', time, waiting, running, left) = later n start d k path in
    (
      apply {max_concurrent = n} d' tick,
      next d' path' tick,
      omega (arith, time),
      waiting,
      running,
      left,
    )

-- A state in which nothing waits and nothing runs.
record IsFinished (max_concurrent : ℕ) (start : Dispatch) : Type 0 where
  last : Dispatch
  path : Reach max_concurrent start last
  none_waits : last.waiting ≡ []
  none_runs : last.running ≡ []
  stays : last.has_left ≡ false

-- Where something is left to do, something can be done.
progress :
    (max_concurrent : ℕ) (start d : Dispatch)
    → 0 < max_concurrent
    → 0 < work d
    → d.has_left ≡ false
    → Reach max_concurrent start d
    → (d' : Dispatch) × Reach max_concurrent start d' × (work d' < work d) × (d'.has_left ≡ false)
unfolding apply
progress n start d some_place busy stays path = step d d.waiting d.running refl refl path stays busy
  where
    step :
        (d : Dispatch) (waiting : List ScheduledFeed) (running : List Launched)
        → d.waiting ≡ waiting
        → d.running ≡ running
        → Reach n start d
        → d.has_left ≡ false
        → 0 < work d
        → (d' : Dispatch) × Reach n start d' × (work d' < work d) × (d'.has_left ≡ false)
    step d [] [] w r path stays busy = absurd (omega (arith, ap length w, ap length r, busy))
    step d waiting (l ∷ back) w r path stays busy =
        let m = finish [] l back r in (apply d m, next d path m, omega (arith, ap length r), stays)
    step d (s ∷ rest) [] w r path stays busy =
        let (d', path', time, waiting, running, left) =
          later n start d (s.next_update - d.time) path in
        let m =
          launch s rest (waiting ∙ w) (omega (arith, time))
            (omega (arith, some_place, ap length running, ap length r)) in
        (apply d' m, next d' path' m, omega (arith, ap length w, ap length running), left ∙ stays)

no_length {ℓ} : {A : Type ℓ} (l : List A) → length l ≡ 0 → l ≡ []
no_length [] h = refl
no_length (x ∷ l) h = absurd (omega (arith, h))

zero_or_more : (n : ℕ) → (n ≡ 0) ⊎ (0 < n)
zero_or_more zero = inl refl
zero_or_more (suc n) = inr (omega arith)

finishes :
    (max_concurrent : ℕ) (start d : Dispatch) (fuel : ℕ)
    → 0 < max_concurrent
    → work d ≤ fuel
    → d.has_left ≡ false
    → Reach max_concurrent start d
    → IsFinished max_concurrent start
finishes n start d zero some_place enough stays path = record {
  last = d;
  path = path;
  none_waits = no_length d.waiting (omega (arith, enough));
  none_runs = no_length d.running (omega (arith, enough));
  stays = stays;
}
finishes n start d (suc fuel) some_place enough stays path = elim (zero_or_more (work d)) [
  | inl nothing ↦ record {
    last = d;
    path = path;
    none_waits = no_length d.waiting (omega (arith, nothing));
    none_runs = no_length d.running (omega (arith, nothing));
    stays = stays;
  }
  | inr busy ↦
      let (d', path', less, stays') = progress n start d some_place busy stays path in
      finishes n start d' fuel some_place (omega (arith, less, enough)) stays' path'
]

-- From every state that the loop reaches, in any interleaving, before it is stopped, it can go on to a
-- state in which nothing waits and nothing runs, every feed of the schedule was updated exactly once,
-- and none before its time; `max_concurrent` is positive.
pub reach-completes :
    (max_concurrent now : ℕ) (l : List ScheduledFeed) (d : Dispatch)
    → 0 < max_concurrent
    → d.is_stopped ≡ false
    → Reach max_concurrent (begin now l) d
    → (last : Dispatch) × Reach max_concurrent (begin now l) last
      × (last.waiting ≡ [])
      × (last.running ≡ [])
      × Perm (feeds_of last.done) (feeds_to_do l)
      × All IsTimely last.done
reach-completes n now l d some_place going path =
    let stays = left-is_stopped n now l d path going in
    let f = finishes n (begin now l) d (work d) some_place (omega arith) stays path in
    let safe = reach-IsSafe n now l f.last f.path in
    (
      f.last,
      f.path,
      f.none_waits,
      f.none_runs,
      only_done f.last.waiting f.last.running (feeds_of f.last.done) (feeds_to_do l) f.none_waits
          f.none_runs (safe.each_once f.stays),
      safe.done_timely,
    )
  where
    only_done :
        (waiting : List ScheduledFeed) (running : List Launched) (done all : List Feed)
        → waiting ≡ []
        → running ≡ []
        → Perm (feeds_to_do waiting ++ (feeds_of running ++ done)) all
        → Perm done all
    only_done [] [] done all w r p = p
    only_done (s ∷ l) running done all w r p = cc
    only_done [] (x ∷ l) done all w r p = cc

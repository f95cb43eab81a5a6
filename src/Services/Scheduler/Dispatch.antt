-- ===== src/Services/Scheduler/Dispatch.antt =====
-- internal/services/feed_scheduler.go: processScheduledFeeds as a step relation. The loop starts one
-- goroutine per feed, the channel `semaphore` admits as many as its capacity, and `Stop` closes the
-- channel that ends the loop.
pub mod Safe
pub mod Live
use goread.Base.{
  Option, none, some, ℤ, ℕ, suc, ◌≤◌, ◌<◌, ◌≡◌, Bool, true, false, List, [], ◌∷◌, ◌++◌, length, map,
  ltb, leb, if◌then◌else◌,
}
use goread.Database.{Db, Feed, DbError, Result, ok, err}
use goread.Services.Scheduler.{
  ScheduledFeed, Hash, FeedScheduler, get_all_unique_feeds, create_staggered_schedule,
}

-- A goroutine with the time at which it was started.
pub record Launched : Type 0 where
  pub feed : Feed
  pub due : ℕ
  pub at : ℕ

-- Where the loop is: on its way, or in the select that waits for the time of the next feed, or in the one
-- that waits for a place of the semaphore.
pub data Place : Type 0 where
  walking asleep queued : Place

-- `running` holds a place of the semaphore per goroutine; `has_left` says that the loop returned early.
pub record Dispatch : Type 0 where
  pub time : ℕ
  pub place : Place
  pub waiting : List ScheduledFeed
  pub running : List Launched
  pub done : List Launched
  pub is_stopped : Bool
  pub has_left : Bool

abbrev pub launched_at : ℕ → ScheduledFeed → Launched
launched_at now s = record { feed = s.feed; due = s.next_update; at = now }

abbrev pub begin : ℕ → List ScheduledFeed → Dispatch
begin now scheduled_feeds = record {
  time = now;
  place = walking;
  waiting = scheduled_feeds;
  running = [];
  done = [];
  is_stopped = false;
  has_left = false;
}

-- Whether the loop waits in a select that no event but `Stop` has ended yet.
unfoldable pub is_blocked : Place → ℕ → Dispatch → Bool
is_blocked walking max_concurrent d = false
is_blocked asleep max_concurrent d = elim d.waiting [
  | [] ↦ false
  | s ∷ _ ↦ ltb d.time s.next_update
]
is_blocked queued max_concurrent d = leb max_concurrent (length d.running)

abbrev pub is_queued : Place → Bool
is_queued queued = true
is_queued _ = false

-- One step of the loop, of a goroutine, of the clock, or of the caller of `Stop`. The loop reads the clock
-- and enters the select of the timer in one step. It enters a select, to wait, only where no case is ready;
-- a loop that was given a place of the semaphore starts the feed, also when it is stopped by then.
pub data Move (max_concurrent : ℕ) (d : Dispatch) : Type 0 where
  tick : Move max_concurrent d
  sleep :
      (s : ScheduledFeed) (rest : List ScheduledFeed)
      → d.waiting ≡ s ∷ rest
      → d.time < s.next_update
      → d.place ≡ walking
      → d.is_stopped ≡ false
      → Move max_concurrent d
  queue :
      (s : ScheduledFeed) (rest : List ScheduledFeed)
      → d.waiting ≡ s ∷ rest
      → s.next_update ≤ d.time
      → max_concurrent ≤ length d.running
      → d.is_stopped ≡ false
      → Move max_concurrent d
  launch :
      (s : ScheduledFeed) (rest : List ScheduledFeed)
      → d.waiting ≡ s ∷ rest
      → s.next_update ≤ d.time
      → length d.running < max_concurrent
      → Move max_concurrent d
  finish :
      (front : List Launched) (l : Launched) (back : List Launched)
      → d.running ≡ front ++ l ∷ back
      → Move max_concurrent d
  stop : Move max_concurrent d
  leave :
      (s : ScheduledFeed) (rest : List ScheduledFeed)
      → d.waiting ≡ s ∷ rest
      → d.is_stopped ≡ true
      → is_queued d.place ≡ false
      → Move max_concurrent d

abbrev pub left : Dispatch → Dispatch
left d = record d { waiting = []; place = walking; is_stopped = true; has_left = true }

-- `Stop` ends the select in which the loop waits: the loop leaves.
unfoldable pub apply : {max_concurrent : ℕ} (d : Dispatch) → Move max_concurrent d → Dispatch
apply d tick = record d { time = suc d.time }
apply d (sleep _ _ _ _ _ _) = record d { place = asleep }
apply d (queue _ _ _ _ _ _) = record d { place = queued }
apply d (launch s rest _ _ _) = record d {
  place = walking;
  waiting = rest;
  running = launched_at d.time s ∷ d.running;
}
apply d (finish front l back _) = record d { running = front ++ back; done = l ∷ d.done }
apply {max_concurrent} d stop =
    if is_blocked d.place max_concurrent d then left d else record d { is_stopped = true }
apply d (leave _ _ _ _ _) = left d

-- The states that any sequence of steps leads to.
pub data Reach (max_concurrent : ℕ) (start : Dispatch) : Dispatch → Type 0 where
  here : Reach max_concurrent start start
  next :
      (d : Dispatch)
      → Reach max_concurrent start d
      → (m : Move max_concurrent d) → Reach max_concurrent start (apply d m)

-- `RefreshFeedsStaggered`: the state in which the loop starts, or none where there is no feed.
unfoldable pub refresh_feeds_staggered :
    Hash → FeedScheduler → ℕ → (ℤ → ℕ) → Db → Result DbError (Option Dispatch)
refresh_feeds_staggered hash fs now clock db = elim (get_all_unique_feeds db) [
  | err e ↦ err e
  | ok [] ↦ ok none
  | ok feeds ↦ ok (some (begin now (create_staggered_schedule hash fs now clock feeds)))
]

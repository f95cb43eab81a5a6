-- ===== src/Services/Scheduler/Tests.antt =====
-- Small schedules.
use mathlib.Core.List.{Perm}
use goread.Base.{
  ℕ, ◌≤◌, ◌<◌, ◌+◌, ◌≡◌, refl, true, false, some, none, List, [], ◌∷◌, ℤ, pos, All, map, arith, max,
  since, wrap, ◌+ℤ◌, ◌-ℤ◌,
}
use goread.Database.{Feed}
use goread.Services.Scheduler.{
  FeedScheduler, ScheduledFeed, Hash, new_feed_scheduler, create_staggered_schedule,
  calculate_staggered_delay, insert_scheduled, calculate_feed_priority,
}
use goread.Services.Scheduler.Delay.{delay-bounds}
use goread.Services.Scheduler.Dispatch.{
  Dispatch, walking, launched_at, begin, tick, launch, apply, Reach, here, next,
}
use goread.Services.Scheduler.Dispatch.Safe.{feeds_of, feeds_to_do, IsSafe, reach-IsSafe, IsTimely}
use goread.Services.Scheduler.Dispatch.Live.{reach-completes}
use goread.Services.Scheduler.Lifecycle.{
  Lifecycle, start, stop, react_all, react, start_event, return_event, stop-restart,
}

abbrev feed_with_id : ℤ → ℕ → Feed
feed_with_id i fetched = record {
  id = i;
  title = "";
  url = "";
  description = "";
  created_at = 1;
  updated_at = 1;
  last_fetch = fetched;
  last_checked = fetched;
  last_had_new_content = 0;
  average_update_interval = pos 0;
  etag = "";
  last_modified = "";
}

abbrev default_scheduler : FeedScheduler
default_scheduler = record {
  update_window = 21600000000000;
  min_interval = 1800000000000;
  max_concurrent = 10;
  cleanup_interval = 3600000000000;
}

defaults :
    new_feed_scheduler (record {
      update_window = pos 0;
      min_interval = pos 0;
      max_concurrent = pos 0;
      cleanup_interval = pos 0;
    })
    ≡ default_scheduler
unfolding new_feed_scheduler
defaults = refl

abbrev same_hash : Hash
same_hash i = 4294967295

delay-bounds_example :
    (delay : ℕ) × (calculate_staggered_delay same_hash default_scheduler 63800009000000000000
        (pos 1)
        63800008999900000000
      ≡ pos delay)
    × (63800008999900000000 + 1800000000000 ≤ 63800009000000000000 + delay)
    × (63800009000000000000 + delay
        < max 63800009000000000000 (63800008999900000000 + 1800000000000) + 4294967296)
delay-bounds_example =
    delay-bounds same_hash default_scheduler 63800009000000000000 (pos 1) 63800008999900000000
      (omega arith) (omega arith) (omega arith) (omega arith)

abbrev two_feeds : List Feed
two_feeds = feed_with_id (pos 1) 9000000000000000 ∷ feed_with_id (pos 2) 1000 ∷ []

-- The feed that was fetched just now comes last.
recent_last :
    map
      (λ s. s.feed)
      (create_staggered_schedule same_hash default_scheduler 9000000000000000
        (λ i. 9000000000000000)
        two_feeds)
    ≡ feed_with_id (pos 2) 1000 ∷ feed_with_id (pos 1) 9000000000000000 ∷ []
unfolding create_staggered_schedule insert_scheduled calculate_staggered_delay
    calculate_feed_priority since wrap ◌+ℤ◌ ◌-ℤ◌
recent_last = refl

abbrev due_at : ℕ → ℤ → ScheduledFeed
due_at t i = record { feed = feed_with_id i 0; next_update = t; priority = 50 }

abbrev pair_due : List ScheduledFeed
pair_due = due_at 3 (pos 1) ∷ due_at 5 (pos 2) ∷ []

-- The first feed was started, the second waits for its time and for the one place.
abbrev one_started : Dispatch
one_started = record {
  time = 4;
  waiting = due_at 5 (pos 2) ∷ [];
  running = launched_at 4 (due_at 3 (pos 1)) ∷ [];
  done = [];
  place = walking;
  is_stopped = false;
  has_left = false;
}

abbrev ticked : Dispatch
ticked = record (begin 3 pair_due) { time = 4 }

one_started-Reach : Reach 1 (begin 3 pair_due) one_started
unfolding apply
one_started-Reach =
    next ticked (next (begin 3 pair_due) here tick)
      (launch (due_at 3 (pos 1)) (due_at 5 (pos 2) ∷ []) refl (omega arith) (omega arith))

reach-IsSafe_example : IsSafe 1 (feeds_to_do pair_due) one_started
reach-IsSafe_example = reach-IsSafe 1 3 pair_due one_started one_started-Reach

reach-completes_example :
    (last : Dispatch) × Reach 1 (begin 3 pair_due) last
    × (last.waiting ≡ [])
    × (last.running ≡ [])
    × Perm (feeds_of last.done) (feeds_to_do pair_due)
    × All IsTimely last.done
reach-completes_example =
    reach-completes 1 3 pair_due one_started (omega arith) refl one_started-Reach

abbrev running_once : Lifecycle
running_once = record { is_running = true; is_closed = false; loops = 2 }

abbrev stopped_once : Lifecycle
stopped_once = record { is_running = false; is_closed = true; loops = 0 }

abbrev running_again : Lifecycle
running_again = record { is_running = true; is_closed = true; loops = 2 }

stop-restart_example :
    (react_all stopped_once (start_event ∷ return_event ∷ return_event ∷ [])
      ≡ some (record { is_running = true; is_closed = true; loops = 0 }))
    × (stop running_again ≡ none)
stop-restart_example =
    stop-restart running_once stopped_once running_again (start_event ∷ []) refl
      (unfold stop in refl) (unfold react_all react start in refl) refl

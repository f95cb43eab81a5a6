-- ===== src/Services/Scheduler/Delay.antt =====
-- internal/services/feed_scheduler.go: how far the updates are spread, and their priorities.
use goread.Base.{
  ℕ, ◌+◌, ◌-◌, ◌≤◌, ◌<◌, ◌≡◌, ℤ, pos, ltb_ℤ, wrap, ◌+ℤ◌, ◌-ℤ◌, since, arith, int_max, Bool-cases,
  inl, inr, max, ap,
}
use goread.Database.{Feed}
use goread.Services.Scheduler.{
  FeedScheduler, Hash, calculate_staggered_delay, calculate_feed_priority, remainder,
}

remainder-le : (n d : ℕ) → remainder n d ≤ n
remainder-le n d = omega arith

since-elapsed :
    (now last : ℕ) → last ≤ now → now - last < int_max → since now last ≡ pos (now - last)
unfolding since
since-elapsed now last later early = ground arith

wrap-difference : (a b : ℕ) → b ≤ a → a ≤ int_max → wrap (pos a -ℤ pos b) ≡ pos (a - b)
unfolding ◌-ℤ◌ wrap
wrap-difference a b less small = ground arith

wrap-sum : (a b : ℕ) → a + b ≤ int_max → wrap (pos a +ℤ pos b) ≡ pos (a + b)
unfolding ◌+ℤ◌ wrap
wrap-sum a b small = ground arith

-- What the delay is made of.
delay_cases :
    (hash : Hash) (fs : FeedScheduler) (now : ℕ) (feed_id : ℤ) (last_fetch : ℕ)
    → hash feed_id < 4294967296
    → last_fetch ≤ now
    → now - last_fetch < int_max
    → fs.min_interval < 8835000000000000000
    → calculate_staggered_delay hash fs now feed_id last_fetch
      ≡ pos (remainder (hash feed_id) fs.update_window + (fs.min_interval - (now - last_fetch)))
unfolding calculate_staggered_delay
delay_cases hash fs now feed_id last_fetch small later early short =
    let spread = remainder (hash feed_id) fs.update_window in
    let below = remainder-le (hash feed_id) fs.update_window in
    rw (since-elapsed now last_fetch later early)
      (elim (Bool-cases (ltb_ℤ (pos (now - last_fetch)) (pos fs.min_interval))) [
        | inl recent ↦ rw recent (
            rw (wrap-difference fs.min_interval (now - last_fetch) (ground arith) (omega arith))
              (wrap-sum spread (fs.min_interval - (now - last_fetch)) (omega (arith, below))))
        | inr old ↦ rw old (ap pos (ground arith))
      ])

-- A feed is due no earlier than its minimum interval after its last fetch, and less than 4.3 seconds
-- after that time or now, whichever is later, however long the update window is: the 32-bit hash is
-- taken as a number of nanoseconds. The clock has not gone back, less than 292 years have passed since
-- the last fetch, and the minimum interval is below 280 years.
pub delay-bounds :
    (hash : Hash) (fs : FeedScheduler) (now : ℕ) (feed_id : ℤ) (last_fetch : ℕ)
    → hash feed_id < 4294967296
    → last_fetch ≤ now
    → now - last_fetch < int_max
    → fs.min_interval < 8835000000000000000
    → (delay : ℕ) × (calculate_staggered_delay hash fs now feed_id last_fetch ≡ pos delay)
      × (last_fetch + fs.min_interval ≤ now + delay)
      × (now + delay < max now (last_fetch + fs.min_interval) + 4294967296)
delay-bounds hash fs now feed_id last_fetch small later early short =
    let below = remainder-le (hash feed_id) fs.update_window in
    (
      remainder (hash feed_id) fs.update_window + (fs.min_interval - (now - last_fetch)),
      delay_cases hash fs now feed_id last_fetch small later early short,
      omega (arith, below),
      omega (arith, below),
    )

-- The priority of a feed lies between 30 and 80.
priority-bounds :
    (fs : FeedScheduler) (now : ℕ) (feed : Feed)
    → (30 ≤ calculate_feed_priority fs now feed) × (calculate_feed_priority fs now feed ≤ 80)
unfolding calculate_feed_priority
priority-bounds fs now feed = (ground arith, ground arith)

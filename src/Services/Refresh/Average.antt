-- ===== src/Services/Refresh/Average.antt =====
-- internal/services/feed_service.go: the running average of `updateFeedTracking` and
-- `updateFeedAfterRefreshSuccess`.
use goread.Base.{
  ℕ, ◌+◌, ◌*◌, ◌-◌, ◌/◌, ◌≤◌, ◌<◌, ◌≡◌, ◌≢◌, true, pos, arith, min, max, wrap, div_ℕ, mul_ℕ, since,
  int_max, ◌+ℤ◌, ap,
}
use goread.Database.{Feed}
use goread.Services.Refresh.{weighted, seconds_since, next_average, tracking}

abbrev largest : ℕ
largest = 900000000000000000

weighted-pos :
    (a i : ℕ) → a ≤ largest → i ≤ largest → weighted (pos a) (pos i) ≡ pos ((a * 7 + i * 3) / 10)
unfolding weighted wrap ◌+ℤ◌ div_ℕ mul_ℕ
weighted-pos a i ha hi = ground arith

seconds_since-pos :
    (now t : ℕ) → t ≤ now → now - t ≤ int_max → seconds_since now t ≡ pos ((now - t) / 1000000000)
unfolding seconds_since since div_ℕ
seconds_since-pos now t order range = ground arith

-- When new content is found, at a time not before the last new content, the new average lies between
-- the old one and the interval since then, in whole seconds; the feed has an average already, no larger
-- than 9 * 10 ^ 17 seconds.
pub next_average-between :
    (feed : Feed) (now a : ℕ)
    → feed.last_had_new_content ≢ 0
    → feed.last_had_new_content ≤ now
    → now - feed.last_had_new_content ≤ int_max
    → 0 < a
    → a ≤ largest
    → feed.average_update_interval ≡ pos a
    → let i = (now - feed.last_had_new_content) / 1000000000 in
      (a' : ℕ) × (tracking feed now true ≡ (now, pos a')) × (min a i ≤ a') × (a' ≤ max a i)
unfolding tracking next_average
next_average-between feed now a seen order range positive small e =
    let i = (now - feed.last_had_new_content) / 1000000000 in
    let s = seconds_since-pos now feed.last_had_new_content order range in
    (
      (a * 7 + i * 3) / 10,
      ground (
        arith,
        s,
        weighted-pos a i small (omega arith),
        ap (λ z. weighted z (pos i)) e,
        ap (weighted feed.average_update_interval) s,
      ),
      omega arith,
      omega arith,
    )

-- ===== src/Services/Refresh/Due.antt =====
-- internal/services/feed_service.go: when `shouldCheckFeed` lets a feed be checked.
use goread.Base.{
  ℕ, ◌*◌, ◌-◌, ◌/◌, ◌≤◌, ◌<◌, ◌≡◌, ◌≢◌, true, false, pos, leb, ltb_ℤ, arith, ◌⊎◌, wrap, div_ℕ,
  mul_ℕ, since, int_max, ap,
}
use goread.Database.{Feed}
use goread.Services.Refresh.{minute, hour, default_due, half_interval, should_check_feed}

since-pos : (t u : ℕ) → u ≤ t → t - u ≤ int_max → since t u ≡ pos (t - u)
unfolding since
since-pos t u h bound = ground arith

half_interval-pos : (n : ℕ) → n ≤ 9000000000 → half_interval (pos n) ≡ pos (n * 1000000000 / 2)
unfolding half_interval wrap div_ℕ mul_ℕ
half_interval-pos n h = ground arith

-- A feed that was checked, at a time that is not later than `now` and within the range of a duration.
module _ (feed : Feed) (now : ℕ) (checked : feed.last_checked ≢ 0) (order : feed.last_checked ≤ now)
    (range : now - feed.last_checked ≤ int_max) where
  -- A feed with no history of updates is checked again after six hours at the latest, and never
  -- within thirty minutes.
  pub no_history-bounds :
      ltb_ℤ (pos 0) feed.average_update_interval ≡ false
      → ((should_check_feed feed now ≡ true) ⊎ (now - feed.last_checked < 6 * hour))
        × ((should_check_feed feed now ≡ false) ⊎ (30 * minute ≤ now - feed.last_checked))
  unfolding should_check_feed default_due
  no_history-bounds h = (
    ground (arith, since-pos now feed.last_checked order range),
    ground (arith, since-pos now feed.last_checked order range),
  )

  -- A feed with an average update interval of `n` seconds, below 285 years, is checked again exactly
  -- when half of that interval is over.
  pub history-exact :
      (n : ℕ)
      → 0 < n
      → n ≤ 9000000000
      → feed.average_update_interval ≡ pos n
      → should_check_feed feed now ≡ leb (n * 1000000000 / 2) (now - feed.last_checked)
  unfolding should_check_feed
  history-exact n h small e = ground (
    arith,
    since-pos now feed.last_checked order range,
    half_interval-pos n small,
    ap half_interval e,
  )

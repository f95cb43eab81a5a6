-- ===== src/Services/Subscription/Limits.antt =====
-- internal/services/subscription_service.go: the check that guards adding a feed, against what the
-- user is told, and the bound that it keeps.
use goread.Base.{
  int_Eq, string_Eq, pair_Eq, ℕ, ◌≡◌, ◌≢◌, Bool, true, false, some, ℤ, pos, lookup, ltb_ℤ, ◌==◌,
  arith, ◌⊎◌,
}
use goread.Database.{Db, User, Result, ok, err}
use goread.Database.Feeds.{get_user_feed_count}
use goread.Database.Users.{is_user_subscription_active, get_user_by_id}
use goread.Services.Subscription.{
  free_trial_feed_limit, check_trial_limit, check_user, can_user_add_feed, SubscriptionInfo,
  with_limit, with_days, info_of, get_user_subscription_info,
}

abbrev pub is_ok {ℓ} : {E : Type 0} {A : Type ℓ} → Result E A → Bool
is_ok (ok _) = true
is_ok (err _) = false

-- A user is told that feeds can be added exactly when the check lets one be added. The subscription
-- system is on, the driver answers, the user exists, is an administrator, or pays, or has free months, or is on
-- trial, and the clock does not read the very instant at which the trial ends.
pub info-can_add_feeds :
    (now : ℕ) (user_id : ℤ) (db : Db) (user : User) (info : SubscriptionInfo)
    → db.up ≡ true
    → lookup user_id db.users ≡ some user
    → (user.is_admin ≡ true)
      ⊎ ((user.subscription_status == "active") ≡ true)
      ⊎ (ltb_ℤ (pos 0) user.free_months_remaining ≡ true)
      ⊎ ((user.subscription_status == "trial") ≡ true)
    → now ≢ user.trial_ends_at
    → get_user_subscription_info true now user_id db ≡ ok info
    → info.can_add_feeds ≡ is_ok (can_user_add_feed true now user_id db)
unfolding get_user_subscription_info can_user_add_feed info_of with_limit with_days check_user
    check_trial_limit is_user_subscription_active get_user_by_id get_user_feed_count
info-can_add_feeds now user_id db user info up found kind instant told = ground arith

-- A user with any other status, such as "cancelled" or "expired", who has no free months and is no
-- administrator, is told that no feed can be added, while the check lets any number be added.
pub other_status-unlimited :
    (now : ℕ) (user_id : ℤ) (db : Db) (user : User) (info : SubscriptionInfo)
    → db.up ≡ true
    → lookup user_id db.users ≡ some user
    → user.is_admin ≡ false
    → ltb_ℤ (pos 0) user.free_months_remaining ≡ false
    → (user.subscription_status == "active") ≡ false
    → (user.subscription_status == "trial") ≡ false
    → get_user_subscription_info true now user_id db ≡ ok info
    → (info.can_add_feeds ≡ false)
      × (info.feed_limit ≡ pos free_trial_feed_limit)
      × (can_user_add_feed true now user_id db ≡ ok tt)
unfolding get_user_subscription_info can_user_add_feed info_of with_limit with_days check_user
    check_trial_limit is_user_subscription_active get_user_by_id get_user_feed_count
other_status-unlimited now user_id db user info up found plain no_months unpaid no_trial told =
    ground arith

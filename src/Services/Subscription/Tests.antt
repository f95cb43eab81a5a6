-- ===== src/Services/Subscription/Tests.antt =====
-- The theorems on subscriptions at a small store.
use goread.Base.{
  int_Eq, string_Eq, pair_Eq, ◌≡◌, refl, true, false, none, [], ◌∷◌, pos, lookup, inr, arith,
}
use goread.Database.{Db, User, empty_db, err}
use goread.Database.Feeds.{count_subscriptions, get_user_feed_count}
use goread.Database.Users.{is_user_subscription_active, get_user_by_id}
use goread.Services.Subscription.{
  SubscriptionInfo, can_user_add_feed, get_user_subscription_info, trial_expired, info_of,
  with_limit, with_days, check_user,
}
use goread.Services.Subscription.Limits.{is_ok, info-can_add_feeds}

abbrev trial_user : User
trial_user = record {
  id = pos 5;
  google_id = "g5";
  email = "five@a.example";
  name = "Five";
  avatar = "";
  created_at = 1;
  subscription_status = "trial";
  subscription_id = "";
  trial_ends_at = 1000;
  last_payment_date = 0;
  next_billing_date = 0;
  is_admin = false;
  free_months_remaining = pos 0;
  max_articles_on_feed_add = pos 100;
}

abbrev with_user : User → Db
with_user user = record empty_db {
  users = (pos 5, user) ∷ [];
  user_feeds = ((pos 5, pos 7), tt) ∷ [];
}

abbrev trial_info : SubscriptionInfo
trial_info = record {
  status = "trial";
  subscription_id = "";
  trial_ends_at = 1000;
  last_payment_date = 0;
  next_billing_date = none;
  current_feeds = 1;
  feed_limit = pos 20;
  can_add_feeds = true;
  is_active = true;
  trial_days_remaining = 0;
}

expired_trial : can_user_add_feed true 1001 (pos 5) (with_user trial_user) ≡ err trial_expired
unfolding can_user_add_feed check_user get_user_by_id lookup
expired_trial = refl

info-can_add_feeds_example :
    true ≡ is_ok (can_user_add_feed true 500 (pos 5) (with_user trial_user))
info-can_add_feeds_example =
    info-can_add_feeds 500 (pos 5) (with_user trial_user) trial_user trial_info refl
      (unfold lookup in refl) (inr (inr (inr refl))) (omega arith)
      (unfold get_user_subscription_info info_of with_limit with_days is_user_subscription_active
          get_user_by_id get_user_feed_count count_subscriptions lookup in
        refl)

abbrev expired_user : User
expired_user = record trial_user { subscription_status = "expired" }

abbrev expired_info : SubscriptionInfo
expired_info = record trial_info { status = "expired"; can_add_feeds = false; is_active = false }

-- ===== src/Services/Subscription.antt =====
-- internal/services/subscription_service.go: who may add feeds, and what a user is told about it.
-- `enabled` is `config.IsSubscriptionEnabled()`, `now` the reading of the clock.
pub mod Limits
mod Tests
use goread.Base.{
  ℕ, ◌-◌, ◌/◌, min, Bool, true, false, ◌&&◌, ◌||◌, String, string_Eq, Option, none, some,
  if◌then◌else◌, ℤ, pos, negsuc, ltb, leb, nat_eq, ltb_ℤ, ◌==◌, int_max,
}
use goread.Database.{Db, User, DbError, Result, ok, err, Exec}
use goread.Database.Users
use goread.Database.Users.{get_user_by_id, is_user_subscription_active}
use goread.Database.Feeds.{get_user_feed_count}

abbrev pub free_trial_feed_limit : ℕ
free_trial_feed_limit = 20

pub data AddError : Type 0 where
  store_error : DbError → AddError
  trial_expired feed_limit_reached : AddError

-- The last test of `CanUserAddFeed`.
unfoldable pub check_trial_limit : ℤ → Db → Result AddError (Unit {0})
check_trial_limit user_id db = elim (get_user_feed_count user_id db) [
  | err e ↦ err (store_error e)
  | ok count ↦ if leb free_trial_feed_limit count then err feed_limit_reached else ok tt
]

-- The tests on the user, in the order of the source.
unfoldable pub check_user : ℕ → ℤ → Db → User → Result AddError (Unit {0})
check_user now user_id db user =
    if user.is_admin
    then ok tt
    else if user.subscription_status == "active"
    then ok tt
    else if ltb_ℤ (pos 0) user.free_months_remaining
    then ok tt
    else if user.subscription_status == "trial" && ltb user.trial_ends_at now
    then err trial_expired
    else if user.subscription_status == "trial"
    then check_trial_limit user_id db
    else ok tt

unfoldable pub can_user_add_feed : Bool → ℕ → ℤ → Db → Result AddError (Unit {0})
can_user_add_feed enabled now user_id db =
    if enabled
    then (elim (get_user_by_id user_id db) [
      | err e ↦ err (store_error e)
      | ok user ↦ check_user now user_id db user
    ])
    else ok tt

pub record SubscriptionInfo : Type 0 where
  pub status : String
  pub subscription_id : String
  pub trial_ends_at : ℕ
  pub last_payment_date : ℕ
  pub next_billing_date : Option ℕ
  pub current_feeds : ℕ
  pub feed_limit : ℤ  -- -1 for unlimited
  pub can_add_feeds : Bool
  pub is_active : Bool
  pub trial_days_remaining : ℕ

abbrev day : ℕ
day = 86400000000000

abbrev unlimited : SubscriptionInfo → String → SubscriptionInfo
unlimited info status = record info { status = status; feed_limit = negsuc 0; can_add_feeds = true }

-- The status and the limit by the type of user.
unfoldable pub with_limit : User → SubscriptionInfo → SubscriptionInfo
with_limit user info =
    if user.is_admin && user.subscription_status == "active"
    then unlimited info "admin"
    else if user.is_admin
    then unlimited info "admin_trial"
    else if user.subscription_status == "active" || ltb_ℤ (pos 0) user.free_months_remaining
    then unlimited info
        (if ltb_ℤ (pos 0) user.free_months_remaining then "free_months" else info.status)
    else record info {
      feed_limit = pos free_trial_feed_limit;
      can_add_feeds = ltb info.current_feeds free_trial_feed_limit && info.is_active;
    }

-- `time.Until` stops at the largest duration, and a negative number of days is replaced by 0. The days
-- are a float quotient in the source, and exact here.
unfoldable pub with_days : ℕ → User → SubscriptionInfo → SubscriptionInfo
with_days now user info =
    if user.subscription_status == "trial"
    then record info { trial_days_remaining = min (user.trial_ends_at - now) int_max / day }
    else info

unfoldable pub info_of : Bool → ℕ → User → ℕ → Bool → SubscriptionInfo
info_of enabled now user feed_count is_active =
    let info : SubscriptionInfo = record {
      status = user.subscription_status;
      subscription_id = user.subscription_id;
      trial_ends_at = user.trial_ends_at;
      last_payment_date = user.last_payment_date;
      next_billing_date =
          if nat_eq user.next_billing_date 0 then none else some user.next_billing_date;
      current_feeds = feed_count;
      feed_limit = pos 0;
      can_add_feeds = false;
      is_active = is_active;
      trial_days_remaining = 0;
    } in
    if enabled then with_days now user (with_limit user info) else unlimited info "unlimited"

unfoldable pub get_user_subscription_info : Bool → ℕ → ℤ → Db → Result DbError SubscriptionInfo
get_user_subscription_info enabled now user_id db = elim (get_user_by_id user_id db) [
  | err e ↦ err e
  | ok user ↦ elim (get_user_feed_count user_id db) [
    | err e ↦ err e
    | ok feed_count ↦ elim (is_user_subscription_active now user_id db) [
      | err e ↦ err e
      | ok is_active ↦ ok (info_of enabled now user feed_count is_active)
    ]
  ]
]

-- The admin methods pass their arguments on to the store.
unfoldable pub update_user_subscription : ℤ → String → String → ℕ → ℕ → Exec (Unit {0})
update_user_subscription = Users.update_user_subscription

unfoldable pub set_user_admin : ℤ → ℤ → Bool → Exec (Unit {0})
set_user_admin = Users.set_user_admin_atomic

unfoldable pub grant_free_months : ℤ → ℤ → Exec (Unit {0})
grant_free_months = Users.grant_free_months

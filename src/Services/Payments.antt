-- ===== src/Services/Payments.antt =====
-- internal/services/payment_service.go: what a webhook of Stripe changes. The subscription as Stripe reports
-- it is an argument.
use goread.Base.{ℕ, ◌+◌, ◌*◌, String, Option, none, some, ℤ, if◌then◌else◌, string_Eq, ltb}
use goread.Database.{Db, Result, ok, err}
use goread.Services.Subscription.{update_user_subscription}

-- `sub.Status`; the source treats all others as canceled.
pub data StripeStatus : Type 0 where
  stripe_active canceled past_due unpaid other_status : StripeStatus

-- What `subscription.Get` returns: the user id of the metadata, if it is there and is a number, and the
-- ends of the period in seconds, 0 for none.
pub record StripeSubscription : Type 0 where
  pub status : StripeStatus
  pub user_id : Option (Option ℤ)
  pub current_period_start : ℕ
  pub current_period_end : ℕ

pub data PaymentError : Type 0 where
  not_fetched user_id_missing user_id_invalid not_updated : PaymentError

abbrev pub status_text : StripeStatus → String
status_text stripe_active = "active"
status_text canceled = "cancelled"
status_text past_due = "past_due"
status_text unpaid = "unpaid"
status_text other_status = "cancelled"

-- `time.Unix(seconds, 0)`, in nanoseconds since the zero time; `epoch` is the start of 1970 in them.
abbrev pub unix_time : ℕ → ℕ → ℕ
unix_time epoch seconds = if ltb 0 seconds then epoch + seconds * 1000000000 else 0

-- The dates are only taken from an active subscription.
abbrev pub period : ℕ → StripeSubscription → ℕ × ℕ
period epoch sub = elim (sub.status) [
  | stripe_active ↦
      (unix_time epoch sub.current_period_start, unix_time epoch sub.current_period_end)
  | _ ↦ (0, 0)
]

unfoldable pub handle_subscription_update :
    ℕ → String → Option StripeSubscription → Db → Db × Result PaymentError (Unit {0})
handle_subscription_update epoch subscription_id none db = (db, err not_fetched)
handle_subscription_update epoch subscription_id (some sub) db = elim (sub.user_id) [
  | none ↦ (db, err user_id_missing)
  | some none ↦ (db, err user_id_invalid)
  | some (some user_id) ↦
      let (last_payment, next_billing) = period epoch sub in
      let (db', r) =
        update_user_subscription user_id (status_text sub.status) subscription_id last_payment
          next_billing db in
      elim r [ err _ ↦ (db', err not_updated) | ok _ ↦ (db', ok tt) ]
]

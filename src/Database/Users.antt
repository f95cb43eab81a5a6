-- ===== src/Database/Users.antt =====
-- internal/database/schema.go: the statements on `users`.
use goread.Base.{
  int_Eq, ℕ, Bool, true, false, ◌&&◌, not, String, string_Eq, Option, none, some, ℤ, pos, Map,
  lookup, insert, if◌then◌else◌, ◌==◌, ltb, ltb_ℤ, ◌+ℤ◌, [], ◌∷◌,
}
use goread.Database.{User, no_rows, self_demotion, ok, err, Exec, Query, exec, query}

unfoldable pub get_user_by_id : ℤ → Query User
get_user_by_id user_id =
    query (λ db. elim (lookup user_id db.users) [ none ↦ err no_rows | some user ↦ ok user ])

-- The rows with the email; the column is unique.
unfoldable pub user_with_email : String → Map ℤ User → Option User
user_with_email email [] = none
user_with_email email ((_, user) ∷ m) =
    if user.email == email then some user else user_with_email email m

unfoldable pub get_user_by_email : String → Query User
unfolding user_with_email
get_user_by_email email =
    query (λ db. elim (user_with_email email db.users) [ none ↦ err no_rows | some user ↦ ok user ])

-- `UPDATE users SET … WHERE id = ?`, which changes nothing where no row has the id.
unfoldable pub update_user : ℤ → (User → User) → Exec (Unit {0})
update_user user_id f = exec (λ db. (
  elim (lookup user_id db.users) [
    | none ↦ db
    | some user ↦ record db { users = insert user_id (f user) db.users }
  ],
  ok tt,
))

unfoldable pub update_user_subscription : ℤ → String → String → ℕ → ℕ → Exec (Unit {0})
unfolding update_user
update_user_subscription user_id status subscription_id last_payment next_billing =
    update_user user_id (λ user. record user {
      subscription_status = status;
      subscription_id = subscription_id;
      last_payment_date = last_payment;
      next_billing_date = next_billing;
    })

-- The transaction begins, then the caller is compared with the target, then the row is updated.
unfoldable pub set_user_admin_atomic : ℤ → ℤ → Bool → Exec (Unit {0})
unfolding update_user
set_user_admin_atomic target_id caller_id is_admin = exec (λ db.
    if target_id == caller_id && not is_admin
    then (db, err self_demotion)
    else update_user target_id (λ user. record user { is_admin = is_admin }) db)

-- The sum is that of SQLite. Beyond 64 bits it is stored as a REAL, here as the number.
unfoldable pub grant_free_months : ℤ → ℤ → Exec (Unit {0})
unfolding update_user
grant_free_months user_id months =
    update_user user_id
      (λ user. record user { free_months_remaining = user.free_months_remaining +ℤ months })

unfoldable pub update_user_max_articles_on_feed_add : ℤ → ℤ → Exec (Unit {0})
unfolding update_user
update_user_max_articles_on_feed_add user_id max_articles =
    update_user user_id (λ user. record user { max_articles_on_feed_add = max_articles })

unfoldable pub is_user_subscription_active : ℕ → ℤ → Query Bool
is_user_subscription_active now user_id = query (λ db. elim (lookup user_id db.users) [
  | none ↦ err no_rows
  | some user ↦ ok (
      if user.is_admin
      then true
      else if user.subscription_status == "active"
      then true
      else if user.subscription_status == "trial" && ltb now user.trial_ends_at
      then true
      else if ltb_ℤ (pos 0) user.free_months_remaining
      then true
      else false)
])

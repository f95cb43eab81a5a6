-- ===== src/Datastore/Users.antt =====
-- internal/database/datastore.go and datastore_update.go: the methods on users.
use goread.Base.{
  int_Eq, string_Eq, ℕ, ◌+◌, Bool, true, false, ◌&&◌, not, String, Option, none, some, ℤ, pos,
  lookup, insert, if◌then◌else◌, ◌==◌, ltb, ltb_ℤ, leb_ℤ, ◌||◌, wrap, ◌+ℤ◌,
}
use goread.Database.{User, DbError, no_rows, self_demotion, Result, ok, err}
use goread.Database.Users.{user_with_email}
use goread.Database.Accounts.{with_defaults, user_with_google_id}
use goread.Datastore.{
  Store, Ds, ◌>>=◌, pure, fail, call, query_entities, write_entities, get_entity, micro,
}

abbrev put_user : ℤ → User → Ds (Unit {0})
put_user user_id user = write_entities (λ db. record db { users = insert user_id user db.users })

-- The user as it is stored.
abbrev user_in_micros : User → User
user_in_micros user = record user {
  created_at = micro user.created_at;
  trial_ends_at = micro user.trial_ends_at;
  last_payment_date = micro user.last_payment_date;
  next_billing_date = micro user.next_billing_date;
}

-- The service picks an id that no entity of the kind has. No property of the user is unique.
unfoldable pub create_user : User → Ds ℤ
create_user user = call (λ db.
    let id = pos db.next_user in
    (
      record db {
        users = insert id (record (user_in_micros (with_defaults user)) { id = id }) db.users;
        next_user = db.next_user + 1;
      },
      ok id,
    ))

-- A stored limit of 0 articles is read as 100.
abbrev pub with_max_articles : User → User
with_max_articles user = record user {
  max_articles_on_feed_add =
      if user.max_articles_on_feed_add == pos 0 then pos 100 else user.max_articles_on_feed_add;
}

-- The first entity of a query with a limit of 1.
abbrev first_user : Option User → Ds User
first_user none = fail no_rows
first_user (some user) = pure (with_max_articles user)

unfoldable pub get_user_by_google_id : String → Ds User
get_user_by_google_id google_id = do
  user ← query_entities (λ db. user_with_google_id google_id db.users)
  first_user user

unfoldable pub get_user_by_email : String → Ds User
get_user_by_email email = do
  user ← query_entities (λ db. user_with_email email db.users)
  first_user user

unfoldable pub get_user_by_id : ℤ → Ds User
get_user_by_id user_id = do
  user ← get_entity (λ db. db.users) user_id
  pure (with_max_articles (record user { id = user_id }))

-- A `Get` and a `Put`, which is what the methods that change one user do.
unfoldable pub change_user : ℤ → (User → User) → Ds (Unit {0})
change_user user_id f = do user ← get_entity (λ db. db.users) user_id; put_user user_id (f user)

unfoldable pub update_user_subscription : ℤ → String → String → ℕ → ℕ → Ds (Unit {0})
unfolding change_user
update_user_subscription user_id status subscription_id last_payment next_billing =
    change_user user_id (λ user. record user {
      subscription_status = status;
      subscription_id = subscription_id;
      last_payment_date = micro last_payment;
      next_billing_date = micro next_billing;
    })

unfoldable pub set_user_admin : ℤ → Bool → Ds (Unit {0})
unfolding change_user
set_user_admin user_id is_admin = change_user user_id (λ user. record user { is_admin = is_admin })

unfoldable pub grant_free_months : ℤ → ℤ → Ds (Unit {0})
unfolding change_user
grant_free_months user_id months =
    change_user user_id
      (λ user. record user { free_months_remaining = wrap (user.free_months_remaining +ℤ months) })

-- The transaction is one call. The caller is compared with the target once it has begun.
unfoldable pub set_user_admin_atomic : ℤ → ℤ → Bool → Ds (Unit {0})
set_user_admin_atomic target_id caller_id is_admin = call (λ db.
    if target_id == caller_id && not is_admin
    then (db, err self_demotion)
    else elim (lookup target_id db.users) [
      | none ↦ (db, err no_rows)
      | some user ↦ (
        record db { users = insert target_id (record user { is_admin = is_admin }) db.users },
        ok tt,
      )
    ])

pub data LimitError : Type 0 where
  out_of_range : LimitError
  in_store : DbError → LimitError

abbrev in_store_error : Result DbError (Unit {0}) → Result LimitError (Unit {0})
in_store_error (ok done) = ok done
in_store_error (err e) = err (in_store e)

unfoldable pub update_user_max_articles_on_feed_add :
    ℤ → ℤ → Store → Store × Result LimitError (Unit {0})
unfolding change_user
update_user_max_articles_on_feed_add user_id max_articles s =
    if leb_ℤ max_articles (pos 0) || ltb_ℤ (pos 10000) max_articles
    then (s, err out_of_range)
    else let after =
        change_user user_id (λ user. record user { max_articles_on_feed_add = max_articles }) s in
      (after.0, in_store_error after.1)

unfoldable pub is_user_subscription_active : ℕ → ℤ → Ds Bool
is_user_subscription_active now user_id = do
  user ← get_entity (λ db. db.users) user_id
  pure (
      if user.is_admin
      then true
      else if user.subscription_status == "active"
      then true
      else if user.subscription_status == "trial" && ltb now user.trial_ends_at
      then true
      else if ltb_ℤ (pos 0) user.free_months_remaining
      then true
      else false)

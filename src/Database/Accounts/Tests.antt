-- ===== src/Database/Accounts/Tests.antt =====
-- A newcomer.
use goread.Base.{int_Eq, string_Eq, ◌≡◌, refl, false, some, pos, lookup, insert}
use goread.Database.{User, empty_db, ok, err, unique_violation}
use goread.Database.Users.{user_with_email}
use goread.Database.Accounts.{
  create_user, user_with_google_id, new_row, create-get_user, get_user_by_google_id,
}

abbrev newcomer : User
newcomer = record {
  id = pos 0;
  google_id = "g1";
  email = "one@a.example";
  name = "One";
  avatar = "";
  created_at = 7;
  subscription_status = "";
  subscription_id = "";
  trial_ends_at = 0;
  last_payment_date = 0;
  next_billing_date = 0;
  is_admin = false;
  free_months_remaining = pos 0;
  max_articles_on_feed_add = pos 0;
}

found_again :
    get_user_by_google_id "g1" (create_user newcomer empty_db).0
    ≡ ok (record newcomer {
      id = pos 1;
      subscription_status = "trial";
      trial_ends_at = 2592000000000007;
      max_articles_on_feed_add = pos 100;
    })
unfolding get_user_by_google_id create_user user_with_google_id user_with_email insert
found_again = refl

create-get_user_example :
    ((create_user newcomer empty_db).1 ≡ ok (pos 1))
    × (user_with_google_id "g1" (create_user newcomer empty_db).0.users ≡ some (new_row 1 newcomer))
    × (create_user newcomer (create_user newcomer empty_db).0
        ≡ ((create_user newcomer empty_db).0, err unique_violation))
create-get_user_example =
    create-get_user newcomer newcomer empty_db "g1" refl (unfold lookup in refl)
      (unfold user_with_google_id in refl) (unfold user_with_email in refl) refl

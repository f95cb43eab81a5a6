-- ===== src/Handlers/Admin/Tests.antt =====
-- An administrator who makes another one.
use goread.Base.{int_Eq, string_Eq, ◌≡◌, refl, true, false, some, [], ◌∷◌, pos}
use goread.Database.{User, Db, empty_db}
use goread.Database.Users.{user_with_email, get_user_by_email, set_user_admin_atomic}
use goread.Services.Subscription.{set_user_admin}
use goread.Handlers.Admin.{Texts, answer, set_admin_status, grant_months, finish_admin}
use goread.Handlers.Admin.Audited.{IsAudited, changes-IsAudited}

abbrev boss : User
boss = record {
  id = pos 1;
  google_id = "g1";
  email = "boss@a.example";
  name = "Boss";
  avatar = "";
  created_at = 1;
  subscription_status = "active";
  subscription_id = "";
  trial_ends_at = 1000;
  last_payment_date = 0;
  next_billing_date = 0;
  is_admin = true;
  free_months_remaining = pos 0;
  max_articles_on_feed_add = pos 100;
}

abbrev staff : Db
staff = record empty_db {
  users =
      (pos 1, boss)
      ∷ (pos 2, record boss { id = pos 2; email = "two@a.example"; is_admin = false })
      ∷ [];
}

abbrev plain_texts : Texts
plain_texts = record {
  admin_details = λ is_admin name. name;
  months_details = λ months name total. name;
  failed_months_details = λ months name. name;
  error_text = λ e. "";
}

-- Giving up one's own privileges is refused, and not logged.
self_demotion_unlogged :
    set_admin_status true plain_texts 9 "ip" "boss@a.example" (some false) (some boss) staff
    ≡ (staff, answer 403)
unfolding set_admin_status finish_admin get_user_by_email user_with_email set_user_admin
    set_user_admin_atomic
self_demotion_unlogged = refl

changes-IsAudited_example :
    IsAudited false "grant_admin" boss staff
      (set_admin_status false plain_texts 9 "ip" "two@a.example" (some true) (some boss) staff)
    × IsAudited false "grant_free_months" boss staff (
        grant_months false plain_texts
          (λ a b. a)
          9
          "ip"
          "two@a.example"
          (some (pos 3))
          (some boss)
          staff)
changes-IsAudited_example =
    changes-IsAudited false plain_texts (λ a b. a) 9 "ip" "two@a.example" true (pos 3) boss staff

-- ===== src/Auth/Guard/Tests.antt =====
-- Requests of a signed-in reader and of a stranger.
use goread.Base.{
  string_Eq, int_Eq, ◌≡◌, refl, true, String, Option, none, some, if◌then◌else◌, ◌==◌, [], ◌∷◌, pos,
  lookup,
}
use goread.Database.{User, empty_db}
use goread.Auth.Session.{
  Session, SessionManager, new_session_manager, get_session_from_request, get_session,
}
use goread.Auth.Guard.{
  Presented, Mac, goes_on, panicked, new_context, require_auth, require_admin, optional_auth,
  csrf_middleware, followed_by,
}
use goread.Auth.Guard.Chains.{api-outcome, admin-outcome, optional_auth-panics}

abbrev editor : User
editor = record {
  id = pos 9;
  google_id = "g9";
  email = "nine@a.example";
  name = "Nine";
  avatar = "";
  created_at = 1;
  subscription_status = "trial";
  subscription_id = "";
  trial_ends_at = 1000;
  last_payment_date = 0;
  next_billing_date = 0;
  is_admin = true;
  free_months_remaining = pos 0;
  max_articles_on_feed_add = pos 100;
}

abbrev editor_session : Session
editor_session = record {
  id = "k";
  user_id = pos 9;
  user = editor;
  created_at = 10;
  expires_at = 604800000000010;
}

abbrev with_session : SessionManager
with_session = record (new_session_manager (record empty_db { users = (pos 9, editor) ∷ [] }) 600) {
  cache = ("k", record { session = editor_session; cached_at = 10; cache_expires = 600 }) ∷ [];
}

-- A hash that marks its argument.
abbrev toy_mac : Mac
toy_mac id = if id == "k" then "mac of k" else "mac"

abbrev post : Option String → String → Presented
post cookie token = record {
  cookie = cookie;
  request = record { method = "POST"; header = λ name. token; remote_addr = "a" };
}

api-outcome_example :
    (followed_by
      (require_auth 20 (post (some "k") "mac of k"))
      (csrf_middleware toy_mac 20 (post (some "k") "mac of k"))
      (with_session, new_context)).1
    ≡ goes_on
unfolding get_session_from_request get_session lookup new_session_manager
api-outcome_example = api-outcome toy_mac 20 (post (some "k") "mac of k") with_session

admin-outcome_example :
    (followed_by
      (require_admin 20 (post (some "k") "mac of k"))
      (csrf_middleware toy_mac 20 (post (some "k") "mac of k"))
      (with_session, new_context)).1
    ≡ goes_on
unfolding get_session_from_request get_session lookup new_session_manager
admin-outcome_example = admin-outcome toy_mac 20 (post (some "k") "mac of k") with_session

optional_auth-panics_example :
    ((followed_by
        (optional_auth 20 (post none ""))
        (require_auth 20 (post none ""))
        (with_session, new_context)).1
      ≡ panicked)
    × ((followed_by
          (optional_auth 20 (post none ""))
          (require_admin 20 (post none ""))
          (with_session, new_context)).1
        ≡ panicked)
unfolding get_session_from_request
optional_auth-panics_example = optional_auth-panics 20 (post none "") with_session refl

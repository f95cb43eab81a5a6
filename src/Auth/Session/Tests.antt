-- ===== src/Auth/Session/Tests.antt =====
-- Runs of the session manager, and its theorems at them.
use goread.Base.{
  int_Eq, string_Eq, ◌≡◌, refl, true, false, none, some, [], ◌∷◌, pos, lookup, arith, ◌≤◌, ◌+◌,
  insert,
}
use goread.Database.{Db, User, empty_db}
use goread.Database.Sessions
use goread.Auth.Session.{SessionManager, Session, create_session, delete_session, get_session}
use goread.Auth.Session.OneTime.{exchange_auth_code}
use goread.Database.Users.{get_user_by_id}
use goread.Auth.Session.{
  new_session_manager, load_session, load_row, store_in_cache, created, got, Reachable, started,
  stepped,
}
use goread.Auth.Session.Expiry.{get_session-in_time}
use goread.Auth.Session.Reads.{get-delete, get-create}
use goread.Auth.Session.Codes.{exchange-exchange}

abbrev pub user_5 : User
user_5 = record {
  id = pos 5;
  google_id = "g5";
  email = "five@a.example";
  name = "Five";
  avatar = "";
  created_at = 1;
  subscription_status = "trial";
  subscription_id = "";
  trial_ends_at = 1000;
  last_payment_date = 0;
  next_billing_date = 0;
  is_admin = false;
  free_months_remaining = pos 0;
  max_articles_on_feed_add = pos 100;
}

abbrev store : Db
store = record empty_db { users = (pos 5, user_5) ∷ [] }

abbrev manager : SessionManager
manager = record {
  db = store;
  cache = [];
  cache_ttl = 60000000000;
  cache_hits = pos 0;
  cache_misses = pos 0;
  oauth_states = ("s", record { expires_at = 100; mobile = true }) ∷ [];
  auth_codes =
      ("c", record { session_id = "a"; session_expires_at = 700; code_expires_at = 100 }) ∷ [];
}

abbrev session_a : Session
session_a = record {
  id = "a";
  user_id = pos 5;
  user = user_5;
  created_at = 10;
  expires_at = 604800000000010;
}

abbrev signed_in : SessionManager
signed_in = record manager {
  cache = ("a", record { session = session_a; cached_at = 10; cache_expires = 60000000010 }) ∷ [];
}

cached_read : (get_session signed_in 20 "a").1 ≡ some session_a
unfolding get_session lookup
cached_read = refl

get-delete_example : (get_session (delete_session signed_in "a") 20 "a").1 ≡ none
get-delete_example = get-delete signed_in 20 "a" "a" refl

get-create_example :
    (get_session (create_session manager 10 (some "a") user_5).0 20 "a").1 ≡ some session_a
unfolding create_session Sessions.create_session lookup
get-create_example =
    get-create manager 10 20 "a" user_5 refl (unfold lookup in refl) (unfold lookup in refl)
      (unfold lookup in refl)

exchange-exchange_example :
    (exchange_auth_code (exchange_auth_code manager 20 "c").0 30 "c").1 ≡ none
exchange-exchange_example = exchange-exchange manager 20 30 "c" "c"

-- The session was created, and read a minute later.
signed_in-Reachable :
    Reachable 600000000000 70000000000
      (get_session
        (create_session (new_session_manager store 600000000000) 10 (some "a") user_5).0
        70000000000
        "a").0
signed_in-Reachable =
    stepped
      (stepped (started store) (omega arith)
        (created (new_session_manager store 600000000000) (some "a") user_5))
      (omega arith)
      (got (create_session (new_session_manager store 600000000000) 10 (some "a") user_5).0 "a")

get_session-in_time_example : 80000000000 ≤ 604800000000010 + 600000000000
get_session-in_time_example =
    get_session-in_time 600000000000 70000000000 80000000000
      (get_session (create_session (new_session_manager store 600000000000) 10 (some "a") user_5).0
        70000000000 "a").0
      "a" session_a signed_in-Reachable (omega arith)
      (unfold get_session create_session load_session load_row store_in_cache new_session_manager
          Sessions.create_session Sessions.get_session get_user_by_id lookup insert in
        refl)

-- ===== src/Auth/Session/Reads.antt =====
-- internal/auth/session.go: which sessions `GetSession` returns.
use goread.Base.{
  int_Eq, string_Eq, ℕ, ◌+◌, ◌≡◌, true, String, none, some, if◌then◌else◌, lookup, ltb, arith,
  lookup-insert, lookup-delete, eq_iff, ◌==◌,
}
use goread.Database.{User, SessionRow}
use goread.Database.Users.{get_user_by_id}
use goread.Database.Sessions
use goread.Auth.Session.{
  SessionManager, session_life, create_session, delete_session, store_in_cache, load_row,
  load_session, get_session,
}

-- After `DeleteSession`, as the driver answers, the session is never returned again, from the cache or
-- from the store, and the store and the cache answer for every other session as before.
pub get-delete :
    (sm : SessionManager) (now : ℕ) (id other : String)
    → sm.db.up ≡ true
    → (get_session (delete_session sm id) now other).1
      ≡ (if id == other then none else (get_session sm now other).1)
unfolding get_session delete_session load_session load_row store_in_cache Sessions.delete_session
    Sessions.get_session get_user_by_id
get-delete sm now id other up = ground (
  arith,
  up,
  eq_iff id other,
  lookup-delete id other sm.cache,
  lookup-delete id other sm.db.sessions,
)

-- A session that was created is returned with its user and its times by the next `GetSession`, until
-- it expires after seven days. The driver answers, the user is stored under the id, and no session with
-- the new id is cached or stored.
pub get-create :
    (sm : SessionManager) (now now' : ℕ) (id : String) (user : User)
    → sm.db.up ≡ true
    → lookup user.id sm.db.users ≡ some user
    → lookup id sm.cache ≡ none
    → lookup id sm.db.sessions ≡ none
    → let created = create_session sm now (some id) user in
      (get_session created.0 now' id).1
      ≡ (if ltb (now + session_life) now' then none else created.1)
unfolding get_session create_session load_session load_row store_in_cache Sessions.create_session
    Sessions.get_session get_user_by_id
get-create sm now now' id user up known fresh_cache fresh =
    let row : SessionRow = record {
      id = id;
      user_id = user.id;
      created_at = now;
      expires_at = now + session_life;
    } in
    ground (arith, up, eq_iff id id, lookup-insert id id row sm.db.sessions)

-- ===== src/Auth/Session/Codes.antt =====
-- internal/auth/session.go: OAuth states and mobile auth codes are good for one use, within their time.
use goread.Base.{
  string_Eq, ℕ, ◌+◌, ◌*◌, ◌≤◌, ◌≡◌, Bool, true, false, not, String, none, some, if◌then◌else◌, ltb,
  arith, lookup-insert, lookup-delete, lookup-keep, IsUnique, eq_iff, ◌==◌,
}
use goread.Auth.Session.{
  SessionManager, Session, AuthCodeEntry, OauthStateEntry, minute, auth_code_ttl,
}
use goread.Auth.Session.OneTime.{
  store_oauth_state, validate_and_consume_oauth_state, cleanup_expired_oauth_states,
  create_auth_code, exchange_auth_code, cleanup_expired_auth_codes,
}

-- A code is exchanged for the session that it was issued for, until two minutes have passed.
pub exchange-create :
    (sm : SessionManager) (now now' : ℕ) (code : String) (session : Session)
    → (exchange_auth_code (create_auth_code sm now (some code) session).0 now' code).1
      ≡ (if ltb (now + auth_code_ttl) now' then none else some (session.id, session.expires_at))
unfolding exchange_auth_code create_auth_code
exchange-create sm now now' code session = ground (
  arith,
  lookup-insert code code
      (record {
        session_id = session.id;
        session_expires_at = session.expires_at;
        code_expires_at = now + auth_code_ttl;
      })
      sm.auth_codes,
  eq_iff code code,
)

-- A code that was presented once, with success or not, is never exchanged again, and the other codes
-- are exchanged as before.
pub exchange-exchange :
    (sm : SessionManager) (now now' : ℕ) (code other : String)
    → (exchange_auth_code (exchange_auth_code sm now code).0 now' other).1
      ≡ (if code == other then none else (exchange_auth_code sm now' other).1)
unfolding exchange_auth_code
exchange-exchange sm now now' code other =
    ground (arith, lookup-delete code other sm.auth_codes, eq_iff code other)

-- The same for the OAuth states: a state that was presented once is not valid again, and no other
-- state is affected.
pub consume-consume :
    (sm : SessionManager) (now now' : ℕ) (state other : String)
    → (validate_and_consume_oauth_state
        (validate_and_consume_oauth_state sm now state).0
        now'
        other).1
      ≡ (if state == other
          then (false, false)
          else (validate_and_consume_oauth_state sm now' other).1)
unfolding validate_and_consume_oauth_state
consume-consume sm now now' state other =
    ground (arith, lookup-delete state other sm.oauth_states, eq_iff state other)

-- A state is valid for ten minutes after it was stored, with the kind of client that stored it.
pub consume-store :
    (sm : SessionManager) (now now' : ℕ) (state : String) (mobile : Bool)
    → (validate_and_consume_oauth_state (store_oauth_state sm now state mobile) now' state).1
      ≡ (if ltb (now + 10 * minute) now' then (false, false) else (true, mobile))
unfolding validate_and_consume_oauth_state store_oauth_state
consume-store sm now now' state mobile = ground (
  arith,
  lookup-insert state state (record { expires_at = now + 10 * minute; mobile = mobile })
      sm.oauth_states,
  eq_iff state state,
)

-- The cleanups at the time `now` change no answer from then on: neither that to a code nor that to a
-- state. The maps hold each key once.
pub cleanup-transparent :
    (sm : SessionManager) (now now' : ℕ) (key : String)
    → IsUnique sm.auth_codes
    → IsUnique sm.oauth_states
    → now ≤ now'
    → ((exchange_auth_code (cleanup_expired_auth_codes sm now) now' key).1
        ≡ (exchange_auth_code sm now' key).1)
      × ((validate_and_consume_oauth_state (cleanup_expired_oauth_states sm now) now' key).1
          ≡ (validate_and_consume_oauth_state sm now' key).1)
unfolding exchange_auth_code validate_and_consume_oauth_state cleanup_expired_auth_codes
    cleanup_expired_oauth_states
cleanup-transparent sm now now' key codes states order = (
  ground (
    arith,
    lookup-keep (λ (e : AuthCodeEntry). not (ltb e.code_expires_at now)) key sm.auth_codes codes,
  ),
  ground (
    arith,
    lookup-keep (λ (e : OauthStateEntry). not (ltb e.expires_at now)) key sm.oauth_states states,
  ),
)

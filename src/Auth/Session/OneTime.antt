-- ===== src/Auth/Session/OneTime.antt =====
-- internal/auth/session.go: the OAuth states and the mobile auth codes, each good for one use.
use goread.Base.{
  string_Eq, ℕ, ◌+◌, ◌*◌, Bool, true, false, not, String, Option, none, some, if◌then◌else◌, lookup,
  insert, delete, keep, ltb,
}
use goread.Auth.Session.{SessionManager, Session, minute, auth_code_ttl}

unfoldable pub store_oauth_state : SessionManager → ℕ → String → Bool → SessionManager
store_oauth_state sm now state mobile = record sm {
  oauth_states =
      insert state (record { expires_at = now + 10 * minute; mobile = mobile }) sm.oauth_states;
}

-- The pair is (valid, mobile).
unfoldable pub validate_and_consume_oauth_state :
    SessionManager → ℕ → String → SessionManager × (Bool × Bool)
validate_and_consume_oauth_state sm now state = elim (lookup state sm.oauth_states) [
  | none ↦ (sm, (false, false))
  | some entry ↦ (
    record sm { oauth_states = delete state sm.oauth_states },
    if ltb entry.expires_at now then (false, false) else (true, entry.mobile),
  )
]

unfoldable pub cleanup_expired_oauth_states : SessionManager → ℕ → SessionManager
cleanup_expired_oauth_states sm now = record sm {
  oauth_states = keep (λ e. not (ltb e.expires_at now)) sm.oauth_states;
}

unfoldable pub create_auth_code :
    SessionManager → ℕ → Option String → Session → SessionManager × Option String
create_auth_code sm now none session = (sm, none)
create_auth_code sm now (some code) session = (
  record sm {
    auth_codes =
        insert code
          (record {
            session_id = session.id;
            session_expires_at = session.expires_at;
            code_expires_at = now + auth_code_ttl;
          })
          sm.auth_codes;
  },
  some code,
)

unfoldable pub exchange_auth_code :
    SessionManager → ℕ → String → SessionManager × Option (String × ℕ)
exchange_auth_code sm now code = elim (lookup code sm.auth_codes) [
  | none ↦ (sm, none)
  | some entry ↦ (
    record sm { auth_codes = delete code sm.auth_codes },
    if ltb entry.code_expires_at now
        then none
        else some (entry.session_id, entry.session_expires_at),
  )
]

unfoldable pub cleanup_expired_auth_codes : SessionManager → ℕ → SessionManager
cleanup_expired_auth_codes sm now = record sm {
  auth_codes = keep (λ e. not (ltb e.code_expires_at now)) sm.auth_codes;
}

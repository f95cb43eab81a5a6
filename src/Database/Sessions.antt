-- ===== src/Database/Sessions.antt =====
-- internal/database/schema.go: the statements on `sessions`.
use goread.Base.{ℕ, not, String, string_Eq, Option, none, some, lookup, insert, delete, keep, ltb}
use goread.Database.{SessionRow, unique_violation, ok, err, Exec, Query, exec, query}

unfoldable pub create_session : SessionRow → Exec (Unit {0})
create_session session = exec (λ db. elim (lookup session.id db.sessions) [
  | some _ ↦ (db, err unique_violation)
  | none ↦ (record db { sessions = insert session.id session db.sessions }, ok tt)
])

unfoldable pub get_session : String → Query (Option SessionRow)
get_session session_id = query (λ db. ok (lookup session_id db.sessions))

unfoldable pub update_session_expiry : String → ℕ → Exec (Unit {0})
update_session_expiry session_id new_expiry = exec (λ db. (
  elim (lookup session_id db.sessions) [
    | none ↦ db
    | some row ↦ record db {
      sessions = insert session_id (record row { expires_at = new_expiry }) db.sessions;
    }
  ],
  ok tt,
))

unfoldable pub delete_session : String → Exec (Unit {0})
delete_session session_id =
    exec (λ db. (record db { sessions = delete session_id db.sessions }, ok tt))

unfoldable pub delete_expired_sessions : ℕ → Exec (Unit {0})
delete_expired_sessions now =
    exec (λ db.
      (record db { sessions = keep (λ row. not (ltb row.expires_at now)) db.sessions }, ok tt))

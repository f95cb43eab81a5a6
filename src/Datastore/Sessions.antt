-- ===== src/Datastore/Sessions.antt =====
-- internal/database/datastore.go: the methods on sessions and audit logs.
use goread.Base.{
  int_Eq, string_Eq, ℕ, ◌+◌, String, Option, ℤ, pos, Map, lookup, insert, delete, if◌then◌else◌,
  ltb, List, [], ◌∷◌, ◌++◌, take, drop, select,
}
use goread.Database.{SessionRow, AuditLog, ok}
use goread.Database.Audit.{Filters, is_selected, sort_logs}
use goread.Datastore.{
  Ds, ◌>>=◌, pure, call, query_entities, write_entities, get_entity, delete_all, micro,
}

abbrev session_in_micros : SessionRow → SessionRow
session_in_micros row = record row {
  created_at = micro row.created_at;
  expires_at = micro row.expires_at;
}

-- A session with the same id is replaced.
unfoldable pub create_session : SessionRow → Ds (Unit {0})
create_session session =
    write_entities
      (λ db. record db { sessions = insert session.id (session_in_micros session) db.sessions })

unfoldable pub get_session : String → Ds (Option SessionRow)
get_session session_id = query_entities (λ db. lookup session_id db.sessions)

unfoldable pub update_session_expiry : String → ℕ → Ds (Unit {0})
update_session_expiry session_id new_expiry = do
  row ← get_entity (λ db. db.sessions) session_id
  write_entities (λ db. record db {
    sessions = insert session_id (record row { expires_at = micro new_expiry }) db.sessions;
  })

unfoldable pub delete_session : String → Ds (Unit {0})
delete_session session_id =
    write_entities (λ db. record db { sessions = delete session_id db.sessions })

abbrev expired_ids : ℕ → Map String SessionRow → List String
expired_ids now [] = []
expired_ids now ((id, row) ∷ m) =
    if ltb row.expires_at (micro now) then id ∷ expired_ids now m else expired_ids now m

abbrev delete_sessions : List String → Ds (Unit {0})
delete_sessions [] = pure tt
delete_sessions (id ∷ ids) =
    write_entities (λ db. record db { sessions = delete_all (id ∷ ids) db.sessions })

-- A query of the keys, then one deletion of all of them.
unfoldable pub delete_expired_sessions : ℕ → Ds (Unit {0})
delete_expired_sessions now = do
  ids ← query_entities (λ db. expired_ids now db.sessions)
  delete_sessions ids

unfoldable pub create_audit_log : AuditLog → Ds ℤ
create_audit_log log = call (λ db. (
  record db {
    audit_logs =
        db.audit_logs ++ record log { timestamp = micro log.timestamp; id = pos db.next_log } ∷ [];
    next_log = db.next_log + 1;
  },
  ok (pos db.next_log),
))

-- `Order("-timestamp")`, then the filters, the limit and the offset.
unfoldable pub get_audit_logs : ℕ → ℕ → Filters → Ds (List AuditLog)
get_audit_logs limit offset filters =
    query_entities
      (λ db. take limit (drop offset (sort_logs (select (is_selected filters) db.audit_logs))))

-- ===== src/Database/Audit.antt =====
-- internal/database/schema.go: the audit logs. The rows stand in the order in which they were inserted.
use goread.Base.{
  int_Eq, string_Eq, ℕ, ◌+◌, Bool, true, ◌&&◌, String, Option, none, some, List, [], ◌∷◌, ◌++◌, ℤ,
  pos, if◌then◌else◌, ◌==◌, ltb, select, take, drop,
}
use goread.Database.{AuditLog, ok, Exec, Query, exec, query}

-- The result is the id of the new row.
unfoldable pub create_audit_log : AuditLog → Exec ℤ
create_audit_log log = exec (λ db. (
  record db {
    audit_logs = db.audit_logs ++ record log { id = pos db.next_log } ∷ [];
    next_log = db.next_log + 1;
  },
  ok (pos db.next_log),
))

pub record Filters : Type 0 where
  pub admin_user_id : Option ℤ
  pub target_user_id : Option ℤ
  pub operation_type : Option String

abbrev pub passes {ℓ} : {A : Type ℓ} → (A → Bool) → Option A → Bool
passes test none = true
passes test (some a) = test a

abbrev pub is_selected : Filters → AuditLog → Bool
is_selected f log =
    passes (λ id. log.admin_user_id == id) f.admin_user_id
    && (passes (λ id. log.target_user_id == id) f.target_user_id
        && passes (λ op. log.operation_type == op) f.operation_type)

-- `ORDER BY timestamp DESC`; the statement leaves the order of equal times open.
unfoldable pub insert_log : AuditLog → List AuditLog → List AuditLog
insert_log a [] = a ∷ []
insert_log a (b ∷ l) = if ltb a.timestamp b.timestamp then b ∷ insert_log a l else a ∷ b ∷ l

unfoldable pub sort_logs : List AuditLog → List AuditLog
sort_logs [] = []
sort_logs (a ∷ l) = insert_log a (sort_logs l)

-- The callers pass a limit and an offset that are not negative.
unfoldable pub get_audit_logs : ℕ → ℕ → Filters → Query (List AuditLog)
get_audit_logs limit offset filters =
    query
      (λ db. ok (take limit (drop offset (sort_logs (select (is_selected filters) db.audit_logs)))))

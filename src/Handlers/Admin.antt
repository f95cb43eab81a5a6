-- ===== src/Handlers/Admin.antt =====
-- internal/handlers/admin_handler.go: changes of users by administrators, and the audit logs. The JSON of
-- the details, the texts of errors and the address of the client are arguments.
pub mod Audited
mod Tests
use goread.Base.{
  int_Eq, string_Eq, ℕ, suc, Bool, true, false, String, Option, none, some, List, ℤ, pos,
  if◌then◌else◌, ◌==◌, ltb, leb, min,
}
use goread.Database.{Db, User, AuditLog, DbError, self_demotion, Result, ok, err}
use goread.Database.Users.{get_user_by_email}
use goread.Database.Audit.{Filters, get_audit_logs}
use goread.Services.Subscription.{set_user_admin, grant_free_months}
use goread.Services.Audit.{Action, log_success, log_failure}

pub record Texts : Type 0 where
  pub admin_details : Bool → String → String
  pub months_details : ℤ → String → ℤ → String
  pub failed_months_details : ℤ → String → String
  pub error_text : DbError → String

-- The answers are their status, with the logs where there are some.
pub data Reply : Type 0 where
  answer : ℕ → Reply
  logs_answer : List AuditLog → Reply

abbrev pub action_of : User → User → String → String → String → Action
action_of admin target operation details ip = record {
  admin_user_id = admin.id;
  admin_email = admin.email;
  operation_type = operation;
  target_user_id = target.id;
  target_user_email = target.email;
  details = details;
  ip_address = ip;
}

abbrev pub admin_operation : Bool → String
admin_operation is_admin = if is_admin then "grant_admin" else "revoke_admin"

-- The store after an audit log was written, whose error is ignored: `logged` says whether the driver answers
-- this write.
abbrev pub written : Bool → Db → Db × Result DbError ℤ → Db
written logged db (db', _) = if logged then db' else db

-- What follows the statement: a self-demotion is answered without a log.
unfoldable pub finish_admin :
    Bool → Texts → ℕ → Action → Db × Result DbError (Unit {0}) → Db × Reply
finish_admin logged texts now action (db, ok _) =
    (written logged db (log_success now action db), answer 200)
finish_admin logged texts now action (db, err self_demotion) = (db, answer 403)
finish_admin logged texts now action (db, err e) =
    (written logged db (log_failure now action (texts.error_text e) db), answer 500)

-- `request` is none where the body cannot be parsed.
unfoldable pub set_admin_status :
    Bool → Texts → ℕ → String → String → Option Bool → Option User → Db → Db × Reply
set_admin_status logged texts now ip email request current db =
    if email == "" then (db, answer 400) else elim request [
      | none ↦ (db, answer 400)
      | some is_admin ↦ elim current [
        | none ↦ (db, answer 401)
        | some admin ↦ elim (get_user_by_email email db) [
          | err _ ↦ (db, answer 404)
          | ok user ↦
              finish_admin logged texts now
                (action_of admin user (admin_operation is_admin)
                  (texts.admin_details is_admin user.name) ip)
                (set_user_admin user.id admin.id is_admin db)
        ]
      ]
    ]

unfoldable pub finish_grant :
    Bool → Texts → ℕ → Action → Action → Db × Result DbError (Unit {0}) → Db × Reply
finish_grant logged texts now granted failed (db, ok _) =
    (written logged db (log_success now granted db), answer 200)
finish_grant logged texts now granted failed (db, err e) =
    (written logged db (log_failure now failed (texts.error_text e) db), answer 500)

-- `months` is none where the body cannot be parsed or the number is not positive. `total` adds them to
-- those of the user that was read.
unfoldable pub grant_months :
    Bool → Texts → (ℤ → ℤ → ℤ) → ℕ → String → String → Option ℤ → Option User → Db → Db × Reply
grant_months logged texts total now ip email months current db =
    if email == "" then (db, answer 400) else elim months [
      | none ↦ (db, answer 400)
      | some n ↦ elim current [
        | none ↦ (db, answer 401)
        | some admin ↦ elim (get_user_by_email email db) [
          | err _ ↦ (db, answer 404)
          | ok user ↦
              finish_grant logged texts now
                (action_of admin user "grant_free_months"
                  (texts.months_details n user.name (total user.free_months_remaining n)) ip)
                (action_of admin user "grant_free_months" (texts.failed_months_details n user.name)
                  ip)
                (grant_free_months user.id n db)
        ]
      ]
    ]

-- The limit: a positive number, at most 100, or 50; the offset: a number that is not negative, or 0.
unfoldable pub parse_log_limit : Option ℤ → ℕ
parse_log_limit (some (ℤ.pos (suc n))) = min (suc n) 100
parse_log_limit _ = 50

unfoldable pub parse_offset : Option ℤ → ℕ
parse_offset (some (ℤ.pos n)) = n
parse_offset _ = 0

unfoldable pub get_audit_logs_page : Option ℤ → Option ℤ → Filters → Db → Reply
get_audit_logs_page limit offset filters db =
    elim (get_audit_logs (parse_log_limit limit) (parse_offset offset) filters db) [
      | err _ ↦ answer 500
      | ok logs ↦ logs_answer logs
    ]

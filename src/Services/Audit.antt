-- ===== src/Services/Audit.antt =====
-- internal/services/audit_service.go: how the actions of administrators are logged. The JSON of the details
-- is an argument.
use goread.Base.{ℕ, String, ℤ, pos}
use goread.Database.{AuditLog, Exec}
use goread.Database.Audit.{create_audit_log}

-- Who did what to whom, and from where.
pub record Action : Type 0 where
  pub admin_user_id : ℤ
  pub admin_email : String
  pub operation_type : String
  pub target_user_id : ℤ
  pub target_user_email : String
  pub details : String
  pub ip_address : String

abbrev pub log_of : ℕ → Action → String → String → AuditLog
log_of now a result error_message = record {
  id = pos 0;
  timestamp = now;
  admin_user_id = a.admin_user_id;
  admin_email = a.admin_email;
  operation_type = a.operation_type;
  target_user_id = a.target_user_id;
  target_user_email = a.target_user_email;
  operation_details = a.details;
  ip_address = a.ip_address;
  result = result;
  error_message = error_message;
}

unfoldable pub log_admin_action : ℕ → Action → String → String → Exec ℤ
log_admin_action now a result error_message = create_audit_log (log_of now a result error_message)

unfoldable pub log_success : ℕ → Action → Exec ℤ
unfolding log_admin_action
log_success now a = log_admin_action now a "success" ""

unfoldable pub log_failure : ℕ → Action → String → Exec ℤ
unfolding log_admin_action
log_failure now a error_message = log_admin_action now a "failure" error_message

-- ===== src/Handlers/Admin/Audited.antt =====
-- internal/handlers/admin_handler.go: the changes of users and their logs.
use goread.Base.{
  int_Eq, string_Eq, ℕ, ◌≡◌, refl, sym, ◌∙◌, Bool, true, false, String, some, [], ◌∷◌, ◌++◌, ℤ,
  ◌==◌, arith, Bool-cases, inl, inr, ◌⊎◌, if_true, ◌&&◌, not, subst, if◌then◌else◌,
}
use goread.Database.{
  Db, User, AuditLog, Result, Result-cases, ok, err, DbError, self_demotion, unavailable, no_rows,
  unique_violation,
}
use goread.Database.Users.{get_user_by_email, set_user_admin_atomic, update_user}
use goread.Database.Users
use goread.Database.Audit.{create_audit_log}
use goread.Services.Subscription.{set_user_admin, grant_free_months}
use goread.Services.Audit.{Action, log_success, log_failure, log_of, log_admin_action}
use goread.Handlers.Admin.{
  Texts, Reply, answer, written, finish_admin, finish_grant, set_admin_status, grant_months,
  admin_operation,
}

-- The users are as before, or the answer is 200 and the logs have one new entry if the driver answers its
-- write, and none else; the entry is of a successful operation of the administrator.
abbrev pub IsAudited : Bool → String → User → Db → Db × Reply → Type 0
IsAudited logged operation admin db (db', reply) =
    (db'.users ≡ db.users)
    ⊎ ((log : AuditLog) × (db'.audit_logs
          ≡ (if logged then db.audit_logs ++ log ∷ [] else db.audit_logs))
        × (log.admin_user_id ≡ admin.id)
        × (log.operation_type ≡ operation)
        × (log.result ≡ "success")
        × (reply ≡ answer 200))

-- What a statement on one user leaves alone.
logs-update_user :
    (id : ℤ) (f : User → User) (db : Db)
    → let (db', r) = update_user id f db in (db'.audit_logs ≡ db.audit_logs) × (db'.up ≡ db.up)
unfolding update_user
logs-update_user id f db = (ground arith, ground arith)

-- What a statement of the store did: it wrote and left the logs alone, or it failed and changed nothing.
abbrev Did : Db → Db × Result DbError (Unit {0}) → Type 0
Did db r =
    ((db' : Db) × (r ≡ (db', ok tt)) × (db'.audit_logs ≡ db.audit_logs) × (db'.up ≡ true))
    ⊎ ((e : DbError) × (r ≡ (db, err e)))

update_user-Did : (id : ℤ) (f : User → User) (db : Db) → Did db (update_user id f db)
unfolding update_user
update_user-Did id f db = elim (Bool-cases db.up) [
  | inl up ↦
      let same = logs-update_user id f db in
      inl ((update_user id f db).0, if_true db.up _ _ up ∙ rw up, same.0, same.1 ∙ up)
  | inr down ↦ inr (unavailable, rw down)
]

set_admin_allowed :
    (target caller : ℤ) (is_admin : Bool) (db : Db)
    → db.up ≡ true
    → (target == caller && not is_admin) ≡ false
    → set_user_admin target caller is_admin db
      ≡ update_user target (λ user. record user { is_admin = is_admin }) db
unfolding set_user_admin set_user_admin_atomic
set_admin_allowed target caller is_admin db up allowed = if_true db.up _ _ up ∙ rw allowed

set_admin-Did :
    (target caller : ℤ) (is_admin : Bool) (db : Db)
    → Did db (set_user_admin target caller is_admin db)
unfolding set_user_admin set_user_admin_atomic
set_admin-Did target caller is_admin db = elim (Bool-cases db.up) [
  | inr down ↦ inr (unavailable, rw down)
  | inl up ↦ elim (Bool-cases (target == caller && not is_admin)) [
    | inl refused ↦ inr (self_demotion, if_true db.up _ _ up ∙ rw refused)
    | inr allowed ↦
        subst (Did db) (sym (set_admin_allowed target caller is_admin db up allowed))
          (update_user-Did target (λ user. record user { is_admin = is_admin }) db)
  ]
]

grant-Did : (id months : ℤ) (db : Db) → Did db (grant_free_months id months db)
unfolding grant_free_months Users.grant_free_months
grant-Did id months db = update_user-Did id _ db

success-appends :
    (now : ℕ) (a : Action) (db : Db)
    → db.up ≡ true
    → (log : AuditLog) × ((log_success now a db).0.audit_logs ≡ db.audit_logs ++ log ∷ [])
      × (log.admin_user_id ≡ a.admin_user_id)
      × (log.operation_type ≡ a.operation_type)
      × (log.result ≡ "success")
unfolding log_success log_admin_action create_audit_log
success-appends now a db up =
    (record (log_of now a "success" "") { id = ℤ.pos db.next_log }, rw up, refl, refl, refl)

failure-users :
    (now : ℕ) (a : Action) (message : String) (db : Db)
    → (log_failure now a message db).0.users ≡ db.users
unfolding log_failure log_admin_action create_audit_log
failure-users now a message db = ground arith

users-written :
    (logged : Bool) (now : ℕ) (a : Action) (message : String) (db : Db)
    → (written logged db (log_failure now a message db)).users ≡ db.users
users-written true now a message db = failure-users now a message db
users-written false now a message db = refl

logs-written :
    (logged : Bool) (now : ℕ) (a : Action) (db : Db)
    → db.up ≡ true
    → (log : AuditLog) × ((written logged db (log_success now a db)).audit_logs
        ≡ (if logged then db.audit_logs ++ log ∷ [] else db.audit_logs))
      × (log.admin_user_id ≡ a.admin_user_id)
      × (log.operation_type ≡ a.operation_type)
      × (log.result ≡ "success")
logs-written true now a db up = success-appends now a db up
logs-written false now a db up =
    let (log, _, by, op, result) = success-appends now a db up in (log, refl, by, op, result)

finish_admin-IsAudited :
    (logged : Bool) (texts : Texts) (now : ℕ) (a : Action) (admin : User) (db : Db)
    (r : Db × Result DbError (Unit {0}))
    → Did db r
    → a.admin_user_id ≡ admin.id
    → IsAudited logged a.operation_type admin db (finish_admin logged texts now a r)
unfolding finish_admin
finish_admin-IsAudited logged texts now a admin db r (inl (db', same, logs, up)) who =
    let (log, added, by, op, result) = logs-written logged now a db' up in
    rw same (inr (log, rw (added, logs), by ∙ who, op, result, refl))
finish_admin-IsAudited logged texts now a admin db r (inr (self_demotion, same)) who =
    rw same (inl refl)
finish_admin-IsAudited logged texts now a admin db r (inr (unavailable, same)) who =
    rw same (inl (users-written logged now a (texts.error_text unavailable) db))
finish_admin-IsAudited logged texts now a admin db r (inr (no_rows, same)) who =
    rw same (inl (users-written logged now a (texts.error_text no_rows) db))
finish_admin-IsAudited logged texts now a admin db r (inr (unique_violation, same)) who =
    rw same (inl (users-written logged now a (texts.error_text unique_violation) db))

finish_grant-IsAudited :
    (logged : Bool) (texts : Texts) (now : ℕ) (a failed : Action) (admin : User) (db : Db)
    (r : Db × Result DbError (Unit {0}))
    → Did db r
    → a.admin_user_id ≡ admin.id
    → IsAudited logged a.operation_type admin db (finish_grant logged texts now a failed r)
unfolding finish_grant
finish_grant-IsAudited logged texts now a failed admin db r (inl (db', same, logs, up)) who =
    let (log, added, by, op, result) = logs-written logged now a db' up in
    rw same (inr (log, rw (added, logs), by ∙ who, op, result, refl))
finish_grant-IsAudited logged texts now a failed admin db r (inr (e, same)) who =
    rw same (inl (users-written logged now failed (texts.error_text e) db))

-- Whatever an administrator asks of SetAdminStatus and GrantFreeMonths, the users change only with the
-- answer 200, and together with one new entry of the audit logs if the driver answers that write, which
-- names the administrator and the operation and calls it a success. If it does not, the logs are as
-- before, and the answer is the same.
pub changes-IsAudited :
    (logged : Bool) (texts : Texts) (total : ℤ → ℤ → ℤ) (now : ℕ) (ip email : String)
    (is_admin : Bool) (months : ℤ) (admin : User) (db : Db)
    → IsAudited logged
        (admin_operation is_admin)
        admin
        db
        (set_admin_status logged texts now ip email (some is_admin) (some admin) db)
      × IsAudited logged "grant_free_months" admin db
          (grant_months logged texts total now ip email (some months) (some admin) db)
unfolding set_admin_status grant_months
changes-IsAudited logged texts total now ip email is_admin months admin db =
    elim (Bool-cases (email == "")) [
      | inl empty ↦ rw empty (inl refl, inl refl)
      | inr named ↦ elim (Result-cases (get_user_by_email email db)) [
        | inr (e, missing) ↦ rw (named, missing) (inl refl, inl refl)
        | inl (user, found) ↦
            rw (named, found)
              (
                finish_admin-IsAudited logged texts now _ admin db _
                    (set_admin-Did user.id admin.id is_admin db) refl,
                finish_grant-IsAudited logged texts now _ _ admin db _ (grant-Did user.id months db)
                    refl,
              )
      ]
    ]

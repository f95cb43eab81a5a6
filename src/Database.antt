-- ===== src/Database.antt =====
-- internal/database/schema.go: the rows of the tables and the state of the SQLite store. A table is a
-- map from its primary key. Foreign keys are not enforced, since the store never turns them on. `up`
-- says whether the driver answers; while it does not, every statement returns an error.
pub mod Users
pub mod Feeds
pub mod Articles
pub mod Sessions
pub mod Unread
pub mod Stars
pub mod Pages
pub mod Accounts
pub mod Orphans
pub mod Audit
pub mod Stats
pub mod Tests
use goread.Base.{
  leb, ◌+◌, ℕ, Bool, true, false, String, Option, none, some, ℤ, Map, if◌then◌else◌, if_true, ◌≡◌,
  List, [], refl, ◌⊎◌, inl, inr,
}

pub record User : Type 0 where
  pub id : ℤ
  pub google_id : String
  pub email : String
  pub name : String
  pub avatar : String
  pub created_at : ℕ
  pub subscription_status : String
  pub subscription_id : String
  pub trial_ends_at : ℕ
  pub last_payment_date : ℕ
  pub next_billing_date : ℕ
  pub is_admin : Bool
  pub free_months_remaining : ℤ
  pub max_articles_on_feed_add : ℤ

pub record Feed : Type 0 where
  pub id : ℤ
  pub title : String
  pub url : String
  pub description : String
  pub created_at : ℕ
  pub updated_at : ℕ
  pub last_fetch : ℕ
  pub last_checked : ℕ
  pub last_had_new_content : ℕ
  pub average_update_interval : ℤ
  pub etag : String
  pub last_modified : String

-- The marks `IsRead` and `IsStarred`, which a query fills from `user_articles`, are left out.
pub record Article : Type 0 where
  pub id : ℤ
  pub feed_id : ℤ
  pub title : String
  pub url : String
  pub content : String
  pub description : String
  pub author : String
  pub published_at : ℕ
  pub created_at : ℕ

-- A row of `user_articles`; its key holds the user and the article.
pub record UserArticle : Type 0 where
  pub is_read : Bool
  pub is_starred : Bool

-- `database.Session`, a row of `sessions`.
pub record SessionRow : Type 0 where
  pub id : String
  pub user_id : ℤ
  pub created_at : ℕ
  pub expires_at : ℕ

-- A row of `audit_logs`.
pub record AuditLog : Type 0 where
  pub id : ℤ
  pub timestamp : ℕ
  pub admin_user_id : ℤ
  pub admin_email : String
  pub operation_type : String
  pub target_user_id : ℤ
  pub target_user_email : String
  pub operation_details : String
  pub ip_address : String
  pub result : String
  pub error_message : String

-- The driver writes a time as a text in the zone of the value, and SQLite compares these texts. `rank` is the
-- place of the text of `published_at` of a stored article in that order, and `bound` the place of the text
-- that the instant of a cursor is bound as, in the zone of the server. `since` is what SQLite answers, at a time,
-- to `a.published_at >= datetime('now', '-90 days')`.
pub record Texts : Type 0 where
  pub rank : Article → ℕ
  pub bound : ℕ → ℕ
  pub since : ℕ → Article → Bool

pub record Db : Type 0 where
  pub up : Bool
  pub texts : Texts
  pub users : Map ℤ User
  pub feeds : Map ℤ Feed
  pub articles : Map ℤ Article
  pub user_feeds : Map (ℤ × ℤ) (Unit {0})
  pub user_articles : Map (ℤ × ℤ) UserArticle
  pub sessions : Map String SessionRow
  pub audit_logs : List AuditLog
  pub next_log : ℕ
  pub next_user : ℕ
  pub next_feed : ℕ
  pub next_article : ℕ

abbrev pub empty_db : Db
empty_db = record {
  up = true;
  texts = record {
    rank = λ article. article.published_at;
    bound = λ time. time;
    since = λ now article. leb now (article.published_at + 7776000000000000);
  };
  users = [];
  feeds = [];
  articles = [];
  user_feeds = [];
  user_articles = [];
  sessions = [];
  audit_logs = [];
  next_log = 1;
  next_user = 1;
  next_feed = 1;
  next_article = 1;
}

pub data DbError : Type 0 where
  unavailable no_rows unique_violation self_demotion : DbError

pub data Result {ℓ} (E : Type 0) (A : Type ℓ) : Type ℓ where
  ok : A → Result E A
  err : E → Result E A

-- A statement that writes returns the new state with its result.
abbrev pub Exec : Type 0 → Type 0
Exec A = Db → Db × Result DbError A

-- A statement that only reads.
abbrev pub Query : Type 0 → Type 0
Query A = Db → Result DbError A

-- What every call of the driver does first.
abbrev pub exec : {A : Type 0} → Exec A → Exec A
exec run db = if db.up then run db else (db, err unavailable)

abbrev pub query : {A : Type 0} → Query A → Query A
query run db = if db.up then run db else err unavailable

pub exec_up : {A : Type 0} (run : Exec A) (db : Db) → db.up ≡ true → exec run db ≡ run db
exec_up run db up = if_true db.up (run db) (db, err unavailable) up

pub query_up : {A : Type 0} (run : Query A) (db : Db) → db.up ≡ true → query run db ≡ run db
query_up run db up = if_true db.up (run db) (err unavailable) up

-- To split on what a statement returned and keep the equation.
pub Result-cases {ℓ} :
    {E : Type 0} {A : Type ℓ} (r : Result E A) → ((a : A) × (r ≡ ok a)) ⊎ ((e : E) × (r ≡ err e))
Result-cases (ok a) = inl (a, refl)
Result-cases (err e) = inr (e, refl)

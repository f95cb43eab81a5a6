-- ===== src/Database/Accounts.antt =====
-- internal/database/schema.go: new users, and how they are found again.
mod Tests
use goread.Base.{
  int_Eq, string_Eq, ℕ, ◌+◌, ◌≡◌, refl, Bool, true, false, not, ◌&&◌, ◌||◌, String, Option, none,
  some, List, [], ◌∷◌, ℤ, pos, Map, lookup, insert, if◌then◌else◌, ◌==◌, nat_eq, is_some, arith,
  ◌∙◌, if_true, beq_refl,
}
use goread.Database.{Db, User, unique_violation, no_rows, ok, err, Exec, Query, exec, query}
use goread.Database.Users.{user_with_email, get_user_by_id, get_user_by_email}

-- 30 days in nanoseconds.
abbrev pub thirty_days : ℕ
thirty_days = 2592000000000000

-- What `CreateUser` fills in.
abbrev pub with_defaults : User → User
with_defaults user = record user {
  subscription_status =
      if user.subscription_status == "" then "trial" else user.subscription_status;
  trial_ends_at =
      if nat_eq user.trial_ends_at 0 then user.created_at + thirty_days else user.trial_ends_at;
  max_articles_on_feed_add =
      if user.max_articles_on_feed_add == pos 0 then pos 100 else user.max_articles_on_feed_add;
}

unfoldable pub user_with_google_id : String → Map ℤ User → Option User
user_with_google_id google_id [] = none
user_with_google_id google_id ((_, user) ∷ m) =
    if user.google_id == google_id then some user else user_with_google_id google_id m

-- The columns that the statement leaves out take their defaults.
abbrev pub new_row : ℕ → User → User
new_row id user = record (with_defaults user) {
  id = pos id;
  is_admin = false;
  free_months_remaining = pos 0;
}

-- The result is the id of the row; Google ids and emails are unique.
unfoldable pub create_user : User → Exec ℤ
create_user user = exec (λ db.
    if is_some (user_with_google_id user.google_id db.users)
      || is_some (user_with_email user.email db.users)
    then (db, err unique_violation)
    else (
      record db {
        users = insert (pos db.next_user) (new_row db.next_user user) db.users;
        next_user = db.next_user + 1;
      },
      ok (pos db.next_user),
    ))

-- A trial end that is null is thirty days after the creation; here the zero time stands for null.
unfoldable pub get_user_by_google_id : String → Query User
get_user_by_google_id google_id = query (λ db. elim (user_with_google_id google_id db.users) [
  | none ↦ err no_rows
  | some user ↦ ok (record user {
    trial_ends_at =
        if nat_eq user.trial_ends_at 0 then user.created_at + thirty_days else user.trial_ends_at;
  })
])

-- Where no row has the key or the Google id, a new row is found by it.
google_id-insert :
    (k : ℤ) (user : User) (google_id : String) (m : Map ℤ User)
    → lookup k m ≡ none
    → user_with_google_id user.google_id m ≡ none
    → user_with_google_id google_id (insert k user m)
      ≡ (if user.google_id == google_id then some user else user_with_google_id google_id m)
unfolding user_with_google_id insert lookup
google_id-insert k user google_id [] free new = ground arith
google_id-insert k user google_id ((j, row) ∷ m) free new = ground (
  arith,
  google_id-insert k user google_id m,
  string_Eq.beq_iff row.google_id google_id,
  string_Eq.beq_iff user.google_id google_id,
  string_Eq.beq_iff row.google_id user.google_id,
)

google_id_unique :
    (k : ℤ) (user : User) (m : Map ℤ User)
    → lookup k m ≡ none
    → user_with_google_id user.google_id m ≡ none
    → user_with_google_id user.google_id (insert k user m) ≡ some user
google_id_unique k user m free new =
    google_id-insert k user user.google_id m free new
    ∙ if_true (user.google_id == user.google_id) _ _ (beq_refl user.google_id)

abbrev added : User → Db → Db
added user db = record db {
  users = insert (pos db.next_user) (new_row db.next_user user) db.users;
  next_user = db.next_user + 1;
}

create_new :
    (user : User) (db : Db)
    → db.up ≡ true
    → user_with_google_id user.google_id db.users ≡ none
    → user_with_email user.email db.users ≡ none
    → create_user user db ≡ (added user db, ok (pos db.next_user))
unfolding create_user
create_new user db up new new_email = if_true db.up _ _ up ∙ rw (new, new_email)

create_known :
    (user known : User) (db : Db)
    → db.up ≡ true
    → user_with_google_id user.google_id db.users ≡ some known
    → create_user user db ≡ (db, err unique_violation)
unfolding create_user
create_known user known db up found = if_true db.up _ _ up ∙ rw found

-- A user with a new Google id and a new email is stored with the defaults of a trial of thirty days and
-- 100 articles, is found by the Google id, while every other Google id finds what it found before, and
-- a second account with that Google id is refused and changes nothing. The driver answers, and no row has
-- the next id.
pub create-get_user :
    (user other : User) (db : Db) (google_id : String)
    → db.up ≡ true
    → lookup (pos db.next_user) db.users ≡ none
    → user_with_google_id user.google_id db.users ≡ none
    → user_with_email user.email db.users ≡ none
    → other.google_id ≡ user.google_id
    → ((create_user user db).1 ≡ ok (pos db.next_user))
      × (user_with_google_id google_id (create_user user db).0.users ≡ (
          if user.google_id == google_id
          then some (new_row db.next_user user)
          else user_with_google_id google_id db.users))
      × (create_user other (create_user user db).0
          ≡ ((create_user user db).0, err unique_violation))
create-get_user user other db google_id up free new new_email same =
    let row = new_row db.next_user user in
    let found = google_id_unique (pos db.next_user) row db.users free new in
    rw (create_new user db up new new_email) (
      refl,
      google_id-insert (pos db.next_user) row google_id db.users free new,
      create_known other row (added user db) up (rw same found),
    )

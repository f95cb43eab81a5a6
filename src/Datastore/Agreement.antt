-- ===== src/Datastore/Agreement.antt =====
-- internal/database/datastore.go against internal/database/schema.go: where the two stores do the same.
pub mod Marks
pub mod Accounts
use goread.Database.{Db, Exec, DbError, Result}
use goread.Datastore.{Store, Ds}
use goread.Base.{◌≡◌, []}

-- All calls are answered.
abbrev pub answering : Db → Store
answering db = record { calls = []; db = db }

-- The method does on the entities what the statement does on the tables, with the same result.
abbrev pub Agrees : {A : Type 0} → Ds A → Exec A → Db → Type 0
Agrees d q db = d (answering db) ≡ (answering (q db).0, (q db).1)

-- ===== src/Datastore.antt =====
-- The client of Google Cloud Datastore, which internal/database/datastore.go calls. The client is not
-- part of the repository: what stands here is the documented behaviour of its calls on the entities of
-- each kind, with a script of faults as a parameter. The kinds hold the same records as the tables of
-- SQLite, so `Db` is used for both; its flag `up` is not read here.
pub mod Users
pub mod Sessions
pub mod Feeds
pub mod Subscriptions
pub mod Marks
pub mod Counts
pub mod Pages
pub mod Orphans
pub mod Agreement
mod Tests
use goread.Base.Eq.{Eq}
use goread.Base.{
  ◌≡◌, refl, ap, delete, Bool, true, false, Option, none, some, List, [], ◌∷◌, Map, lookup,
  if◌then◌else◌, ℕ, ◌-◌, ◌%◌,
}
use goread.Database.{Db, DbError, unavailable, no_rows, Result, ok, err}

-- What the service does with one call. A call whose answer is `lost` is carried out and reported as an
-- error. In a batch read that is `partial`, the keys with `false` are reported as errors of their own.
pub data Outcome : Type 0 where
  answered failed lost : Outcome
  partial : List Bool → Outcome

-- The entities, and the outcomes of the next calls; all calls after these are answered.
pub record Store : Type 0 where
  pub calls : List Outcome
  pub db : Db

-- Datastore keeps times to the microsecond: those of an entity, and those that a query compares.
unfoldable pub micro : ℕ → ℕ
micro time = time - time % 1000

-- A method of `DatastoreDB` makes calls one after the other.
abbrev pub Ds : Type 0 → Type 0
Ds A = Store → Store × Result DbError A

infixl 5 ◌>>=◌ ◌>>◌
abbrev pub ◌>>=◌ : {A B : Type 0} → Ds A → (A → Ds B) → Ds B
◌>>=◌ m k s = elim (m s).1 [ ok a ↦ k a (m s).0 | err e ↦ ((m s).0, err e) ]

abbrev pub ◌>>◌ : {B : Type 0} → Ds (Unit {0}) → Ds B → Ds B
m >> k = m >>= λ _. k

-- After a call that was answered.
pub bind-ok :
    {A B : Type 0} (m : Ds A) (k : A → Ds B) (s s' : Store) (a : A)
    → m s ≡ (s', ok a)
    → (m >>= k) s ≡ k a s'
bind-ok {A} {B} m k s s' a h =
    ap
      (λ (r : Store × Result DbError A).
        let out : Store × Result DbError B = elim r.1 [ ok a ↦ k a r.0 | err e ↦ (r.0, err e) ] in
        out)
      h

-- After a call that failed.
pub bind-err :
    {A B : Type 0} (m : Ds A) (k : A → Ds B) (s : Store) (e : DbError)
    → (m s).1 ≡ err e
    → ((m >>= k) s).1 ≡ err e
bind-err m k s e h = rw (h, ◌>>=◌)

pub bind-fail :
    {A B : Type 0} (m : Ds A) (k : A → Ds B) (s s' : Store) (e : DbError)
    → m s ≡ (s', err e)
    → (m >>= k) s ≡ (s', err e)
bind-fail {A} {B} m k s s' e h =
    ap
      (λ (r : Store × Result DbError A).
        let out : Store × Result DbError B = elim r.1 [ ok a ↦ k a r.0 | err e ↦ (r.0, err e) ] in
        out)
      h

abbrev pub pure : {A : Type 0} → A → Ds A
pure a s = (s, ok a)

abbrev pub fail : {A : Type 0} → DbError → Ds A
fail e s = (s, err e)

-- `if err := m; err != nil { … }` where the error is not returned.
abbrev pub attempt : {A : Type 0} → Ds A → Ds (Option A)
attempt m s = elim (m s).1 [ ok a ↦ ((m s).0, ok (some a)) | err _ ↦ ((m s).0, ok none) ]

abbrev pub call_with : {A : Type 0} → (List Bool → Db → Db × Result DbError A) → Ds A
call_with f s = elim s.calls [
  | [] ↦ (record s { db = (f [] s.db).0 }, (f [] s.db).1)
  | outcome ∷ calls ↦ elim outcome [
    | answered ↦ (record { calls = calls; db = (f [] s.db).0 }, (f [] s.db).1)
    | failed ↦ (record { calls = calls; db = s.db }, err unavailable)
    | lost ↦ (record { calls = calls; db = (f [] s.db).0 }, err unavailable)
    | partial reported ↦ (record { calls = calls; db = (f reported s.db).0 }, (f reported s.db).1)
  ]
]

-- A call that is no batch read.
abbrev pub call : {A : Type 0} → (Db → Db × Result DbError A) → Ds A
call f = call_with (λ _. f)

-- `GetAll`, `Count` and `Run`.
abbrev pub query_entities : {A : Type 0} → (Db → A) → Ds A
query_entities f = call (λ db. (db, ok (f db)))

-- `Put`, `Delete`, `DeleteMulti` and a transaction that only writes.
abbrev pub write_entities : (Db → Db) → Ds (Unit {0})
write_entities f = call (λ db. (f db, ok tt))

-- What `DeleteMulti` leaves.
abbrev pub delete_all : {K V : Type 0} ⦃e : Eq K⦄ → List K → Map K V → Map K V
delete_all [] m = m
delete_all (key ∷ keys) m = delete_all keys (delete key m)

-- What a batch read says of one key.
pub data Slot (V : Type 0) : Type 0 where
  found : V → Slot V
  missing broken : Slot V

module _ {K V : Type 0} ⦃keys : Eq K⦄ where
  -- `Get`, with `ErrNoSuchEntity` as `no_rows`.
  abbrev pub get_entity : (Db → Map K V) → K → Ds V
  get_entity kind key =
      call
        (λ db. (db, elim (lookup key (kind db)) [ none ↦ err no_rows | some entity ↦ ok entity ]))

  abbrev pub slot_of : Map K V → K → Slot V
  slot_of m key = elim (lookup key m) [ none ↦ missing | some entity ↦ found entity ]

  unfoldable pub slots : Map K V → List Bool → List K → List (Slot V)
  slots m reported [] = []
  slots m [] (key ∷ keys) = slot_of m key ∷ slots m [] keys
  slots m (good ∷ reported) (key ∷ keys) =
      let rest = slots m reported keys in if good then slot_of m key ∷ rest else broken ∷ rest

  -- `GetMulti`, whose `MultiError` has one entry for each key.
  abbrev pub get_multi : (Db → Map K V) → List K → Ds (List (Slot V))
  get_multi kind keys = call_with (λ reported db. (db, ok (slots (kind db) reported keys)))

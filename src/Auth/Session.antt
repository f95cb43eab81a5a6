-- ===== src/Auth/Session.antt =====
-- internal/auth/session.go: sessions with their cache. `now` is the
-- reading of the clock during a call. A cached session is shared with its holders by a pointer; here
-- the cache holds its value, and a holder's copy is a snapshot.
pub mod Reads
pub mod OneTime
pub mod Codes
pub mod Expiry
mod Tests
use goread.Base.{
  ◌≤◌, int_Eq, string_Eq, ℕ, suc, ◌+◌, ◌*◌, ◌/◌, Bool, true, false, not, String, Option, none, some,
  if◌then◌else◌, ℤ, pos, negsuc, zero, Map, lookup, insert, delete, keep, ltb, wrap, ◌+ℤ◌, length,
  List, [], ◌∷◌, div_ℕ, mul_ℕ, ltb_ℤ, ◌-◌,
}
use goread.Database.{Db, User, SessionRow, DbError, Result, ok, err}
use goread.Database.Users.{get_user_by_id}
use goread.Database.Sessions

pub record Session : Type 0 where
  pub id : String
  pub user_id : ℤ
  pub user : User
  pub created_at : ℕ
  pub expires_at : ℕ

pub record CachedSession : Type 0 where
  pub session : Session
  pub cached_at : ℕ
  pub cache_expires : ℕ

pub record OauthStateEntry : Type 0 where
  pub expires_at : ℕ
  pub mobile : Bool

pub record AuthCodeEntry : Type 0 where
  pub session_id : String
  pub session_expires_at : ℕ
  pub code_expires_at : ℕ

pub record SessionManager : Type 0 where
  pub db : Db
  pub cache : Map String CachedSession
  pub cache_ttl : ℕ
  pub cache_hits : ℤ
  pub cache_misses : ℤ
  pub oauth_states : Map String OauthStateEntry
  pub auth_codes : Map String AuthCodeEntry

abbrev pub minute : ℕ
minute = 60000000000

-- Seven days.
abbrev pub session_life : ℕ
session_life = 604800000000000

abbrev pub auth_code_ttl : ℕ
auth_code_ttl = 120000000000

-- `cache_ttl` is ten minutes, or what `SESSION_CACHE_TTL` says.
unfoldable pub new_session_manager : Db → ℕ → SessionManager
new_session_manager db cache_ttl = record {
  db = db;
  cache = [];
  cache_ttl = cache_ttl;
  cache_hits = pos 0;
  cache_misses = pos 0;
  oauth_states = [];
  auth_codes = [];
}

-- `id` is what `generateSessionID` returns, `none` where the random source fails.
unfoldable pub create_session :
    SessionManager → ℕ → Option String → User → SessionManager × Option Session
create_session sm now none user = (sm, none)
create_session sm now (some id) user =
    let session : Session = record {
      id = id;
      user_id = user.id;
      user = user;
      created_at = now;
      expires_at = now + session_life;
    } in
    let (db', r) =
      Sessions.create_session
        (record { id = id; user_id = user.id; created_at = now; expires_at = now + session_life })
        sm.db in
    elim r [
      | ok _ ↦ (record sm { db = db' }, some session)
      | err _ ↦ (record sm { db = db' }, none)
    ]

-- An error of the store is logged, and the cache entry is removed all the same.
unfoldable pub delete_session : SessionManager → String → SessionManager
delete_session sm id = record sm {
  db = (Sessions.delete_session id sm.db).0;
  cache = delete id sm.cache;
}

abbrev pub session_of : SessionRow → User → Session
session_of row user = record {
  id = row.id;
  user_id = row.user_id;
  user = user;
  created_at = row.created_at;
  expires_at = row.expires_at;
}

-- The end of `GetSession`, after the user was read.
unfoldable pub store_in_cache :
    SessionManager → ℕ → String → SessionRow → Result DbError User → SessionManager × Option Session
store_in_cache sm now id row (err _) = (sm, none)
store_in_cache sm now id row (ok user) = (
  record sm {
    cache =
        insert id
          (record {
            session = session_of row user;
            cached_at = now;
            cache_expires = now + sm.cache_ttl;
          })
          sm.cache;
  },
  some (session_of row user),
)

-- After the row was read.
unfoldable pub load_row :
    SessionManager
    → ℕ
    → String
    → Result DbError (Option SessionRow)
    → SessionManager × Option Session
load_row sm now id (err _) = (sm, none)
load_row sm now id (ok none) = (sm, none)
load_row sm now id (ok (some row)) =
    if ltb row.expires_at now
    then (delete_session sm id, none)
    else store_in_cache sm now id row (get_user_by_id row.user_id sm.db)

unfoldable pub load_session : SessionManager → ℕ → String → SessionManager × Option Session
load_session sm now id =
    load_row (record sm { cache_misses = wrap (sm.cache_misses +ℤ pos 1) }) now id
      (Sessions.get_session id sm.db)

unfoldable pub get_session : SessionManager → ℕ → String → SessionManager × Option Session
get_session sm now id = elim (lookup id sm.cache) [
  | none ↦ load_session sm now id
  | some cached ↦
      if ltb now cached.cache_expires
      then (record sm { cache_hits = wrap (sm.cache_hits +ℤ pos 1) }, some cached.session)
      else load_session sm now id
]

-- The entry of a session in the cache, extended.
abbrev pub extend : String → ℕ → Map String CachedSession → Map String CachedSession
extend id expiry cache = elim (lookup id cache) [
  | none ↦ cache
  | some cached ↦
      insert id (record cached { session = record (cached.session) { expires_at = expiry } }) cache
]

unfoldable pub refresh_session :
    SessionManager → ℕ → String → SessionManager × Result DbError (Unit {0})
refresh_session sm now id =
    let expiry = now + session_life in
    let (db', r) = Sessions.update_session_expiry id expiry sm.db in
    elim r [
      | err e ↦ (record sm { db = db' }, err e)
      | ok _ ↦ (record sm { db = db'; cache = extend id expiry sm.cache }, ok tt)
    ]

unfoldable pub cleanup_expired_sessions :
    SessionManager → ℕ → SessionManager × Result DbError (Unit {0})
cleanup_expired_sessions sm now =
    let (db', r) = Sessions.delete_expired_sessions now sm.db in (record sm { db = db' }, r)

unfoldable pub cleanup_expired_cache : SessionManager → ℕ → SessionManager
cleanup_expired_cache sm now = record sm {
  cache = keep (λ c. not (ltb c.cache_expires now)) sm.cache;
}

unfoldable pub invalidate_cache : SessionManager → SessionManager
invalidate_cache sm = record sm { cache = [] }

pub record CacheStats : Type 0 where
  pub total : ℕ
  pub expired : ℕ
  pub active : ℕ
  pub hits : ℤ
  pub misses : ℤ
  pub hit_rate : ℤ

unfoldable pub count_expired : ℕ → Map String CachedSession → ℕ
count_expired now [] = 0
count_expired now ((_, c) ∷ m) =
    let rest = count_expired now m in if ltb c.cache_expires now then suc rest else rest

-- `hits * 100 / total`, if the total is positive.
abbrev rate : ℤ → ℤ → ℤ
rate hits (pos zero) = pos 0
rate hits (pos (suc n)) = div_ℕ (wrap (mul_ℕ hits 100)) (suc n)
rate hits (negsuc _) = pos 0

unfoldable pub get_cache_stats : SessionManager → ℕ → CacheStats
get_cache_stats sm now = record {
  total = length sm.cache;
  expired = count_expired now sm.cache;
  active = length sm.cache - count_expired now sm.cache;
  hits = sm.cache_hits;
  misses = sm.cache_misses;
  hit_rate = rate sm.cache_hits (wrap (sm.cache_hits +ℤ sm.cache_misses));
}

unfoldable pub get_cookie_name : Bool → String
get_cookie_name is_production = if is_production then "session_id" else "session_id_local"

-- `cookie` is the value of the request's cookie of that name.
unfoldable pub get_session_from_request :
    SessionManager → ℕ → Option String → SessionManager × Option Session
get_session_from_request sm now none = (sm, none)
get_session_from_request sm now (some id) = get_session sm now id

-- A call of the manager while the clock reads `now`.
pub data Step (now : ℕ) : SessionManager → SessionManager → Type 0 where
  created :
      (sm : SessionManager) (id : Option String) (user : User)
      → Step now sm (create_session sm now id user).0
  got : (sm : SessionManager) (id : String) → Step now sm (get_session sm now id).0
  refreshed : (sm : SessionManager) (id : String) → Step now sm (refresh_session sm now id).0
  deleted : (sm : SessionManager) (id : String) → Step now sm (delete_session sm id)
  expired : (sm : SessionManager) → Step now sm (cleanup_expired_sessions sm now).0
  swept : (sm : SessionManager) → Step now sm (cleanup_expired_cache sm now)
  emptied : (sm : SessionManager) → Step now sm (invalidate_cache sm)
  -- Another process, or another part of this one, writes to the store.
  elsewhere : (sm : SessionManager) (db : Db) → Step now sm (record sm { db = db })

-- The managers that calls lead to from a new one, while the clock does not go back, and the last
-- reading of the clock.
pub data Reachable (cache_ttl : ℕ) : ℕ → SessionManager → Type 0 where
  started : (db : Db) → Reachable cache_ttl 0 (new_session_manager db cache_ttl)
  stepped :
      {t now : ℕ} {sm sm' : SessionManager}
      → Reachable cache_ttl t sm
      → t ≤ now
      → Step now sm sm'
      → Reachable cache_ttl now sm'

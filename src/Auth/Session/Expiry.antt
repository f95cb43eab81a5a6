-- ===== src/Auth/Session/Expiry.antt =====
-- internal/auth/session.go: how long after its expiry a session can still be returned.
use goread.Base.{
  int_Eq, string_Eq, ℕ, ◌+◌, ◌≤◌, ◌≡◌, refl, sym, ◌∙◌, subst, not, String, Option, none, some, Map,
  lookup, ltb, arith, Every, Every-insert, Every-delete, Every-keep, Every-lookup, Option-cases,
  Bool-cases, inl, inr, [], ◌∷◌, wrap, ◌+ℤ◌, pos,
}
use goread.Database.{User, SessionRow, Result, DbError, ok, err, Result-cases}
use goread.Database.Users.{get_user_by_id}
use goread.Database.Sessions
use goread.Auth.Session.{
  SessionManager, Session, CachedSession, session_life, new_session_manager, create_session,
  delete_session, store_in_cache, load_row, load_session, get_session, extend, refresh_session,
  cleanup_expired_sessions, cleanup_expired_cache, invalidate_cache, Step, created, got, refreshed,
  deleted, expired, swept, emptied, elsewhere, Reachable, started, stepped,
}

-- An entry is forgotten at most the TTL after its session expires, and at most the TTL after the clock.
record IsTimely (ttl clock : ℕ) (c : CachedSession) : Type 0 where
  after_session : c.cache_expires ≤ c.session.expires_at + ttl
  after_clock : c.cache_expires ≤ clock + ttl

record IsFresh (ttl clock : ℕ) (sm : SessionManager) : Type 0 where
  same_ttl : sm.cache_ttl ≡ ttl
  timely : Every (IsTimely ttl clock) sm.cache

later :
    (ttl t now : ℕ)
    → t ≤ now
    → (m : Map String CachedSession) → Every (IsTimely ttl t) m
    → Every (IsTimely ttl now) m
later ttl t now order [] h = tt
later ttl t now order ((_, c) ∷ m) h = (
  record { after_session = h.0.after_session; after_clock = omega (arith, h.0.after_clock) },
  later ttl t now order m h.1,
)

module _ (ttl now : ℕ) where
  delete-IsFresh :
      (sm : SessionManager) (id : String)
      → IsFresh ttl now sm
      → IsFresh ttl now (delete_session sm id)
  unfolding delete_session
  delete-IsFresh sm id h = record {
    same_ttl = h.same_ttl;
    timely = Every-delete (IsTimely ttl now) id sm.cache h.timely;
  }

  store-IsFresh :
      (sm : SessionManager) (id : String) (row : SessionRow) (r : Result DbError User)
      → now ≤ row.expires_at
      → IsFresh ttl now sm
      → IsFresh ttl now (store_in_cache sm now id row r).0
  unfolding store_in_cache
  store-IsFresh sm id row (err _) order h = h
  store-IsFresh sm id row (ok user) order h = record {
    same_ttl = h.same_ttl;
    timely =
        Every-insert (IsTimely ttl now) id _ sm.cache
          (record {
            after_session = omega (arith, h.same_ttl);
            after_clock = omega (arith, h.same_ttl);
          })
          h.timely;
  }

  load_row-IsFresh :
      (sm : SessionManager) (id : String) (r : Result DbError (Option SessionRow))
      → IsFresh ttl now sm
      → IsFresh ttl now (load_row sm now id r).0
  unfolding load_row
  load_row-IsFresh sm id (err _) h = h
  load_row-IsFresh sm id (ok none) h = h
  load_row-IsFresh sm id (ok (some row)) h = elim (Bool-cases (ltb row.expires_at now)) [
    | inl past ↦ rw past (delete-IsFresh sm id h)
    | inr current ↦
        rw current (store-IsFresh sm id row (get_user_by_id row.user_id sm.db) (ground arith) h)
  ]

  load-IsFresh :
      (sm : SessionManager) (id : String)
      → IsFresh ttl now sm
      → IsFresh ttl now (load_session sm now id).0
  unfolding load_session
  load-IsFresh sm id h =
      load_row-IsFresh (record sm { cache_misses = _ }) id (Sessions.get_session id sm.db)
        (record { same_ttl = h.same_ttl; timely = h.timely })

  get-IsFresh :
      (sm : SessionManager) (id : String)
      → IsFresh ttl now sm
      → IsFresh ttl now (get_session sm now id).0
  unfolding get_session
  get-IsFresh sm id h = elim (Option-cases (lookup id sm.cache)) [
    | inl absent ↦ rw (absent, get_session) (load-IsFresh sm id h)
    | inr (c, present) ↦ elim (Bool-cases (ltb now c.cache_expires)) [
      | inl valid ↦
          rw (present, get_session) (rw valid (record { same_ttl = h.same_ttl; timely = h.timely }))
      | inr over ↦ rw (present, get_session) (rw over (load-IsFresh sm id h))
    ]
  ]

  extend-IsTimely :
      (id : String) (cache : Map String CachedSession)
      → Every (IsTimely ttl now) cache
      → Every (IsTimely ttl now) (extend id (now + session_life) cache)
  extend-IsTimely id cache h = elim (Option-cases (lookup id cache)) [
    | inl absent ↦ rw (absent, extend) h
    | inr (c, present) ↦
        let old = Every-lookup (IsTimely ttl now) id c cache h present in
        rw (present, extend)
          (Every-insert (IsTimely ttl now) id _ cache
            (record {
              after_session = omega (arith, old.after_clock);
              after_clock = old.after_clock;
            })
            h)
  ]

  -- Another store, with the same cache.
  same_cache-IsFresh :
      (sm sm' : SessionManager)
      → sm'.cache ≡ sm.cache
      → sm'.cache_ttl ≡ sm.cache_ttl
      → IsFresh ttl now sm
      → IsFresh ttl now sm'
  same_cache-IsFresh sm sm' same_cache same_ttl h = record {
    same_ttl = same_ttl ∙ h.same_ttl;
    timely = subst (Every (IsTimely ttl now)) (sym same_cache) h.timely;
  }

  refresh-IsFresh :
      (sm : SessionManager) (id : String)
      → IsFresh ttl now sm
      → IsFresh ttl now (refresh_session sm now id).0
  unfolding refresh_session
  refresh-IsFresh sm id h =
      elim (Result-cases (Sessions.update_session_expiry id (now + session_life) sm.db).1) [
        | inl (_, updated) ↦
            rw (updated, refresh_session)
              (record { same_ttl = h.same_ttl; timely = extend-IsTimely id sm.cache h.timely })
        | inr (e, failed) ↦
            rw (failed, refresh_session) (record { same_ttl = h.same_ttl; timely = h.timely })
      ]

  create-IsFresh :
      (sm : SessionManager) (id : Option String) (user : User)
      → IsFresh ttl now sm
      → IsFresh ttl now (create_session sm now id user).0
  unfolding create_session
  create-IsFresh sm none user h = h
  create-IsFresh sm (some id) user h =
      same_cache-IsFresh sm (create_session sm now (some id) user).0 (ground arith) (ground arith) h

  step-IsFresh :
      {sm sm' : SessionManager} → Step now sm sm' → IsFresh ttl now sm → IsFresh ttl now sm'
  unfolding cleanup_expired_sessions cleanup_expired_cache invalidate_cache
  step-IsFresh (created sm id user) h = create-IsFresh sm id user h
  step-IsFresh (got sm id) h = get-IsFresh sm id h
  step-IsFresh (refreshed sm id) h = refresh-IsFresh sm id h
  step-IsFresh (deleted sm id) h = delete-IsFresh sm id h
  step-IsFresh (expired sm) h = record { same_ttl = h.same_ttl; timely = h.timely }
  step-IsFresh (swept sm) h = record {
    same_ttl = h.same_ttl;
    timely = Every-keep (IsTimely ttl now) (λ c. not (ltb c.cache_expires now)) sm.cache h.timely;
  }
  step-IsFresh (emptied sm) h = record { same_ttl = h.same_ttl; timely = tt }
  step-IsFresh (elsewhere sm db) h = record { same_ttl = h.same_ttl; timely = h.timely }

Reachable-IsFresh : {ttl t : ℕ} {sm : SessionManager} → Reachable ttl t sm → IsFresh ttl t sm
unfolding new_session_manager
Reachable-IsFresh (started db) = record { same_ttl = refl; timely = tt }
Reachable-IsFresh {ttl} (stepped {t} {now} {sm} r order step) =
    let h = Reachable-IsFresh r in
    step-IsFresh ttl now step
      (record { same_ttl = h.same_ttl; timely = later ttl t now order sm.cache h.timely })

read_row-in_time :
    (sm : SessionManager) (now : ℕ) (id : String) (r : Result DbError (Option SessionRow))
    (s : Session)
    → (load_row sm now id r).1 ≡ some s
    → now ≤ s.expires_at
unfolding load_row store_in_cache
read_row-in_time sm now id (err _) s e = cc
read_row-in_time sm now id (ok none) s e = cc
read_row-in_time sm now id (ok (some row)) s e = ground arith

-- A session is never returned later than the cache's TTL after its expiry, whatever calls were made
-- before, by this process or to the store by others, while the clock does not go back.
pub get_session-in_time :
    (ttl t now : ℕ) (sm : SessionManager) (id : String) (s : Session)
    → Reachable ttl t sm
    → t ≤ now
    → (get_session sm now id).1 ≡ some s
    → now ≤ s.expires_at + ttl
unfolding get_session load_session
get_session-in_time ttl t now sm id s r order returned =
    let missed : SessionManager = record sm { cache_misses = wrap (sm.cache_misses +ℤ pos 1) } in
    let read = read_row-in_time missed now id (Sessions.get_session id sm.db) s in
    elim (Option-cases (lookup id sm.cache)) [
      | inl absent ↦ ground (arith, absent, read, returned)
      | inr (c, present) ↦
          let h = Reachable-IsFresh r in
          let entry = Every-lookup (IsTimely ttl t) id c sm.cache h.timely present in
          ground (arith, present, read, returned, entry.after_session)
    ]

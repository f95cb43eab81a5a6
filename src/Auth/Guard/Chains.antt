-- ===== src/Auth/Guard/Chains.antt =====
-- internal/auth/middleware.go, csrf.go and cron.go: what the chains of handlers that main.go puts before
-- its routes let through.
use goread.Base.{
  string_Eq, ℕ, ◌≡◌, Bool, true, false, ◌&&◌, ◌||◌, not, String, Option, none, some, if◌then◌else◌,
  ◌==◌, arith, Option-cases, Bool-cases, inl, inr, ◌∙◌, if_true,
}
use goread.Auth.Session.{Session, SessionManager, get_session_from_request}
use goread.Auth.Guard.{
  Presented, Outcome, goes_on, aborted, panicked, State, new_context, Mac, get_or_load_session,
  let_in, require_auth, require_admin, optional_auth, csrf_middleware, followed_by, is_safe_method,
  validate_token, verify_cron_request,
}

-- A request that changes nothing, or one that carries the token of its session.
abbrev pub is_genuine : Mac → Presented → Session → Bool
is_genuine generate_token p session =
    is_safe_method p.request.method
    || (not (p.request.header "X-CSRF-Token" == "")
        && generate_token session.id == p.request.header "X-CSRF-Token")

abbrev pub api_outcome : Mac → Presented → Option Session → Outcome
api_outcome generate_token p none = aborted 401
api_outcome generate_token p (some session) =
    if is_genuine generate_token p session then goes_on else aborted 403

abbrev pub admin_outcome : Mac → Presented → Option Session → Outcome
admin_outcome generate_token p none = aborted 401
admin_outcome generate_token p (some session) =
    if session.user.is_admin && is_genuine generate_token p session then goes_on else aborted 403

-- The middleware on a context that holds a session.
csrf-loaded :
    (generate_token : Mac) (now : ℕ) (p : Presented) (sm : SessionManager) (session : Session)
    (user : Option _)
    → (csrf_middleware generate_token now p
        (sm, record { session = some (some session); user = user })).1
      ≡ (if is_genuine generate_token p session then goes_on else aborted 403)
unfolding csrf_middleware get_or_load_session validate_token
csrf-loaded generate_token now p sm session user =
    let safe = is_safe_method p.request.method in
    elim (Bool-cases safe) [
      | inl harmless ↦ ground (arith, harmless)
      | inr writing ↦ ground (arith, writing)
    ]

require_auth-found :
    (now : ℕ) (p : Presented) (sm : SessionManager) (session : Session)
    → (get_session_from_request sm now p.cookie).1 ≡ some session
    → require_auth now p (sm, new_context) ≡ (
      let_in now
          (
            (get_session_from_request sm now p.cookie).0,
            record { session = some (some session); user = none },
          )
          session,
      goes_on,
    )
unfolding require_auth get_or_load_session
require_auth-found now p sm session found =
    rw (found, require_auth) (rw (found, get_or_load_session))

require_admin-found :
    (now : ℕ) (p : Presented) (sm : SessionManager) (session : Session)
    → (get_session_from_request sm now p.cookie).1 ≡ some session
    → session.user.is_admin ≡ true
    → require_admin now p (sm, new_context) ≡ (
      let_in now
          (
            (get_session_from_request sm now p.cookie).0,
            record { session = some (some session); user = none },
          )
          session,
      goes_on,
    )
unfolding require_admin get_or_load_session
require_admin-found now p sm session found admin =
    rw (found, require_admin)
      (rw (found, get_or_load_session) (if_true session.user.is_admin _ _ admin))

require_admin-other :
    (now : ℕ) (p : Presented) (sm : SessionManager) (session : Session)
    → (get_session_from_request sm now p.cookie).1 ≡ some session
    → session.user.is_admin ≡ false
    → (require_admin now p (sm, new_context)).1 ≡ aborted 403
unfolding require_admin get_or_load_session
require_admin-other now p sm session found other = rw (found, require_admin) (rw other)

require-none :
    (now : ℕ) (p : Presented) (sm : SessionManager)
    → (get_session_from_request sm now p.cookie).1 ≡ none
    → ((require_auth now p (sm, new_context)).1 ≡ aborted 401)
      × ((require_admin now p (sm, new_context)).1 ≡ aborted 401)
unfolding require_auth require_admin get_or_load_session
require-none now p sm absent = (rw (absent, require_auth), rw (absent, require_admin))

-- What a handler refuses, the chain refuses.
followed_by-aborted :
    (first second : State → State × Outcome) (s : State) (code : ℕ)
    → (first s).1 ≡ aborted code
    → (followed_by first second s).1 ≡ aborted code
unfolding followed_by
followed_by-aborted first second s code h = rw (h, followed_by)

followed_by-goes_on :
    (first second : State → State × Outcome) (s s' : State)
    → first s ≡ (s', goes_on)
    → (followed_by first second s).1 ≡ (second s').1
unfolding followed_by
followed_by-goes_on first second s s' h = rw (h, followed_by) (rw h)

optional_auth-none :
    (now : ℕ) (p : Presented) (sm : SessionManager)
    → (get_session_from_request sm now p.cookie).1 ≡ none
    → optional_auth now p (sm, new_context) ≡ (
      ((get_session_from_request sm now p.cookie).0, record { session = some none; user = none }),
      goes_on,
    )
unfolding optional_auth get_or_load_session
optional_auth-none now p sm absent = rw (absent, optional_auth) (rw (absent, get_or_load_session))

-- An API request reaches its handler exactly when its cookie names a session that can be loaded, and,
-- unless its method is safe, it carries the CSRF token of that session, not the empty one; otherwise it
-- is answered with 401 or 403. The two handlers never read a nil session.
pub api-outcome :
    (generate_token : Mac) (now : ℕ) (p : Presented) (sm : SessionManager)
    → (followed_by (require_auth now p) (csrf_middleware generate_token now p) (sm, new_context)).1
      ≡ api_outcome generate_token p (get_session_from_request sm now p.cookie).1
unfolding let_in
api-outcome generate_token now p sm =
    elim (Option-cases (get_session_from_request sm now p.cookie).1) [
      | inl absent ↦ rw absent (followed_by-aborted _ _ _ 401 (require-none now p sm absent).0)
      | inr (session, found) ↦ rw found (
          followed_by-goes_on _ _ _ _ (require_auth-found now p sm session found)
          ∙ csrf-loaded generate_token now p _ session _)
    ]

-- An admin request reaches its handler exactly when its session can be loaded, the user of the session
-- is an administrator, and the request is safe or carries the CSRF token of the session. Otherwise it gets
-- 401 without a session, and 403 with one.
pub admin-outcome :
    (generate_token : Mac) (now : ℕ) (p : Presented) (sm : SessionManager)
    → (followed_by (require_admin now p) (csrf_middleware generate_token now p) (sm, new_context)).1
      ≡ admin_outcome generate_token p (get_session_from_request sm now p.cookie).1
unfolding let_in
admin-outcome generate_token now p sm =
    elim (Option-cases (get_session_from_request sm now p.cookie).1) [
      | inl absent ↦ rw absent (followed_by-aborted _ _ _ 401 (require-none now p sm absent).1)
      | inr (session, found) ↦ rw found (elim (Bool-cases session.user.is_admin) [
        | inl admin ↦ rw admin (
            followed_by-goes_on _ _ _ _ (require_admin-found now p sm session found admin)
            ∙ csrf-loaded generate_token now p _ session _)
        | inr other ↦
            rw other
              (followed_by-aborted _ _ _ 403 (require_admin-other now p sm session found other))
      ])
    ]

-- Where a request without a session passes a first handler that admits it, a second one that loads the
-- session takes the stored nil pointer for a session and reads it: OptionalAuth before RequireAuth or
-- RequireAdmin panics instead of answering 401.
pub optional_auth-panics :
    (now : ℕ) (p : Presented) (sm : SessionManager)
    → (get_session_from_request sm now p.cookie).1 ≡ none
    → ((followed_by (optional_auth now p) (require_auth now p) (sm, new_context)).1 ≡ panicked)
      × ((followed_by (optional_auth now p) (require_admin now p) (sm, new_context)).1 ≡ panicked)
unfolding require_auth require_admin get_or_load_session
optional_auth-panics now p sm absent = (
  followed_by-goes_on _ _ _ _ (optional_auth-none now p sm absent),
  followed_by-goes_on _ _ _ _ (optional_auth-none now p sm absent),
)

abbrev pub cron_allowed : String → Presented → Option Session → Bool
cron_allowed admin_token p none = false
cron_allowed admin_token p (some session) =
    session.user.is_admin
    && (not (admin_token == "") && p.request.header "X-Admin-Token" == admin_token)

-- Outside App Engine, a cron job is started exactly by a request whose session belongs to an
-- administrator and that presents the admin token, which is not empty.
pub cron-allowed :
    (admin_token : String) (now : ℕ) (p : Presented) (sm : SessionManager)
    → verify_cron_request false admin_token p (optional_auth now p (sm, new_context)).0.1
      ≡ cron_allowed admin_token p (get_session_from_request sm now p.cookie).1
unfolding verify_cron_request optional_auth get_or_load_session let_in
cron-allowed admin_token now p sm =
    elim (Option-cases (get_session_from_request sm now p.cookie).1) [
      | inl absent ↦ rw absent
      | inr (session, found) ↦ rw found
    ]

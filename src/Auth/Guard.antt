-- ===== src/Auth/Guard.antt =====
-- internal/auth/middleware.go, csrf.go, cron.go and tasks.go: which requests reach their handlers. The
-- keyed hash of CSRF tokens (HMAC-SHA256 in base64, with the secret) is a parameter.
pub mod Chains
mod Tests
use goread.Base.{
  string_Eq, ℕ, Bool, true, false, ◌&&◌, ◌||◌, not, String, Option, none, some, if◌then◌else◌, ◌==◌,
}
use goread.Database.{User}
use goread.Auth.Client.{Request}
use goread.Auth.Session.{Session, SessionManager, get_session_from_request, refresh_session}

-- What the middleware keeps in the context of a request. `some none` is the nil pointer of type
-- `*Session` that stands for a session that was not found.
pub record Context : Type 0 where
  pub session : Option (Option Session)
  pub user : Option User

abbrev pub new_context : Context
new_context = record { session = none; user = none }

-- The results `(nil, false)`, `(session, true)` and `(nil, true)`.
pub data Loaded : Type 0 where
  no_session : Loaded
  loaded : Session → Loaded
  nil_session : Loaded

-- What becomes of a request: the next handler runs, an answer with a status is written, or a nil
-- pointer is read.
pub data Outcome : Type 0 where
  goes_on : Outcome
  aborted : ℕ → Outcome
  panicked : Outcome

abbrev pub State : Type 0
State = SessionManager × Context

-- What a request presents: the cookie of the session, and its headers.
pub record Presented : Type 0 where
  pub cookie : Option String
  pub request : Request

abbrev pub loaded_of : Option Session → Loaded
loaded_of none = no_session
loaded_of (some session) = loaded session

-- The assertion to `*Session` holds for the nil pointer too.
unfoldable pub get_or_load_session : ℕ → Presented → State → State × Loaded
get_or_load_session now p (sm, c) = elim (c.session) [
  | some (some session) ↦ ((sm, c), loaded session)
  | some none ↦ ((sm, c), nil_session)
  | none ↦
      let (sm', found) = get_session_from_request sm now p.cookie in
      ((sm', record c { session = some found }), loaded_of found)
]

-- The refresh and the user in the context.
unfoldable pub let_in : ℕ → State → Session → State
let_in now (sm, c) session =
    ((refresh_session sm now session.id).0, record c { user = some (session.user) })

unfoldable pub require_auth : ℕ → Presented → State → State × Outcome
require_auth now p s =
    let (s', found) = get_or_load_session now p s in
    elim found [
      | no_session ↦ (s', aborted 401)
      | nil_session ↦ (s', panicked)
      | loaded session ↦ (let_in now s' session, goes_on)
    ]

-- The answer is a redirection to the page for signing in.
unfoldable pub require_auth_page : ℕ → Presented → State → State × Outcome
require_auth_page now p s =
    let (s', found) = get_or_load_session now p s in
    elim found [
      | no_session ↦ (s', aborted 302)
      | nil_session ↦ (s', panicked)
      | loaded session ↦ (let_in now s' session, goes_on)
    ]

unfoldable pub optional_auth : ℕ → Presented → State → State × Outcome
optional_auth now p s =
    let (s', found) = get_or_load_session now p s in
    elim found [
      | no_session ↦ (s', goes_on)
      | nil_session ↦ (s', panicked)
      | loaded session ↦ (let_in now s' session, goes_on)
    ]

unfoldable pub require_admin : ℕ → Presented → State → State × Outcome
require_admin now p s =
    let (s', found) = get_or_load_session now p s in
    elim found [
      | no_session ↦ (s', aborted 401)
      | nil_session ↦ (s', panicked)
      | loaded session ↦
          if session.user.is_admin then (let_in now s' session, goes_on) else (s', aborted 403)
    ]

abbrev pub get_user_from_context : Context → Option User
get_user_from_context c = c.user

-- `GenerateToken`: the encoded hash of a session id.
abbrev pub Mac : Type 0
Mac = String → String

unfoldable pub validate_token : Mac → String → String → Bool
validate_token generate_token session_id token = generate_token session_id == token

abbrev pub is_safe_method : String → Bool
is_safe_method method = method == "GET" || method == "HEAD" || method == "OPTIONS"

unfoldable pub csrf_middleware : Mac → ℕ → Presented → State → State × Outcome
csrf_middleware generate_token now p s =
    let (s', found) = get_or_load_session now p s in
    let token = p.request.header "X-CSRF-Token" in
    if is_safe_method p.request.method then (s, goes_on) else elim found [
      | no_session ↦ (s', aborted 401)
      | nil_session ↦ (s', if token == "" then aborted 403 else panicked)
      | loaded session ↦ (
        s',
        if token == ""
            then aborted 403
            else if validate_token generate_token session.id token
            then goes_on
            else aborted 403,
      )
    ]

-- One handler after another: the second runs if the first lets the request go on.
unfoldable pub followed_by :
    (State → State × Outcome) → (State → State × Outcome) → State → State × Outcome
followed_by first second s =
    let (s', outcome) = first s in
    elim outcome [
      | goes_on ↦ second s'
      | aborted code ↦ (s', aborted code)
      | panicked ↦ (s', panicked)
    ]

-- `admin_token` is the secret, or the empty string if it cannot be loaded.
unfoldable pub verify_cron_request : Bool → String → Presented → Context → Bool
verify_cron_request on_app_engine admin_token p c =
    if on_app_engine
    then p.request.header "X-Appengine-Cron" == "true"
    else elim (get_user_from_context c) [
      | none ↦ false
      | some user ↦
          user.is_admin
          && (not (admin_token == "") && p.request.header "X-Admin-Token" == admin_token)
    ]

unfoldable pub verify_task_request : Bool → String → Presented → Context → Bool
verify_task_request on_app_engine admin_token p c =
    if on_app_engine
    then not (p.request.header "X-AppEngine-QueueName" == "")
    else verify_cron_request on_app_engine admin_token p c

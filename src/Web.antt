-- ===== src/Web.antt =====
-- internal/web: the guards of server.go, the account handlers of handlers_auth.go and handlers.go,
-- and their routes. A reply is its status code; bodies, cookies and the audit log are left out.
pub mod Guarded
pub mod Passwords
pub mod Settings
pub mod Sound
use text.Mathlib.Text.{starts_with}
use frpilot.Prelude.{ℕ, String, str_eq, Bool, true, false, if◌then◌else◌, not, Option, none, some}
use frpilot.Prelude.Text.{trim_space, after_prefix}
use frpilot.Platform.{Platform}
use frpilot.Exec.{Result, ok, err, Exec, pure, attempt, ignore, ◌>>=◌, ◌>>◌}
use frpilot.Store.Users.{User, Accounts}
use frpilot.Store.Sessions.{delete_user_sessions}
use frpilot.Auth.Register.{role_admin}
use frpilot.Auth.Login.{auth, logout}
use frpilot.Auth.Manage.{delete_user_as, approve_user, set_role, verify_password, set_password}

abbrev bearer_token : String → String
bearer_token header =
    if starts_with header "Bearer " then trim_space (after_prefix header "Bearer ") else ""

-- The token of the cookie, if it is there and not empty, or else of the header Authorization.
unfoldable pub session_token : Option String → String → String
unfolding after_prefix
session_token none header = bearer_token header
session_token (some c) header = if str_eq c "" then bearer_token header else c

abbrev pub guarded : (User → Exec Accounts ℕ) → Option User → Exec Accounts ℕ
guarded next none = pure 401
guarded next (some u) = next u

unfoldable pub require_auth : ℕ → String → (User → Exec Accounts ℕ) → Exec Accounts ℕ
require_auth now token next = do u ← auth now token; guarded next u

abbrev pub admin_only : (User → Exec Accounts ℕ) → User → Exec Accounts ℕ
admin_only next u = if not (str_eq u.role role_admin) then pure 403 else next u

unfoldable pub require_admin : ℕ → String → (User → Exec Accounts ℕ) → Exec Accounts ℕ
require_admin now token next = do u ← auth now token; guarded (admin_only next) u

-- `if err != nil { errJSON(w, 400, err); return }`, and what follows.
abbrev pub then_ok : Result (Unit {0}) → Exec Accounts ℕ → Exec Accounts ℕ
then_ok (err e) rest = pure 400
then_ok (ok x) rest = rest

unfoldable pub handle_logout : String → User → Exec Accounts ℕ
handle_logout token u = do ignore (logout token); pure 200

unfoldable pub handle_delete_self : String → User → Exec Accounts ℕ
handle_delete_self token u = do
  r ← attempt (delete_user_as u.id u.id u.role)
  then_ok r (do ignore (logout token); pure 200)

unfoldable pub handle_change_password :
    Platform → (salt : ℕ) → (old new : String) → User → Exec Accounts ℕ
handle_change_password p salt old new u = if not (verify_password p u old) then pure 400 else do
  r ← attempt (set_password p salt u.id new)
  then_ok r (do ignore (delete_user_sessions u.id); pure 200)

unfoldable pub handle_approve_user : ℕ → Bool → User → Exec Accounts ℕ
handle_approve_user i approve u = do r ← attempt (approve_user i approve); then_ok r (pure 200)

unfoldable pub handle_set_role : ℕ → String → User → Exec Accounts ℕ
handle_set_role i role u = do r ← attempt (set_role i role); then_ok r (pure 200)

unfoldable pub handle_delete_user : ℕ → User → Exec Accounts ℕ
handle_delete_user i u = do r ← attempt (delete_user_as i u.id u.role); then_ok r (pure 200)

-- The requests on accounts that need a session.
pub data Call : Type 0 where
  logs_out deletes_self : Call
  changes_password : (salt : ℕ) (old new : String) → Call
  approves : (id : ℕ) → Bool → Call
  sets_role : (id : ℕ) → String → Call
  deletes_user : (id : ℕ) → Call

-- The routes of those requests.
unfoldable pub serve_call : Platform → ℕ → String → Call → Exec Accounts ℕ
unfolding require_auth require_admin
serve_call p now token logs_out = require_auth now token (handle_logout token)
serve_call p now token deletes_self = require_auth now token (handle_delete_self token)
serve_call p now token (changes_password salt old new) =
    require_auth now token (handle_change_password p salt old new)
serve_call p now token (approves i b) = require_admin now token (handle_approve_user i b)
serve_call p now token (sets_role i role) = require_admin now token (handle_set_role i role)
serve_call p now token (deletes_user i) = require_admin now token (handle_delete_user i)

-- ===== src/Auth/Invariant.antt =====
-- Every operation on accounts keeps the schema's constraints, whatever it returns and whichever
-- statements fault.
use frpilot.Prelude.{ℕ, ℤ, refl, String, Bool, Option, none, some, List, [], ◌∷◌}
use frpilot.Platform.{Platform}
use frpilot.Exec.{Result, Disk}
use frpilot.Exec.Keeps.{Keeps, keeps_rules}
use frpilot.Store.Users.{
  User, Accounts, scan_user, create_user, get_user_by_id, get_user_by_name, count_users, list_users,
  update_user_role, update_user_status, update_user_last_login, update_user_password,
}
use frpilot.Store.Sessions.{create_session, delete_session}
use frpilot.Store.Limits.{get_login_limit, register_login_failure, clear_login_limit}
use frpilot.Store.Valid.{
  IsValid, insert_user-IsValid, remove_session-IsValid, insert_session-IsValid, put_limit-IsValid,
  drop_limit-IsValid, update-Keeps, delete_user-Keeps,
}
use frpilot.Auth.Register.{status_approved, create_named, register}
use frpilot.Auth.Login.{
  Limits, is_login_limited, register_failure, clear_failures, open_session, finish_login,
  login_with_client, logout,
}
use frpilot.Auth.Manage.{is_last_admin, delete_user_as, approve_user, set_role, set_password}

create_user-Keeps : (u : User) → Keeps IsValid (create_user u)
unfolding create_user
create_user-Keeps u = search (keeps_rules, insert_user-IsValid)

create_named-Keeps : (u : User) → Keeps IsValid (create_named u)
unfolding create_named
create_named-Keeps u = record { at = λ d h. (create_user-Keeps u).at d h }

scan_user-Keeps : (o : Option User) → Keeps IsValid (scan_user o)
unfolding scan_user
scan_user-Keeps none = search keeps_rules
scan_user-Keeps (some u) = search keeps_rules

get_user_by_id-Keeps : (i : ℕ) → Keeps IsValid (get_user_by_id i)
unfolding get_user_by_id
get_user_by_id-Keeps i = search (keeps_rules, scan_user-Keeps)

get_user_by_name-Keeps : (n : String) → Keeps IsValid (get_user_by_name n)
unfolding get_user_by_name
get_user_by_name-Keeps n = search (keeps_rules, scan_user-Keeps)

ruleset user_rules = (keeps_rules, get_user_by_id-Keeps, get_user_by_name-Keeps, delete_user-Keeps)

register-Keeps :
    (p : Platform) (salt now : ℕ) (username password mode : String)
    → Keeps IsValid (register p salt now username password mode)
unfolding register count_users
register-Keeps p salt now username password mode = search (keeps_rules, create_named-Keeps) depth 12

register_login_failure-Keeps :
    (k : String) (m l w now : ℕ) → Keeps IsValid (register_login_failure k m l w now)
unfolding register_login_failure
register_login_failure-Keeps k m l w now = search (keeps_rules, put_limit-IsValid) depth 12

is_login_limited-Keeps : (now : ℕ) (a i : String) → Keeps IsValid (is_login_limited now a i)
unfolding is_login_limited get_login_limit
is_login_limited-Keeps now a i = search keeps_rules depth 12

register_failure-Keeps :
    (now : ℕ) (l : Limits) (a i : String) → Keeps IsValid (register_failure now l a i)
unfolding register_failure
register_failure-Keeps now l a i = search (keeps_rules, register_login_failure-Keeps) depth 8

clear_failures-Keeps : (a i : String) → Keeps IsValid (clear_failures a i)
unfolding clear_failures clear_login_limit
clear_failures-Keeps a i = search (keeps_rules, drop_limit-IsValid) depth 8

last_login-Keeps : (i now : ℕ) → Keeps IsValid (update_user_last_login i now)
unfolding update_user_last_login
last_login-Keeps i now =
    search (
      keeps_rules,
      update-Keeps i (λ u. record u { last_login = some now }) (λ u. refl) (λ u. refl),
    )

open_session-Keeps :
    (now : ℕ) (r : Result String) (days : ℤ) (u : User) → Keeps IsValid (open_session now r days u)
unfolding open_session create_session
open_session-Keeps now r days u =
    search (keeps_rules, insert_session-IsValid, last_login-Keeps) depth 10

finish_login-Keeps :
    (now : ℕ) (r : Result String) (days : ℤ) (l : Limits) (a i : String) (o : Option User)
    → Keeps IsValid (finish_login now r days l a i o)
finish_login-Keeps now r days l a i none = search (keeps_rules, register_failure-Keeps)
finish_login-Keeps now r days l a i (some u) =
    search (keeps_rules, clear_failures-Keeps, open_session-Keeps)

login-Keeps :
    (p : Platform) (now : ℕ) (r : Result String) (u w : String) (days : ℤ) (l : Limits) (c : String)
    → Keeps IsValid (login_with_client p now r u w days l c)
unfolding login_with_client
login-Keeps p now r u w days l c =
    search (user_rules, is_login_limited-Keeps, finish_login-Keeps) depth 8

delete_user_as-Keeps : (i j : ℕ) (role : String) → Keeps IsValid (delete_user_as i j role)
unfolding delete_user_as is_last_admin list_users
delete_user_as-Keeps i j role = search user_rules depth 10

approve_user-Keeps : (i : ℕ) (b : Bool) → Keeps IsValid (approve_user i b)
unfolding approve_user update_user_status
approve_user-Keeps i b =
    search
      (
        user_rules,
        update-Keeps i (λ u. record u { status = status_approved }) (λ u. refl) (λ u. refl),
      )
      depth 8

set_role-Keeps : (i : ℕ) (role : String) → Keeps IsValid (set_role i role)
unfolding set_role update_user_role
set_role-Keeps i role =
    search (user_rules, update-Keeps i (λ u. record u { role = role }) (λ u. refl) (λ u. refl))
      depth 8

set_password-Keeps :
    (p : Platform) (salt i : ℕ) (pw : String) → Keeps IsValid (set_password p salt i pw)
unfolding set_password update_user_password
set_password-Keeps p salt i pw =
    search
      (
        keeps_rules,
        λ (h : String).
            update-Keeps i (λ u. record u { password_hash = h }) (λ u. refl) (λ u. refl),
      )
      depth 10

-- The requests that reach the accounts, with the time and the random values that they meet.
pub data Request : Type 0 where
  registers : (salt now : ℕ) (username password mode : String) → Request
  logs_in :
      (now : ℕ) (random : Result String) (username password : String) (ttl_days : ℤ)
      → Limits
      → (client : String) → Request
  logs_out : String → Request
  deletes : (target operator : ℕ) (role : String) → Request
  approves : ℕ → Bool → Request
  sets_role : ℕ → String → Request
  sets_password : (salt id : ℕ) (password : String) → Request

unfoldable pub serve : Platform → Request → Disk Accounts → Disk Accounts
serve p (registers salt now u w mode) d = (register p salt now u w mode d).1
serve p (logs_in now r u w days l c) d = (login_with_client p now r u w days l c d).1
serve p (logs_out t) d = (logout t d).1
serve p (deletes i j role) d = (delete_user_as i j role d).1
serve p (approves i b) d = (approve_user i b d).1
serve p (sets_role i role) d = (set_role i role d).1
serve p (sets_password salt i w) d = (set_password p salt i w d).1

unfoldable pub serve_all : Platform → List Request → Disk Accounts → Disk Accounts
serve_all p [] d = d
serve_all p (r ∷ rs) d = serve_all p rs (serve p r d)

logout-Keeps : (t : String) → Keeps IsValid (logout t)
unfolding logout delete_session
logout-Keeps t = search (keeps_rules, remove_session-IsValid)

pub serve-IsValid :
    (p : Platform) (r : Request) (d : Disk Accounts) → IsValid d.rows → IsValid (serve p r d).rows
unfolding serve
serve-IsValid p (registers salt now u w mode) d v = (register-Keeps p salt now u w mode).at d v
serve-IsValid p (logs_in now r u w days l c) d v = (login-Keeps p now r u w days l c).at d v
serve-IsValid p (logs_out t) d v = (logout-Keeps t).at d v
serve-IsValid p (deletes i j role) d v = (delete_user_as-Keeps i j role).at d v
serve-IsValid p (approves i b) d v = (approve_user-Keeps i b).at d v
serve-IsValid p (sets_role i role) d v = (set_role-Keeps i role).at d v
serve-IsValid p (sets_password salt i w) d v = (set_password-Keeps p salt i w).at d v

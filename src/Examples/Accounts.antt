-- ===== src/Examples/Accounts.antt =====
-- Accounts: a registration, a login, a lock and a deletion.
use frpilot.Prelude.{
  ◌≡◌, ◌≢◌, ◌≤◌, ◌<◌, ◌⊎◌, refl, String, str_eq, str_ne, false, if◌then◌else◌, none, some, List, [],
  ◌∷◌, pos, inl, arith, find?, count,
}
use frpilot.Exec.{Result, ok, err, Disk, calm, storage, account_locked, ◌>>=◌}
use frpilot.Store.Users.{User, Session, LoginLimit, Accounts, has_id, has_name}
use frpilot.Store.Sessions.{has_token}
use frpilot.Store.Limits.{lookup}
use frpilot.Store.Valid.{IsValid, empty, empty-IsValid}
use frpilot.Auth.Register.{register, role_admin, role_user, status_approved, status_pending}
use frpilot.Prelude.Text.{trim_space, ends_in_colon}
use frpilot.Store.Users.{get_user_by_id}
use frpilot.Auth.Login.{Limits, account_key, login_with_client, auth}
use frpilot.Auth.Manage.{is_admin, delete_user_as}
use frpilot.Auth.Invariant.{Request, registers, logs_in, deletes, sets_role, serve_all}
use frpilot.Auth.Accounts.{AllAccounts}
use frpilot.Auth.Served.{serve_all-AllAccounts}
use frpilot.Auth.Lockout.{lockout, login-locked, fail_at}
use frpilot.Auth.Access.{auth_sound, register-role, delete-auth}
use frpilot.Auth.Admins.{delete_user_as-HasAdmin}
use frpilot.Examples.{plain}

abbrev pub alice : User
alice = record {
  id = 1;
  username = "alice";
  password_hash = "secret12";
  role = role_admin;
  status = status_approved;
  created_at = 100;
  last_login = none;
}

abbrev pub bob : User
bob = record alice { id = 2; username = "bob"; role = role_user }

abbrev pub ticket : Session
ticket = record { token = "t1"; user_id = 2; expires_at = 900 }

abbrev shut : LoginLimit
shut = record { failures = 5; locked_until = some 700; last_failed = some 100 }

abbrev pub tables : Accounts
tables = record { users = alice ∷ bob ∷ []; next_user = 3; sessions = ticket ∷ []; limits = [] }

abbrev shut_tables : Accounts
shut_tables = record tables { limits = (account_key plain "alice", shut) ∷ [] }

abbrev limits : Limits
limits = record {
  max_fails = pos 5;
  ip_max_fails = pos 15;
  lock_minutes = pos 10;
  window_minutes = pos 15;
}

tables-IsValid : IsValid tables
tables-IsValid = record {
  ids = (((λ e. omega (arith, e)), tt), (tt, tt));
  fresh = (omega arith, (omega arith, tt));
  names = (((λ e. str_ne "bob" "alice" "bob" refl refl e), tt), (tt, tt));
  tokens = (tt, tt);
}

abbrev entry : Result (User × String) × Disk Accounts
entry =
    login_with_client plain 200 (ok "t2") " alice " "secret12" (pos 7) limits "10.0.0.1"
      (calm tables)

abbrev some_requests : List Request
some_requests =
    registers 1 100 "alice" "secret12" "open"
    ∷ logs_in 200 (ok "t1") "alice" "secret12" (pos 7) limits "::1"
    ∷ registers 2 300 "bob" "secret34" "approval"
    ∷ sets_role 2 "admin"
    ∷ deletes 1 2 "admin"
    ∷ []

serve_all-AllAccounts_example :
    IsValid (serve_all plain some_requests (calm empty)).rows
    × AllAccounts plain (serve_all plain some_requests (calm empty)).rows
serve_all-AllAccounts_example =
    serve_all-AllAccounts plain some_requests (calm empty) empty-IsValid tt

abbrev answered : User × String
answered = (alice, "t2")

name_key : "account:alice" ≡ account_key plain (trim_space "alice")
unfolding account_key trim_space
name_key = refl

no_colon : ends_in_colon "account:alice" ≡ false
unfolding ends_in_colon
no_colon = refl

shut_row : lookup "account:alice" shut_tables.limits ≡ some shut
unfolding lookup account_key
shut_row = refl

login-locked_example :
    let r =
      login_with_client plain 300
        (ok "t3")
        "alice"
        "secret12"
        (pos 7)
        limits
        "10.0.0.1"
        (calm shut_tables) in
    (r.1.rows ≡ shut_tables) × ((r.0 ≡ err account_locked) ⊎ (r.0 ≡ err storage))
login-locked_example =
    login-locked plain 300 (ok "t3") "alice" "secret12" (pos 7) limits "10.0.0.1" "account:alice"
      shut (calm shut_tables) (inl name_key) no_colon shut_row refl

let_in : (auth 300 "t1" (calm tables)).0 ≡ ok (some bob)
unfolding auth ◌>>=◌ frpilot.Store.Sessions.get_session get_user_by_id
let_in = refl

auth_sound_example :
    (s : Session) × (find? (has_token "t1") tables.sessions ≡ some s)
    × (300 ≤ s.expires_at)
    × (find? (has_id s.user_id) tables.users ≡ some bob)
    × (bob.status ≡ status_approved)
auth_sound_example = auth_sound 300 "t1" (calm tables) bob let_in

signed_up :
    (register plain 1 100 "carol" "secret12" "approval" (calm tables)).0
    ≡ ok (record {
      id = 3;
      username = "carol";
      password_hash = "secret12";
      role = role_user;
      status = status_pending;
      created_at = 100;
      last_login = none;
    })
unfolding register ◌>>=◌ frpilot.Auth.Register.validate_password
    frpilot.Auth.Register.validate_username trim_space frpilot.Store.Users.count_users
    frpilot.Store.Users.create_user
signed_up = refl

abbrev carol : User
carol = record {
  id = 3;
  username = "carol";
  password_hash = "secret12";
  role = role_user;
  status = status_pending;
  created_at = 100;
  last_login = none;
}

abbrev approval : String
approval = "approval"

register-role_example :
    ((tables.users ≡ []) × (carol.role ≡ role_admin) × (carol.status ≡ status_approved))
    ⊎ ((tables.users ≢ [])
        × (carol.role ≡ "user")
        × (approval ≢ "closed")
        × (carol.status
            ≡ (if str_eq "approval" "approval" then status_pending else status_approved)))
register-role_example =
    register-role plain 1 100 "carol" "secret12" "approval" (calm tables) carol signed_up

abbrev alone : Accounts
alone = record tables {
  sessions = record { token = "t9"; user_id = 1; expires_at = 900 } ∷ ticket ∷ [];
}

alice_in : (auth 300 "t9" (delete_user_as 2 1 role_admin (calm alone)).1).0 ≡ ok (some alice)
unfolding auth ◌>>=◌ frpilot.Store.Sessions.get_session delete_user_as get_user_by_id
    frpilot.Auth.Manage.is_last_admin frpilot.Store.Users.delete_user
alice_in = refl

alone_left : (delete_user_as 2 1 role_admin (calm alone)).0 ≡ ok tt
unfolding delete_user_as ◌>>=◌ get_user_by_id frpilot.Auth.Manage.is_last_admin
    frpilot.Store.Users.delete_user
alone_left = refl

delete-auth_example : alice.id ≢ 2
delete-auth_example =
    delete-auth 2 1 role_admin (calm alone) (delete_user_as 2 1 role_admin (calm alone)).1
      alone_left refl 300 "t9" alice alice_in

delete_user_as-HasAdmin_example :
    0 < count is_admin (delete_user_as 1 2 role_user (calm tables)).1.rows.users
delete_user_as-HasAdmin_example =
    delete_user_as-HasAdmin 1 2 bob (calm tables) tables-IsValid.ids refl (omega arith)

lockout_example :
    lookup "ip:a" (fail_at "ip:a" 2 600 900 (100 ∷ 200 ∷ []) (calm tables)).rows.limits
    ≡ some (record { failures = 2; locked_until = some 800; last_failed = some 200 })
unfolding lookup
lockout_example =
    lockout "ip:a" 2 600 900 100 (200 ∷ []) (calm tables) (λ n. refl) refl (omega arith)
      (omega arith, omega arith, tt)

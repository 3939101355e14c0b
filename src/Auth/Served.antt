-- ===== src/Auth/Served.antt =====
-- What every row of the table `users` looks like, whichever requests have been served. The requests
-- and their service are those of Invariant.antt.
use frpilot.Prelude.{
  ℕ, ℤ, ◌≡◌, refl, ◌⊎◌, inl, String, str_eq, eq_iff, not, ◌&&◌, Bool, false, Option, none, some,
  List, [], ◌∷◌, arith,
}
use frpilot.Prelude.Text.{trim_space}
use frpilot.Platform.{Platform}
use frpilot.Exec.{Result, Disk}
use frpilot.Exec.Keeps.{Keeps, Keeps-bind, Keeps-from_result, Keeps-if, keeps_rules}
use frpilot.Store.Users.{
  User, Accounts, scan_user, get_user_by_id, get_user_by_name, count_users, list_users, delete_user,
  update_user_role, update_user_status, update_user_last_login, update_user_password,
}
use frpilot.Store.Sessions.{create_session, delete_session}
use frpilot.Store.Limits.{get_login_limit, register_login_failure, clear_login_limit}
use frpilot.Store.Valid.{IsValid}
use frpilot.Auth.Register.{role_admin, role_user, status_approved, new_user, register}
use frpilot.Auth.Login.{
  Limits, is_login_limited, register_failure, clear_failures, open_session, finish_login,
  login_with_client, logout,
}
use frpilot.Auth.Manage.{is_last_admin, delete_user_as, approve_user, set_role, set_password}
use frpilot.Auth.Invariant.{
  Request, registers, logs_in, logs_out, deletes, approves, sets_role, sets_password, serve,
  serve_all, serve-IsValid,
}
use frpilot.Auth.Accounts.{
  Keeps-check, AllAccounts, create_named-Keeps, new_user-IsAccount, update_user-Keeps,
  same-IsAccount, delete_rows-AllAccounts, insert_session-AllAccounts,
}

module _ (p : Platform) where
  scan_user-Keeps : (o : Option User) → Keeps (AllAccounts p) (scan_user o)
  unfolding scan_user
  scan_user-Keeps none = search keeps_rules
  scan_user-Keeps (some u) = search keeps_rules

  get_user_by_id-Keeps : (i : ℕ) → Keeps (AllAccounts p) (get_user_by_id i)
  unfolding get_user_by_id
  get_user_by_id-Keeps i = search (keeps_rules, scan_user-Keeps)

  get_user_by_name-Keeps : (n : String) → Keeps (AllAccounts p) (get_user_by_name n)
  unfolding get_user_by_name
  get_user_by_name-Keeps n = search (keeps_rules, scan_user-Keeps)

  delete_user-Keeps : (i : ℕ) → Keeps (AllAccounts p) (delete_user i)
  unfolding delete_user
  delete_user-Keeps i = search (keeps_rules, delete_rows-AllAccounts)

  register-Keeps :
      (salt now : ℕ) (username password mode : String)
      → Keeps (AllAccounts p) (register p salt now username password mode)
  unfolding register count_users
  register-Keeps salt now username password mode = Keeps-bind _ _ (Keeps-from_result _) (λ x.
      Keeps-check _ _ (λ y accepted.
        search
          (
            keeps_rules,
            λ (hash : String) (first : Bool).
                create_named-Keeps p (new_user (trim_space username) hash first mode now)
                  (λ n. new_user-IsAccount p (trim_space username) hash mode first now n accepted),
          )
          depth 12))

  register_failure-Keeps :
      (now : ℕ) (l : Limits) (a i : String) → Keeps (AllAccounts p) (register_failure now l a i)
  unfolding register_failure register_login_failure
  register_failure-Keeps now l a i = search keeps_rules depth 16

  clear_failures-Keeps : (a i : String) → Keeps (AllAccounts p) (clear_failures a i)
  unfolding clear_failures clear_login_limit
  clear_failures-Keeps a i = search keeps_rules depth 8

  last_login-Keeps : (i now : ℕ) → Keeps (AllAccounts p) (update_user_last_login i now)
  unfolding update_user_last_login
  last_login-Keeps i now = search (
    keeps_rules,
    update_user-Keeps p i (λ u. record u { last_login = some now })
        (λ u is. same-IsAccount p u _ refl refl refl is),
  )

  open_session-Keeps :
      (now : ℕ) (r : Result String) (days : ℤ) (u : User)
      → Keeps (AllAccounts p) (open_session now r days u)
  unfolding open_session create_session
  open_session-Keeps now r days u =
      search (keeps_rules, insert_session-AllAccounts, last_login-Keeps) depth 10

  finish_login-Keeps :
      (now : ℕ) (r : Result String) (days : ℤ) (l : Limits) (a i : String) (o : Option User)
      → Keeps (AllAccounts p) (finish_login now r days l a i o)
  finish_login-Keeps now r days l a i none = search (keeps_rules, register_failure-Keeps)
  finish_login-Keeps now r days l a i (some u) =
      search (keeps_rules, clear_failures-Keeps, open_session-Keeps)

  login-Keeps :
      (now : ℕ) (r : Result String) (u w : String) (days : ℤ) (l : Limits) (c : String)
      → Keeps (AllAccounts p) (login_with_client p now r u w days l c)
  unfolding login_with_client is_login_limited get_login_limit
  login-Keeps now r u w days l c =
      search (keeps_rules, get_user_by_name-Keeps, finish_login-Keeps) depth 16

  delete_user_as-Keeps : (i j : ℕ) (role : String) → Keeps (AllAccounts p) (delete_user_as i j role)
  unfolding delete_user_as is_last_admin list_users
  delete_user_as-Keeps i j role =
      search (keeps_rules, get_user_by_id-Keeps, delete_user-Keeps) depth 10

  approve_user-Keeps : (i : ℕ) (b : Bool) → Keeps (AllAccounts p) (approve_user i b)
  unfolding approve_user update_user_status
  approve_user-Keeps i b =
      search
        (
          keeps_rules,
          delete_user-Keeps,
          update_user-Keeps p i (λ u. record u { status = status_approved })
              (λ u is. record { named = is.named; ranked = is.ranked; settled = inl refl }),
        )
        depth 8

  set_role-Keeps : (i : ℕ) (role : String) → Keeps (AllAccounts p) (set_role i role)
  unfolding set_role update_user_role
  set_role-Keeps i role =
      Keeps-if _ _ _ (λ e. search keeps_rules)
        (λ e.
          Keeps-bind _ _
            (update_user-Keeps p i (λ u. record u { role = role })
              (λ u is. record { named = is.named; ranked = known e; settled = is.settled }))
            (λ c. search keeps_rules))
    where
      known :
          (not (str_eq role role_admin) && not (str_eq role role_user)) ≡ false
          → (role ≡ role_admin) ⊎ (role ≡ role_user)
      known e = ground (arith, eq_iff role role_admin, eq_iff role role_user)

  set_password-Keeps : (salt i : ℕ) (pw : String) → Keeps (AllAccounts p) (set_password p salt i pw)
  unfolding set_password update_user_password
  set_password-Keeps salt i pw =
      search
        (
          keeps_rules,
          λ (h : String).
              update_user-Keeps p i (λ u. record u { password_hash = h })
                (λ u is. same-IsAccount p u _ refl refl refl is),
        )
        depth 10

  logout-Keeps : (t : String) → Keeps (AllAccounts p) (logout t)
  unfolding logout delete_session
  logout-Keeps t = search keeps_rules

  serve-AllAccounts :
      (r : Request) (d : Disk Accounts) → AllAccounts p d.rows → AllAccounts p (serve p r d).rows
  unfolding serve
  serve-AllAccounts (registers salt now u w mode) d h = (register-Keeps salt now u w mode).at d h
  serve-AllAccounts (logs_in now r u w days l c) d h = (login-Keeps now r u w days l c).at d h
  serve-AllAccounts (logs_out t) d h = (logout-Keeps t).at d h
  serve-AllAccounts (deletes i j role) d h = (delete_user_as-Keeps i j role).at d h
  serve-AllAccounts (approves i b) d h = (approve_user-Keeps i b).at d h
  serve-AllAccounts (sets_role i role) d h = (set_role-Keeps i role).at d h
  serve-AllAccounts (sets_password salt i w) d h = (set_password-Keeps salt i w).at d h

  -- From valid tables in which each account has a name that the validation accepts, one of the two
  -- roles and one of the two statuses, and so from a new database, every sequence of requests to
  -- register, log in and out, delete, approve, set a role and set a password leads to tables of that
  -- kind, whatever the requests hold and whichever statements fault.
  pub serve_all-AllAccounts :
      (rs : List Request) (d : Disk Accounts)
      → IsValid d.rows
      → AllAccounts p d.rows
      → IsValid (serve_all p rs d).rows × AllAccounts p (serve_all p rs d).rows
  unfolding serve_all
  serve_all-AllAccounts [] d v h = (v, h)
  serve_all-AllAccounts (r ∷ rs) d v h =
      serve_all-AllAccounts rs (serve p r d) (serve-IsValid p r d v) (serve-AllAccounts r d h)

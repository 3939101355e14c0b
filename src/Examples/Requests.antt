-- ===== src/Examples/Requests.antt =====
-- Requests on accounts: a change of the password.
use frpilot.Prelude.{◌≡◌, ◌≢◌, ◌⊎◌, refl, All, some, true}
use frpilot.Exec.{ok, calm}
use frpilot.Store.Users.{User}
use frpilot.Auth.Login.{auth}
use frpilot.Web.{changes_password, serve_call, deletes_user}
use frpilot.Web.Guarded.{IsGuarded, serve_call-IsGuarded}
use frpilot.Web.Passwords.{change_password-fresh}
use frpilot.Examples.{plain}
use frpilot.Examples.Accounts.{tables}

serve_call-IsGuarded_example :
    IsGuarded 300 "t1" true (calm tables) (serve_call plain 300 "t1" (deletes_user 1) (calm tables))
serve_call-IsGuarded_example = serve_call-IsGuarded plain 300 "t1" (deletes_user 1) (calm tables)

changed :
    (serve_call plain 300 "t1" (changes_password 1 "secret12" "newpass99") (calm tables)).0 ≡ ok 200
unfolding serve_call frpilot.Exec.◌>>=◌ auth frpilot.Store.Sessions.get_session
    frpilot.Store.Users.get_user_by_id frpilot.Web.handle_change_password
    frpilot.Auth.Manage.verify_password frpilot.Auth.Manage.set_password
    frpilot.Auth.Register.validate_password frpilot.Store.Users.update_user_password
changed = refl

change_password-fresh_example :
    let b =
      (serve_call plain 300 "t1"
        (changes_password 1 "secret12" "newpass99")
        (calm tables)).1.rows in
    (u : User) × ((auth 300 "t1" (calm tables)).0 ≡ ok (some u))
    × (plain.matches u.password_hash "secret12" ≡ true)
    × All (λ s. s.user_id ≢ u.id) b.sessions
    × All (λ v. (v.id ≢ u.id) ⊎ (plain.matches v.password_hash "newpass99" ≡ true)) b.users
change_password-fresh_example =
    change_password-fresh plain 300 1 "t1" "secret12" "newpass99" tables changed

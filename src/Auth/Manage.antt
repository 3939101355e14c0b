-- ===== src/Auth/Manage.antt =====
-- internal/auth/auth.go: DeleteUser, ApproveUser, SetRole, VerifyPassword and SetPassword.
use frpilot.Prelude.{ℕ, String, str_eq, Bool, false, if◌then◌else◌, leb, ◌==◌, ◌&&◌, not, count}
use frpilot.Platform.{Platform}
use frpilot.Exec.{
  last_admin, not_permitted, illegal_role, Exec, pure, fail, from_result, ◌>>=◌, ◌>>◌,
}
use frpilot.Store.Users.{
  User, Accounts, get_user_by_id, list_users, delete_user, update_user_status, update_user_role,
  update_user_password,
}
use frpilot.Auth.Register.{role_admin, role_user, status_approved, validate_password}

abbrev pub is_admin : User → Bool
is_admin u = str_eq u.role role_admin

-- The target is the operator, and no other account is an administrator.
unfoldable pub is_last_admin : User → ℕ → ℕ → Exec Accounts Bool
is_last_admin target target_id operator_id =
    if is_admin target
    then (do users ← list_users; pure (leb (count is_admin users) 1 && target_id == operator_id))
    else pure false

unfoldable pub delete_user_as : ℕ → ℕ → String → Exec Accounts (Unit {0})
delete_user_as target_id operator_id operator_role = do
  target ← get_user_by_id target_id
  last ← is_last_admin target target_id operator_id
  if last
      then fail last_admin
      else if not (str_eq operator_role role_admin) && not (target_id == operator_id)
      then fail not_permitted
      else delete_user target_id

unfoldable pub approve_user : ℕ → Bool → Exec Accounts (Unit {0})
approve_user i approve =
    if approve then (do changed ← update_user_status i status_approved; pure tt) else delete_user i

unfoldable pub set_role : ℕ → String → Exec Accounts (Unit {0})
set_role i role =
    if not (str_eq role role_admin) && not (str_eq role role_user)
    then fail illegal_role
    else do changed ← update_user_role i role; pure tt

unfoldable pub verify_password : Platform → User → String → Bool
verify_password p u pw = p.matches u.password_hash pw

unfoldable pub set_password : Platform → ℕ → ℕ → String → Exec Accounts (Unit {0})
set_password p salt i pw = do
  from_result (validate_password p pw)
  hash ← from_result (p.hash salt pw)
  update_user_password i hash

-- ===== src/Auth/Register.antt =====
-- internal/auth/auth.go: Register and the validation of names and passwords.
use Prim.Native.String.{len}
use frpilot.Prelude.{ℕ, String, str_eq, Bool, if◌then◌else◌, ltb, ◌==◌, ◌&&◌, ◌||◌, not, none}
use frpilot.Prelude.Text.{trim_space, any_char}
use frpilot.Platform.{Platform}
use frpilot.Exec.{
  unique_violation, username_taken, weak_password, invalid_username, registration_closed, Result,
  ok, err, Exec, pure, fail, from_result, ◌>>=◌, ◌>>◌,
}
use frpilot.Store.Users.{User, Accounts, create_user, count_users}

abbrev pub role_admin : String
role_admin = "admin"

abbrev pub role_user : String
role_user = "user"

abbrev pub status_approved : String
status_approved = "approved"

abbrev pub status_pending : String
status_pending = "pending"

unfoldable pub is_first_user : Exec Accounts Bool
is_first_user = do n ← count_users; pure (n == 0)

unfoldable pub validate_password : Platform → String → Result (Unit {0})
unfolding any_char
validate_password p pw =
    if ltb (len pw) 8
    then err weak_password
    else if any_char p.is_letter pw && any_char p.is_digit pw
    then ok tt
    else err weak_password

-- The runes that a name may not hold.
abbrev pub is_bad_rune : Platform → ℕ → Bool
is_bad_rune p c = not (p.is_letter c || p.is_digit c || c == b'.' || c == b'-' || c == b'_')

unfoldable pub validate_username : Platform → String → Result (Unit {0})
unfolding any_char
validate_username p name =
    if len name == 0 || ltb 64 (len name)
    then err invalid_username
    else if any_char (is_bad_rune p) name
    then err invalid_username
    else ok tt

-- An error text that contains UNIQUE becomes ErrUsernameTaken.
abbrev pub name_taken : Result User → Result User
name_taken (ok u) = ok u
name_taken (err unique_violation) = err username_taken
name_taken (err e) = err e

unfoldable pub create_named : User → Exec Accounts User
create_named u d = (name_taken (create_user u d).0, (create_user u d).1)

-- The account before the database numbers it.
unfoldable pub new_user : String → String → Bool → String → ℕ → User
new_user name hash first mode now = record {
  id = 0;
  username = name;
  password_hash = hash;
  role = if first then role_admin else role_user;
  status =
      if first
      then status_approved
      else if str_eq mode "approval"
      then status_pending
      else status_approved;
  created_at = now;
  last_login = none;
}

unfoldable pub register : Platform → ℕ → ℕ → String → String → String → Exec Accounts User
unfolding is_first_user create_named new_user
register p salt now username password mode = do
  let name = trim_space username
  from_result (validate_password p password)
  from_result (validate_username p name)
  first ← is_first_user
  if not first && str_eq mode "closed" then fail registration_closed else do
    hash ← from_result (p.hash salt password)
    create_named (new_user name hash first mode now)

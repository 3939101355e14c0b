-- ===== src/Auth/Login.antt =====
-- internal/auth/auth.go: Login, LoginWithClient, the login limits, Auth and Logout.
use Prim.Native.String.{◌++◌ as join_text}
use frpilot.Prelude.{
  ℕ, suc, ◌+◌, ◌-◌, ◌*◌, ◌/◌, ℤ, pos, negsuc, String, str_eq, Bool, true, false, if◌then◌else◌, ltb,
  not, positive_or, pos_part, times, raise_to, wrap64, Option, none, some,
}
use frpilot.Prelude.Text.{trim_space, ends_in_colon}
use frpilot.Platform.{Platform}
use frpilot.Exec.{
  account_locked, invalid_creds, pending_approval, Result, ok, err, Exec, pure, fail, attempt,
  from_result, ◌>>=◌, ◌>>◌,
}
use frpilot.Store.Users.{
  User, Session, LoginLimit, Accounts, get_user_by_name, get_user_by_id, update_user_last_login,
}
use frpilot.Store.Sessions.{create_session, get_session, delete_session}
use frpilot.Store.Limits.{get_login_limit, locked_at, register_login_failure, clear_login_limit}
use frpilot.Auth.Register.{status_approved}

unfoldable pub account_key : Platform → String → String
account_key p name = join_text "account:" (p.to_lower name)

unfoldable pub ip_key : String → String
ip_key client = join_text "ip:" client

abbrev pub is_locked : ℕ → Option LoginLimit → Bool
is_locked now none = false
is_locked now (some l) = locked_at now l.locked_until

-- One turn of the loop of `isLoginLimited`.
unfoldable pub is_key_limited : ℕ → String → Exec Accounts Bool
is_key_limited now key =
    if ends_in_colon key
    then pure false
    else do limit ← get_login_limit key; pure (is_locked now limit)

unfoldable pub is_login_limited : ℕ → String → String → Exec Accounts Bool
unfolding is_key_limited
is_login_limited now account ip = do
  first ← is_key_limited now account
  if first then pure true else is_key_limited now ip

-- The four limits of a login, in the order of the source's arguments.
pub record Limits : Type 0 where
  pub max_fails : ℤ
  pub ip_max_fails : ℤ
  pub lock_minutes : ℤ
  pub window_minutes : ℤ

-- `time.Duration(n) * time.Minute`, which is an int64 of nanoseconds and wraps, rounded up to whole
-- seconds; a duration that is not positive is 0, which as a window and as a lock has the same effect.
unfoldable pub minutes : ℕ → ℕ
minutes n = (pos_part (wrap64 (pos (n * 60000000000))) + 999999999) / 1000000000

-- `n * 3`, which wraps; a count below 0 is 0, as the table takes both for 1.
unfoldable pub three_times : ℕ → ℕ
three_times n = pos_part (wrap64 (pos (n * 3)))

unfoldable pub register_failure : ℕ → Limits → String → String → Exec Accounts (Unit {0})
unfolding minutes three_times
register_failure now l account ip = do
  let max_fails = positive_or l.max_fails 5
  let ip_max_fails = positive_or l.ip_max_fails (three_times max_fails)
  let lock_for = minutes (positive_or l.lock_minutes 10)
  let window = minutes (positive_or l.window_minutes 15)
  locked ← register_login_failure account max_fails lock_for window now
  if ends_in_colon ip
      then pure tt
      else do ip_locked ← register_login_failure ip ip_max_fails lock_for window now; pure tt

unfoldable pub clear_failures : String → String → Exec Accounts (Unit {0})
clear_failures account ip = do
  clear_login_limit account
  if ends_in_colon ip then pure tt else clear_login_limit ip

-- The hash that the password is compared with: a dummy for a name that is not there.
abbrev pub hash_of : Platform → Result User → String
hash_of p (ok u) = u.password_hash
hash_of p (err e) = p.dummy_hash

-- The second of the moment that is some nanoseconds later or earlier; one before the second 0 is 0.
abbrev pub seconds_after : ℕ → ℤ → ℕ
seconds_after now (pos ns) = now + ns / 1000000000
seconds_after now (negsuc ns) = now - suc (ns / 1000000000)

-- `time.Now().Add(time.Duration(days) * 24 * time.Hour)`: the duration is an int64 of nanoseconds,
-- and wraps from 106752 days on.
unfoldable pub expires_after : ℕ → ℤ → ℕ
expires_after now days = seconds_after now (wrap64 (times 86400000000000 days))

-- From the password check on: the session is made for a user that is approved.
unfoldable pub open_session : ℕ → Result String → ℤ → User → Exec Accounts (User × String)
unfolding expires_after
open_session now random ttl_days u =
    if not (str_eq u.status status_approved) then fail pending_approval else do
      token ← from_result random
      create_session
          (record { token = token; user_id = u.id; expires_at = expires_after now ttl_days })
      update_user_last_login u.id now
      pure (u, token)

abbrev pub check_user : Platform → Result User → String → Option User
check_user p (err e) password = none
check_user p (ok u) password = if p.matches (hash_of p (ok u)) password then some u else none

abbrev pub finish_login :
    ℕ → Result String → ℤ → Limits → String → String → Option User → Exec Accounts (User × String)
finish_login now random ttl_days l account ip none = do
  register_failure now l account ip
  fail invalid_creds
finish_login now random ttl_days l account ip (some u) = do
  clear_failures account ip
  open_session now random ttl_days u

unfoldable pub login_with_client :
    Platform
    → ℕ
    → Result String
    → String
    → String
    → ℤ
    → Limits
    → String
    → Exec Accounts (User × String)
login_with_client p now random username password ttl_days l client = do
  let name = trim_space username
  let account = account_key p name
  let ip = ip_key client
  limited ← is_login_limited now account ip
  if limited then fail account_locked else do
    found ← attempt (get_user_by_name name)
    finish_login now random ttl_days l account ip (check_user p found password)

unfoldable pub login :
    Platform → ℕ → Result String → String → String → ℤ → ℤ → ℤ → Exec Accounts (User × String)
login p now random username password ttl_days max_fails lock_minutes =
    login_with_client p now random username password ttl_days
      (record {
        max_fails = max_fails;
        ip_max_fails = wrap64 (times 3 max_fails);
        lock_minutes = lock_minutes;
        window_minutes = raise_to 15 (wrap64 (times 2 lock_minutes));
      })
      ""

-- `err != nil` and a user that is not approved give nil.
abbrev pub approved_only : Result User → Option User
approved_only (err e) = none
approved_only (ok u) = if str_eq u.status status_approved then some u else none

abbrev pub session_user : ℕ → Result Session → Exec Accounts (Option User)
session_user now (err e) = pure none
session_user now (ok s) =
    if ltb s.expires_at now
    then pure none
    else do u ← attempt (get_user_by_id s.user_id); pure (approved_only u)

unfoldable pub auth : ℕ → String → Exec Accounts (Option User)
auth now token =
    if str_eq token "" then pure none else do s ← attempt (get_session token); session_user now s

unfoldable pub logout : String → Exec Accounts (Unit {0})
logout token = delete_session token

-- ===== src/Store/Users.antt =====
-- internal/store/users.go: the tables `users`, `sessions` and `login_limits`, and the operations
-- on `users`. Those on the other two tables are in Sessions.antt and Limits.antt.
use frpilot.Prelude.{
  ℕ, suc, String, str_eq, Bool, true, false, if◌then◌else◌, ◌==◌, Option, none, some, List, [], ◌∷◌,
  ◌++◌, length, find?, keep, any, change,
}
use frpilot.Exec.{
  Result, ok, err, not_found, unique_violation, Exec, pure, fail, query, execute, ignore, ◌>>=◌,
}

pub record User : Type 0 where
  pub id : ℕ
  pub username : String
  pub password_hash : String
  pub role : String
  pub status : String
  pub created_at : ℕ
  pub last_login : Option ℕ

pub record Session : Type 0 where
  pub token : String
  pub user_id : ℕ
  pub expires_at : ℕ

pub record LoginLimit : Type 0 where
  pub failures : ℕ
  pub locked_until : Option ℕ
  pub last_failed : Option ℕ

-- `next_user` is the AUTOINCREMENT counter of `users`.
pub record Accounts : Type 0 where
  pub users : List User
  pub next_user : ℕ
  pub sessions : List Session
  pub limits : List (String × LoginLimit)

-- WHERE id=?
abbrev pub has_id : ℕ → User → Bool
has_id i u = u.id == i

-- WHERE username=?
abbrev pub has_name : String → User → Bool
has_name n u = str_eq u.username n

-- scanUser: no row is `ErrNotFound`.
unfoldable pub scan_user : Option User → Exec Accounts User
scan_user none = fail not_found
scan_user (some u) = pure u

unfoldable pub insert_user : User → Accounts → Result User × Accounts
insert_user u a = if any (has_name u.username) a.users then (err unique_violation, a) else (
  ok (record u { id = a.next_user }),
  record a { users = a.users ++ record u { id = a.next_user } ∷ []; next_user = suc a.next_user },
)

unfoldable pub create_user : User → Exec Accounts User
unfolding insert_user
create_user u = execute (insert_user u)

unfoldable pub get_user_by_id : ℕ → Exec Accounts User
unfolding scan_user
get_user_by_id i = do row ← query (λ a. find? (has_id i) a.users); scan_user row

unfoldable pub get_user_by_name : String → Exec Accounts User
unfolding scan_user
get_user_by_name n = do row ← query (λ a. find? (has_name n) a.users); scan_user row

unfoldable pub count_users : Exec Accounts ℕ
count_users = query (λ a. length a.users)

unfoldable pub list_users : Exec Accounts (List User)
list_users = query (λ a. a.users)

-- UPDATE users SET … WHERE id=?, with the number of rows that it changed.
unfoldable pub update_user : ℕ → (User → User) → Accounts → Result Bool × Accounts
update_user i f a = (ok (any (has_id i) a.users), record a { users = change (has_id i) f a.users })

unfoldable pub update_user_role : ℕ → String → Exec Accounts Bool
unfolding update_user
update_user_role i role = execute (update_user i (λ u. record u { role = role }))

unfoldable pub update_user_status : ℕ → String → Exec Accounts Bool
unfolding update_user
update_user_status i status = execute (update_user i (λ u. record u { status = status }))

unfoldable pub delete_rows : ℕ → Accounts → Result Bool × Accounts
delete_rows i a = (
  ok (any (has_id i) a.users),
  record a { users = keep (λ u. if has_id i u then false else true) a.users },
)

unfoldable pub delete_session_rows : ℕ → Accounts → Result (Unit {0}) × Accounts
delete_session_rows i a =
    (ok tt, record a { sessions = keep (λ s. if s.user_id == i then false else true) a.sessions })

unfoldable pub delete_user : ℕ → Exec Accounts (Unit {0})
unfolding delete_rows delete_session_rows
delete_user i = do
  affected ← execute (delete_rows i)
  if affected then execute (delete_session_rows i) else fail not_found

unfoldable pub update_user_last_login : ℕ → ℕ → Exec Accounts (Unit {0})
unfolding update_user
update_user_last_login i now =
    ignore (execute (update_user i (λ u. record u { last_login = some now })))

unfoldable pub update_user_password : ℕ → String → Exec Accounts (Unit {0})
unfolding update_user
update_user_password i hash = do
  affected ← execute (update_user i (λ u. record u { password_hash = hash }))
  if affected then pure tt else fail not_found

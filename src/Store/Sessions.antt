-- ===== src/Store/Sessions.antt =====
-- internal/store/users.go: the operations on the table `sessions`.
use frpilot.Prelude.{
  ℕ, String, str_eq, Bool, true, false, if◌then◌else◌, ltb, Option, none, some, [], ◌∷◌, ◌++◌,
  find?, keep, any,
}
use frpilot.Exec.{
  Result, ok, err, not_found, unique_violation, Exec, pure, fail, query, execute, ignore, ◌>>=◌,
}
use frpilot.Store.Users.{Session, Accounts, delete_session_rows}

-- WHERE token=?
abbrev pub has_token : String → Session → Bool
has_token t s = str_eq s.token t

-- The token is the primary key.
unfoldable pub insert_session : Session → Accounts → Result (Unit {0}) × Accounts
insert_session s a =
    if any (has_token s.token) a.sessions
    then (err unique_violation, a)
    else (ok tt, record a { sessions = a.sessions ++ s ∷ [] })

unfoldable pub create_session : Session → Exec Accounts (Unit {0})
unfolding insert_session
create_session s = execute (insert_session s)

unfoldable pub scan_session : Option Session → Exec Accounts Session
scan_session none = fail not_found
scan_session (some s) = pure s

unfoldable pub get_session : String → Exec Accounts Session
unfolding scan_session
get_session t = do row ← query (λ a. find? (has_token t) a.sessions); scan_session row

unfoldable pub remove_session : String → Accounts → Result (Unit {0}) × Accounts
remove_session t a =
    (ok tt, record a { sessions = keep (λ s. if has_token t s then false else true) a.sessions })

unfoldable pub delete_session : String → Exec Accounts (Unit {0})
unfolding remove_session
delete_session t = execute (remove_session t)

unfoldable pub expire_sessions : ℕ → Accounts → Result (Unit {0}) × Accounts
expire_sessions now a = (
  ok tt,
  record a { sessions = keep (λ s. if ltb s.expires_at now then false else true) a.sessions },
)

unfoldable pub delete_expired_sessions : ℕ → Exec Accounts (Unit {0})
unfolding expire_sessions
delete_expired_sessions now = ignore (execute (expire_sessions now))

unfoldable pub delete_user_sessions : ℕ → Exec Accounts (Unit {0})
unfolding delete_session_rows
delete_user_sessions i = execute (delete_session_rows i)

-- ===== src/Web/Guarded.antt =====
-- Who gets past the guards of the account routes.
use frpilot.Prelude.{
  ℕ, ◌≡◌, ◌⊎◌, refl, String, str_eq, Bool, true, false, if◌then◌else◌, Option, none, some, inl, inr,
  Bool-cases, Option-cases, ltb, ap, ◌∙◌,
}
use frpilot.Platform.{Platform}
use frpilot.Exec.{Result, ok, err, Disk, Exec, ◌>>=◌}
use frpilot.Exec.Keeps.{Keeps, keeps_rules}
use frpilot.Store.Users.{User, Session, Accounts, get_user_by_id, scan_user}
use frpilot.Store.Sessions.{get_session, scan_session}
use frpilot.Auth.Register.{role_admin}
use frpilot.Auth.Login.{auth, session_user, approved_only}
use frpilot.Web.{
  require_auth, require_admin, Call, logs_out, deletes_self, changes_password, approves, sets_role,
  deletes_user, serve_call,
}

scan_user-Keeps : (P : Accounts → Type 0) (o : Option User) → Keeps P (scan_user o)
unfolding scan_user
scan_user-Keeps P none = search keeps_rules
scan_user-Keeps P (some u) = search keeps_rules

scan_session-Keeps : (P : Accounts → Type 0) (o : Option Session) → Keeps P (scan_session o)
unfolding scan_session
scan_session-Keeps P none = search keeps_rules
scan_session-Keeps P (some s) = search keeps_rules

session_user-Keeps :
    (P : Accounts → Type 0) (now : ℕ) (r : Result Session) → Keeps P (session_user now r)
unfolding get_user_by_id
session_user-Keeps P now (err e) = search keeps_rules
session_user-Keeps P now (ok s) = search (keeps_rules, scan_user-Keeps) depth 12

-- Looking up the user of a token keeps whatever holds of the tables.
pub auth-Keeps : (P : Accounts → Type 0) (now : ℕ) (token : String) → Keeps P (auth now token)
unfolding auth get_session
auth-Keeps P now token = search (keeps_rules, scan_session-Keeps, session_user-Keeps) depth 12

session_user-ok :
    (now : ℕ) (r : Result Session) (d : Disk Accounts)
    → (o : Option User) × ((session_user now r d).0 ≡ ok o)
unfolding ◌>>=◌
session_user-ok now (err e) d = (none, refl)
session_user-ok now (ok s) d = elim (Bool-cases (ltb s.expires_at now)) [
  | inl e ↦ (none, rw e refl)
  | inr e ↦ (approved_only (get_user_by_id s.user_id d).0, rw e refl)
]

-- Looking up the user of a token does not fail.
pub auth-ok :
    (now : ℕ) (token : String) (d : Disk Accounts)
    → (o : Option User) × ((auth now token d).0 ≡ ok o)
unfolding auth ◌>>=◌
auth-ok now token d = elim (Bool-cases (str_eq token "")) [
  | inl e ↦ (none, rw (auth, e) refl)
  | inr e ↦
      let r = session_user-ok now (get_session token d).0 (get_session token d).1 in
      (r.0, rw (auth, e) r.1)
]

-- Whether the route of a call is for administrators.
abbrev pub needs_admin : Call → Bool
needs_admin logs_out = false
needs_admin deletes_self = false
needs_admin (changes_password salt old new) = false
needs_admin (approves i b) = true
needs_admin (sets_role i role) = true
needs_admin (deletes_user i) = true

-- A call was turned away with the tables as they were, or its token is let in as an account that
-- may make it.
abbrev pub IsGuarded : ℕ → String → Bool → Disk Accounts → Result ℕ × Disk Accounts → Type 0
IsGuarded now token admin d r =
    (((r.0 ≡ ok 401) ⊎ (r.0 ≡ ok 403)) × (r.1.rows ≡ d.rows))
    ⊎ ((u : User) × ((auth now token d).0 ≡ ok (some u))
        × ((if admin then str_eq u.role role_admin else true) ≡ true))

require_auth-IsGuarded :
    (now : ℕ) (token : String) (next : User → Exec Accounts ℕ) (d : Disk Accounts)
    → IsGuarded now token false d (require_auth now token next d)
unfolding require_auth ◌>>=◌
require_auth-IsGuarded now token next d =
    let (o, e) = auth-ok now token d in
    let same = (auth-Keeps (λ a. a ≡ d.rows) now token).at d refl in
    elim (Option-cases o) [
      | inl n ↦
          let out : (auth now token d).0 ≡ ok none = e ∙ ap ok n in
          inl (rw (require_auth, out) (inl refl, same))
      | inr (u, f) ↦ inr (u, e ∙ ap ok f, refl)
    ]

require_admin-IsGuarded :
    (now : ℕ) (token : String) (next : User → Exec Accounts ℕ) (d : Disk Accounts)
    → IsGuarded now token true d (require_admin now token next d)
unfolding require_admin ◌>>=◌
require_admin-IsGuarded now token next d =
    let (o, e) = auth-ok now token d in
    let same = (auth-Keeps (λ a. a ≡ d.rows) now token).at d refl in
    elim (Option-cases o) [
      | inl n ↦
          let out : (auth now token d).0 ≡ ok none = e ∙ ap ok n in
          inl (rw (require_admin, out) (inl refl, same))
      | inr (u, f) ↦
          let found : (auth now token d).0 ≡ ok (some u) = e ∙ ap ok f in
          elim (Bool-cases (str_eq u.role role_admin)) [
            | inl a ↦ inr (u, found, a)
            | inr a ↦ inl (rw (require_admin, found, a) (inr refl, same))
          ]
    ]

-- A request on accounts is answered by 401 or 403 and leaves the tables as they were, or its token
-- is let in as an account, which is an administrator where the request is to approve an account,
-- set a role or delete an account by its id, whichever statements fault.
pub serve_call-IsGuarded :
    (p : Platform) (now : ℕ) (token : String) (call : Call) (d : Disk Accounts)
    → IsGuarded now token (needs_admin call) d (serve_call p now token call d)
unfolding serve_call
serve_call-IsGuarded p now token logs_out d = require_auth-IsGuarded now token _ d
serve_call-IsGuarded p now token deletes_self d = require_auth-IsGuarded now token _ d
serve_call-IsGuarded p now token (changes_password salt old new) d =
    require_auth-IsGuarded now token _ d
serve_call-IsGuarded p now token (approves i b) d = require_admin-IsGuarded now token _ d
serve_call-IsGuarded p now token (sets_role i role) d = require_admin-IsGuarded now token _ d
serve_call-IsGuarded p now token (deletes_user i) d = require_admin-IsGuarded now token _ d

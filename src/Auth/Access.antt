-- ===== src/Auth/Access.antt =====
-- Who gets in: what Register, LoginWithClient, Auth and DeleteUser give together.
use frpilot.Prelude.{
  ℕ, ◌≤◌, ◌≡◌, ◌≢◌, ap, subst, ◌∙◌, ◌∙◌, subst, String, str_eq, eq_iff, true, false, if◌then◌else◌,
  some, List, [], ◌⊎◌, inl, inr, arith, Option-cases, find?, keep, find?-keep,
}
use frpilot.Platform.{Platform}
use frpilot.Exec.{ok, Disk, ◌>>=◌}
use frpilot.Store.Users.{
  User, Session, Accounts, has_id, get_user_by_id, delete_user, list_users, create_user,
  count_users,
}
use frpilot.Store.Sessions.{has_token, get_session}
use frpilot.Auth.Register.{register, role_admin, status_approved, status_pending}
use frpilot.Auth.Login.{auth}
use frpilot.Auth.Manage.{delete_user_as, is_last_admin}

-- A token that is let in has a session that has not expired, of an approved account of the table.
pub auth_sound :
    (now : ℕ) (token : String) (d : Disk Accounts) (u : User)
    → (auth now token d).0 ≡ ok (some u)
    → (s : Session) × (find? (has_token token) d.rows.sessions ≡ some s)
      × (now ≤ s.expires_at)
      × (find? (has_id s.user_id) d.rows.users ≡ some u)
      × (u.status ≡ status_approved)
unfolding auth get_session get_user_by_id ◌>>=◌
auth_sound now token d u h = elim (Option-cases (find? (has_token token) d.rows.sessions)) [
  | inl e ↦ absurd (ground arith)
  | inr (s, e) ↦ (s, e, ground arith, ground arith, ground (arith, eq_iff u.status status_approved))
]

-- Whether an account is an administrator, and whether it may log in, is settled by the table and
-- the mode: the first account of an empty table is an approved administrator, and any later one
-- is a plain user, which waits for approval exactly in the mode "approval".
pub register-role :
    (p : Platform) (salt now : ℕ) (username password mode : String) (d : Disk Accounts) (u : User)
    → (register p salt now username password mode d).0 ≡ ok u
    → ((d.rows.users ≡ []) × (u.role ≡ role_admin) × (u.status ≡ status_approved))
      ⊎ ((d.rows.users ≢ [])
          × (u.role ≡ "user")
          × (mode ≢ "closed")
          × (u.status ≡ (if str_eq mode "approval" then status_pending else status_approved)))
unfolding register count_users create_user ◌>>=◌
register-role p salt now username password mode d u h = ground (arith, eq_iff mode "closed")

deleted-users :
    (target operator : ℕ) (role : String) (d : Disk Accounts)
    → (delete_user_as target operator role d).0 ≡ ok tt
    → (delete_user_as target operator role d).1.rows.users
      ≡ keep (λ v. if has_id target v then false else true) d.rows.users
unfolding delete_user_as is_last_admin get_user_by_id list_users delete_user ◌>>=◌
deleted-users target operator role d h = elim (Option-cases (find? (has_id target) d.rows.users)) [
  | inl e ↦ absurd (ground arith)
  | inr (t, e) ↦ ground arith
]

-- Once DeleteUser has succeeded for an account, no token is let in as that account, whatever
-- faults later.
pub delete-auth :
    (target operator : ℕ) (role : String) (d later : Disk Accounts)
    → (delete_user_as target operator role d).0 ≡ ok tt
    → later.rows ≡ (delete_user_as target operator role d).1.rows
    → (now : ℕ) (token : String) (u : User) → (auth now token later).0 ≡ ok (some u)
    → u.id ≢ target
delete-auth target operator role d later h same now token u a =
    let (s, _, _, found, _) = auth_sound now token later u a in
    let gone = deleted-users target operator role d h in
    let found' =
      subst (λ (us : List User). find? (has_id s.user_id) us ≡ some u)
        (ap (λ (b : Accounts). b.users) same ∙ gone) found in
    let kept =
      find?-keep (has_id s.user_id) (λ v. if has_id target v then false else true) d.rows.users u
        found' in
    ground arith

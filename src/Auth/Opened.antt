-- ===== src/Auth/Opened.antt =====
-- What a successful LoginWithClient found in the tables and left in them.
use frpilot.Prelude.{
  ℕ, ℤ, ◌≡◌, refl, ◌∙◌, subst, subst₂, String, eq_iff, true, false, Option, none, some, List, [],
  ◌∷◌, ◌++◌, ◌⊎◌, inl, inr, arith, Option-cases, find?, any, change,
}
use frpilot.Prelude.Text.{trim_space}
use frpilot.Platform.{Platform}
use frpilot.Exec.{Result, ok, err, Disk, Result-cases, continue, ◌>>=◌}
use frpilot.Store.Users.{
  User, Session, Accounts, has_id, has_name, get_user_by_name, update_user_last_login,
}
use frpilot.Store.Sessions.{has_token, create_session}
use frpilot.Store.Limits.{get_login_limit, clear_login_limit}
use frpilot.Auth.Register.{status_approved}
use frpilot.Auth.Login.{
  Limits, account_key, ip_key, check_user, is_login_limited, login_with_client, clear_failures,
  expires_after, open_session, finish_login,
}

-- What a session that was opened for an account left in the tables.
abbrev pub Opened : ℕ → ℤ → List User → List Session → User → String → Accounts → Type 0
Opened now days us ss u token b =
    (u.status ≡ status_approved)
    × (any (has_token token) ss ≡ false)
    × (b.sessions
        ≡ ss ++ record { token = token; user_id = u.id; expires_at = expires_after now days } ∷ [])
    × ((b.users ≡ us)
        ⊎ (b.users ≡ change (has_id u.id) (λ v. record v { last_login = some now }) us))

open_session-Opened :
    (now : ℕ) (t : String) (days : ℤ) (u : User) (d : Disk Accounts) (r : User × String)
    → (open_session now (ok t) days u d).0 ≡ ok r
    → (r ≡ (u, t))
      × Opened now days d.rows.users d.rows.sessions u t (open_session now (ok t) days u d).1.rows
unfolding open_session create_session update_user_last_login ◌>>=◌
open_session-Opened now t days u d r h = ground (arith, eq_iff u.status status_approved)

clear_failures-tables :
    (a i : String) (d : Disk Accounts)
    → ((clear_failures a i d).1.rows.users ≡ d.rows.users)
      × ((clear_failures a i d).1.rows.sessions ≡ d.rows.sessions)
unfolding clear_failures clear_login_limit ◌>>=◌
clear_failures-tables a i d = ground arith

finish_login-Opened :
    (now : ℕ) (t : String) (days : ℤ) (l : Limits) (a i : String) (o : Option User)
    (d : Disk Accounts) (r : User × String)
    → (finish_login now (ok t) days l a i o d).0 ≡ ok r
    → (u : User) × (o ≡ some u)
      × (r ≡ (u, t))
      × Opened now days d.rows.users d.rows.sessions u t
          (finish_login now (ok t) days l a i o d).1.rows
unfolding ◌>>=◌
finish_login-Opened now t days l a i none d r h = absurd (ground arith)
finish_login-Opened now t days l a i (some u) d r h = elim (Result-cases (clear_failures a i d).0) [
  | inl (x, e) ↦
      let d' = (clear_failures a i d).1 in
      let c = clear_failures-tables a i d in
      let s = open_session-Opened now t days u d' r (rw (e, continue) at h) in
      let o =
        subst₂ (λ us ss. Opened now days us ss u t (open_session now (ok t) days u d').1.rows) c.0
          c.1 s.1 in
      rw (e, continue) (u, refl, s.0, o)
  | inr (x, e) ↦ absurd (ground arith)
]

is_login_limited-rows :
    (now : ℕ) (a i : String) (d : Disk Accounts) → (is_login_limited now a i d).1.rows ≡ d.rows
unfolding is_login_limited get_login_limit ◌>>=◌
is_login_limited-rows now a i d = ground arith

get_user_by_name-found :
    (n : String) (d : Disk Accounts)
    → ((get_user_by_name n d).1.rows ≡ d.rows)
      × ((u : User) → (get_user_by_name n d).0 ≡ ok u → find? (has_name n) d.rows.users ≡ some u)
unfolding get_user_by_name ◌>>=◌
get_user_by_name-found n d = elim (Option-cases (find? (has_name n) d.rows.users)) [
  | inl e ↦ (ground arith, λ u h. ground arith)
  | inr (v, e) ↦ (ground arith, λ u h. ground arith)
]

check_user-some :
    (p : Platform) (found : Result User) (password : String) (u : User)
    → check_user p found password ≡ some u
    → (found ≡ ok u) × (p.matches u.password_hash password ≡ true)
check_user-some p (ok v) password u h = ground arith
check_user-some p (err e) password u h = absurd (ground arith)

-- A login that succeeds named an account of the table whose hash matches the password, and returns
-- that account with the drawn token. The account is approved, no session had the token, exactly
-- the session of the account with the token is added, which ends the given number of days later,
-- and the accounts stay as they were, but for the time of that account's last login.
pub login-Opened :
    (p : Platform) (now : ℕ) (t username password : String) (days : ℤ) (l : Limits)
    (client : String) (d : Disk Accounts) (r : User × String)
    → (login_with_client p now (ok t) username password days l client d).0 ≡ ok r
    → (u : User) × (find? (has_name (trim_space username)) d.rows.users ≡ some u)
      × (p.matches u.password_hash password ≡ true)
      × (r ≡ (u, t))
      × Opened now days d.rows.users d.rows.sessions u t
          (login_with_client p now (ok t) username password days l client d).1.rows
unfolding login_with_client ◌>>=◌
login-Opened p now t username password days l client d r h =
    elim (Result-cases (is_login_limited now a i d).0) [
      | inl (true, e) ↦ absurd (ground arith)
      | inl (false, e) ↦ rw (e, continue) (passed (rw (e, continue) at h))
      | inr (x, e) ↦ absurd (ground arith)
    ]
  where
    name : String
    name = trim_space username

    a : String
    a = account_key p name

    i : String
    i = ip_key client

    d1 : Disk Accounts
    d1 = (is_login_limited now a i d).1

    d2 : Disk Accounts
    d2 = (get_user_by_name name d1).1

    found : Result User
    found = (get_user_by_name name d1).0

    passed :
        (finish_login now (ok t) days l a i (check_user p found password) d2).0 ≡ ok r
        → (u : User) × (find? (has_name name) d.rows.users ≡ some u)
          × (p.matches u.password_hash password ≡ true)
          × (r ≡ (u, t))
          × Opened now days d.rows.users d.rows.sessions u t
              (finish_login now (ok t) days l a i (check_user p found password) d2).1.rows
    passed g =
        let (u, some_u, e, o) =
          finish_login-Opened now t days l a i (check_user p found password) d2 r g in
        let c = check_user-some p found password u some_u in
        let g1 = is_login_limited-rows now a i d in
        let g2 = get_user_by_name-found name d1 in
        let same : d2.rows ≡ d.rows = g2.0 ∙ g1 in
        (
          u,
          subst (λ (b : Accounts). find? (has_name name) b.users ≡ some u) g1 (g2.1 u c.0),
          c.1,
          e,
          subst
              (λ (b : Accounts).
                Opened now days b.users b.sessions u t
                  (finish_login now (ok t) days l a i (check_user p found password) d2).1.rows)
              same o,
        )

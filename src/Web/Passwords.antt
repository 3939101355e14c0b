-- ===== src/Web/Passwords.antt =====
-- What a change of the password leaves.
use frpilot.Prelude.{
  ℕ, suc, ◌≡◌, ◌≢◌, ◌⊎◌, refl, sym, subst, String, true, false, if◌then◌else◌, none, some, List, [],
  ◌∷◌, inl, inr, arith, Bool-cases, Option-cases, ap, ◌∙◌, find?, keep, change, All, ◌==◌, ==_iff,
}
use frpilot.Platform.{Platform}
use frpilot.Exec.{ok, Disk, calm, Result-cases, ◌>>=◌}
use frpilot.Store.Users.{
  User, Session, Accounts, has_id, get_user_by_id, scan_user, update_user_password,
}
use frpilot.Store.Sessions.{get_session, scan_session, has_token, delete_user_sessions}
use frpilot.Auth.Login.{auth}
use frpilot.Auth.Manage.{verify_password, set_password}
use frpilot.Auth.Register.{validate_password}
use frpilot.Auth.Lockout.{NoFault}
use frpilot.Web.{require_auth, handle_change_password, changes_password, serve_call}
use frpilot.Web.Guarded.{auth-ok}

auth-fault : (now : ℕ) (token : String) (d : Disk Accounts) → (auth now token d).1.fault ≡ d.fault
unfolding auth get_session scan_session get_user_by_id scan_user ◌>>=◌
auth-fault now token d = elim (Option-cases (find? (has_token token) d.rows.sessions)) [
  | inl e ↦ ground arith
  | inr (s, e) ↦ elim (Option-cases (find? (has_id s.user_id) d.rows.users)) [
    | inl f ↦ ground arith
    | inr (u, f) ↦ ground arith
  ]
]

others_kept :
    (i : ℕ) (ss : List Session)
    → All (λ s. s.user_id ≢ i) (keep (λ s. if s.user_id == i then false else true) ss)
others_kept i [] = tt
others_kept i (s ∷ ss) = elim (Bool-cases (s.user_id == i)) [
  | inl e ↦ rw e (others_kept i ss)
  | inr e ↦ rw e (ground (arith, ==_iff s.user_id i), others_kept i ss)
]

-- Each row of the id has the new hash.
hashed :
    (p : Platform) (i : ℕ) (h new : String) (us : List User)
    → p.matches h new ≡ true
    → All
        (λ v. (v.id ≢ i) ⊎ (p.matches v.password_hash new ≡ true))
        (change (has_id i) (λ u. record u { password_hash = h }) us)
hashed p i h new [] m = tt
hashed p i h new (u ∷ us) m = elim (Bool-cases (u.id == i)) [
  | inl t ↦ rw t (inr m, hashed p i h new us m)
  | inr t ↦ rw t (inl (ground (arith, ==_iff u.id i)), hashed p i h new us m)
]

handle_change_password-lem :
    (p : Platform) (salt : ℕ) (old new : String) (u : User) (d : Disk Accounts)
    → NoFault d
    → (handle_change_password p salt old new u d).0 ≡ ok 200
    → let b = (handle_change_password p salt old new u d).1.rows in
      (h : String) × (p.hash salt new ≡ ok h)
      × (p.matches u.password_hash old ≡ true)
      × (b.sessions ≡ keep (λ s. if s.user_id == u.id then false else true) d.rows.sessions)
      × (b.users ≡ change (has_id u.id) (λ v. record v { password_hash = h }) d.rows.users)
unfolding handle_change_password verify_password set_password update_user_password
    delete_user_sessions ◌>>=◌
handle_change_password-lem p salt old new u d calm_d h = elim (Result-cases (p.hash salt new)) [
  | inl (x, e) ↦ elim (Result-cases (validate_password p new)) [
    | inl (y, f) ↦
        let c0 = calm_d d.count in
        let c1 = calm_d (suc d.count) in (x, e, ground arith, ground arith, ground arith)
    | inr (y, f) ↦ absurd (ground arith)
  ]
  | inr (x, e) ↦ elim (Result-cases (validate_password p new)) [
    | inl (y, f) ↦ absurd (ground arith)
    | inr (y, f) ↦ absurd (ground arith)
  ]
]

-- On a database without faults, a change of the password that is answered by 200 was asked for
-- with a token that is let in as an account, and with a password that matches its hash; after it
-- no session of that account is left, and its hash matches the new password.
pub change_password-fresh :
    (p : Platform) (now salt : ℕ) (token old new : String) (a : Accounts)
    → (serve_call p now token (changes_password salt old new) (calm a)).0 ≡ ok 200
    → let b = (serve_call p now token (changes_password salt old new) (calm a)).1.rows in
      (u : User) × ((auth now token (calm a)).0 ≡ ok (some u))
      × (p.matches u.password_hash old ≡ true)
      × All (λ s. s.user_id ≢ u.id) b.sessions
      × All (λ v. (v.id ≢ u.id) ⊎ (p.matches v.password_hash new ≡ true)) b.users
unfolding serve_call require_auth ◌>>=◌
change_password-fresh p now salt token old new a h =
    let d = (auth now token (calm a)).1 in
    let (o, e) = auth-ok now token (calm a) in
    let quiet : NoFault d = λ n. ap (λ f. f n) (auth-fault now token (calm a)) in
    elim (Option-cases o) [
      | inl n ↦
          let out : (auth now token (calm a)).0 ≡ ok none = e ∙ ap ok n in
          absurd (ground (arith, out))
      | inr (u, f) ↦
          let found : (auth now token (calm a)).0 ≡ ok (some u) = e ∙ ap ok f in
          let whole : serve_call p now token (changes_password salt old new) (calm a)
              ≡ handle_change_password p salt old new u d =
            rw (serve_call, require_auth, found) refl in
          let (x, hx, m, ss, us) =
            handle_change_password-lem p salt old new u d quiet (sym (ap (λ r. r.0) whole) ∙ h) in
          (
            u,
            found,
            m,
            subst (All (λ s. s.user_id ≢ u.id)) (sym (ap (λ r. r.1.rows.sessions) whole ∙ ss))
                (others_kept u.id d.rows.sessions),
            subst (All (λ v. (v.id ≢ u.id) ⊎ (p.matches v.password_hash new ≡ true)))
                (sym (ap (λ r. r.1.rows.users) whole ∙ us))
                (hashed p u.id x new d.rows.users (p.hash_matches salt new x hx)),
          )
    ]

-- ===== src/Auth/Admins.antt =====
-- The administrators that are left after the operations of Manage.antt.
use frpilot.Prelude.{
  ℕ, ◌+◌, ◌≤◌, ◌<◌, ◌≡◌, ◌≢◌, refl, true, false, if◌then◌else◌, ◌==◌, some, List, [], ◌∷◌, inl, inr,
  arith, find?, keep, count, All, Distinct, Bool-cases, Option-cases,
}
use frpilot.Exec.{Disk, ◌>>=◌}
use frpilot.Store.Users.{User, Accounts, has_id, get_user_by_id, list_users, delete_user}
use frpilot.Auth.Manage.{is_admin, is_last_admin, delete_user_as}

-- No two accounts have one id.
abbrev pub DistinctIds : List User → Type 0
DistinctIds = Distinct (λ u. u.id)

abbrev pub others : ℕ → List User → List User
others i = keep (λ u. if has_id i u then false else true)

others_absent : (i : ℕ) (us : List User) → All (λ v. v.id ≢ i) us → others i us ≡ us
others_absent i [] h = refl
others_absent i (u ∷ us) h = ground (arith, others_absent i us h.1)

others_all_but_one :
    (i : ℕ) (us : List User) → DistinctIds us → count is_admin us ≤ count is_admin (others i us) + 1
others_all_but_one i [] h = omega arith
others_all_but_one i (u ∷ us) h = elim (Bool-cases (u.id == i)) [
  | inl e ↦ ground (arith, others_absent u.id us h.0)
  | inr e ↦ ground (arith, others_all_but_one i us h.1)
]

others_plain :
    (i : ℕ) (t : User) (us : List User)
    → DistinctIds us
    → find? (has_id i) us ≡ some t
    → is_admin t ≡ false
    → count is_admin (others i us) ≡ count is_admin us
others_plain i t [] h f n = refl
others_plain i t (u ∷ us) h f n = elim (Bool-cases (u.id == i)) [
  | inl e ↦ ground (arith, others_absent u.id us h.0)
  | inr e ↦ ground (arith, others_plain i t us h.1)
]

others_keep :
    (i j : ℕ) (o : User) (us : List User)
    → find? (has_id j) us ≡ some o
    → is_admin o ≡ true
    → i ≢ j
    → 0 < count is_admin (others i us)
others_keep i j o [] f a n = cc
others_keep i j o (u ∷ us) f a n = ground (arith, others_keep i j o us)

-- DeleteUser leaves an administrator if there was one, whatever it returns and whichever
-- statements fault, when ids are unique and it is called with the role that its operator, an
-- account of the table, has there.
pub delete_user_as-HasAdmin :
    (i j : ℕ) (o : User) (d : Disk Accounts)
    → DistinctIds d.rows.users
    → find? (has_id j) d.rows.users ≡ some o
    → 0 < count is_admin d.rows.users
    → 0 < count is_admin (delete_user_as i j o.role d).1.rows.users
unfolding delete_user_as is_last_admin get_user_by_id list_users delete_user ◌>>=◌
delete_user_as-HasAdmin i j o d dist f h = elim (Option-cases (find? (has_id i) d.rows.users)) [
  | inl e ↦ ground arith
  | inr (t, e) ↦ ground (
    arith,
    others_all_but_one i d.rows.users dist,
    others_plain i t d.rows.users dist e,
    others_keep i j o d.rows.users f,
  )
]

-- ===== src/Auth/Accounts.antt =====
-- The rows of the table `users` that Register and SetRole may write, and how the statements of
-- internal/store/users.go keep them.
use frpilot.Prelude.{
  ℕ, ◌≡◌, refl, ◌⊎◌, inl, inr, String, str_eq, Bool, true, false, All, any, Bool-cases, All-append,
  All-change, All-keep,
}
use frpilot.Platform.{Platform}
use frpilot.Exec.{Result, ok, err, Exec, execute, from_result, ◌>>=◌}
use frpilot.Exec.Keeps.{Keeps, Keeps-execute}
use frpilot.Store.Users.{
  User, Session, Accounts, has_name, insert_user, create_user, update_user, delete_rows,
}
use frpilot.Store.Sessions.{has_token, insert_session}
use frpilot.Auth.Register.{
  role_admin, role_user, status_approved, status_pending, validate_username, new_user, create_named,
}

-- An action that goes on only with a result that is no error.
pub Keeps-check {ℓ} :
    {S A B : Type ℓ} {P : S → Type ℓ} (r : Result A) (next : A → Exec S B)
    → ((a : A) → r ≡ ok a → Keeps P (next a))
    → Keeps P (from_result r >>= next)
unfolding from_result ◌>>=◌
Keeps-check (ok a) next k = record { at = λ d h. (k a refl).at d h }
Keeps-check (err e) next k = record { at = λ d h. h }

module _ (p : Platform) where
  -- A name that the validation accepts, one of the two roles, and one of the two statuses.
  pub record IsAccount (u : User) : Type 0 where
    pub named : validate_username p u.username ≡ ok tt
    pub ranked : (u.role ≡ role_admin) ⊎ (u.role ≡ role_user)
    pub settled : (u.status ≡ status_approved) ⊎ (u.status ≡ status_pending)

  abbrev pub AllAccounts : Accounts → Type 0
  AllAccounts a = All IsAccount a.users

  insert_user-AllAccounts :
      (u : User)
      → ((n : ℕ) → IsAccount (record u { id = n }))
      → (a : Accounts) → AllAccounts a
      → AllAccounts (insert_user u a).1
  unfolding insert_user
  insert_user-AllAccounts u is a h = elim (Bool-cases (any (has_name u.username) a.users)) [
    | inl e ↦ rw e h
    | inr e ↦ rw e (All-append IsAccount a.users _ h (is a.next_user))
  ]

  pub create_named-Keeps :
      (u : User) → ((n : ℕ) → IsAccount (record u { id = n })) → Keeps AllAccounts (create_named u)
  unfolding create_named create_user
  create_named-Keeps u is = record {
    at = λ d h. (Keeps-execute (insert_user u) (insert_user-AllAccounts u is)).at d h;
  }

  pub new_user-IsAccount :
      (name hash mode : String) (first : Bool) (now n : ℕ)
      → validate_username p name ≡ ok tt
      → IsAccount (record (new_user name hash first mode now) { id = n })
  unfolding new_user
  new_user-IsAccount name hash mode true now n v = record {
    named = v;
    ranked = inl refl;
    settled = inl refl;
  }
  new_user-IsAccount name hash mode false now n v = record {
    named = v;
    ranked = inr refl;
    settled = elim (Bool-cases (str_eq mode "approval")) [
      | inl e ↦ rw e (inr refl)
      | inr e ↦ rw e (inl refl)
    ];
  }

  pub update_user-Keeps :
      (i : ℕ) (f : User → User)
      → ((u : User) → IsAccount u → IsAccount (f u))
      → Keeps AllAccounts (execute (update_user i f))
  unfolding update_user
  update_user-Keeps i f k = Keeps-execute _ (λ a h. All-change IsAccount _ f a.users k h)

  pub same-IsAccount :
      (u v : User)
      → u.username ≡ v.username
      → u.role ≡ v.role
      → u.status ≡ v.status
      → IsAccount u
      → IsAccount v
  same-IsAccount u v n r s is = record {
    named = rw n at is.named;
    ranked = rw r at is.ranked;
    settled = rw s at is.settled;
  }

  pub delete_rows-AllAccounts :
      (i : ℕ) (a : Accounts) → AllAccounts a → AllAccounts (delete_rows i a).1
  unfolding delete_rows
  delete_rows-AllAccounts i a h = All-keep IsAccount _ a.users h

  pub insert_session-AllAccounts :
      (s : Session) (a : Accounts) → AllAccounts a → AllAccounts (insert_session s a).1
  unfolding insert_session
  insert_session-AllAccounts s a h = elim (Bool-cases (any (has_token s.token) a.sessions)) [
    | inl e ↦ rw e h
    | inr e ↦ rw e h
  ]

-- ===== src/Exec.antt =====
-- Operations on the database (internal/store). An operation reads and writes the tables one SQL
-- statement at a time and may fail; what it wrote before a failure stays written. Whether the
-- engine runs the n-th statement or reports an I/O fault is decided by `fault`, over which the
-- theorems range unless they say otherwise: a statement that faults has no effect.
pub mod Keeps
use frpilot.Prelude.{inl, inr, ◌⊎◌, ◌≡◌, refl, ℕ, suc, Bool, true, false, if◌then◌else◌}

-- The error values that the program tells apart or returns to its caller.
pub data Error : Type 0 where
  storage not_found unique_violation : Error
  username_taken weak_password invalid_creds account_locked pending_approval : Error
  registration_closed invalid_username last_admin not_permitted illegal_role wrong_password : Error
  empty_ssh_user empty_ssh_pass no_credentials crypto_failed token_failed : Error
  no_items no_targets unknown_mode dial_failed monitoring_off command_failed token_drift
        no_frps_path no_frps_ssh :
      Error

pub data Result {ℓ} (A : Type ℓ) : Type ℓ where
  ok : A → Result A
  err : Error → Result A

pub Result-cases {ℓ} :
    {A : Type ℓ} (r : Result A) → ((a : A) × (r ≡ ok a)) ⊎ ((e : Error) × (r ≡ err e))
Result-cases (ok a) = inl (a, refl)
Result-cases (err e) = inr (e, refl)

pub record Disk {ℓ} (S : Type ℓ) : Type ℓ where
  pub rows : S
  pub fault : ℕ → Bool
  pub count : ℕ

-- A database on which no statement faults.
abbrev pub calm {ℓ} : {S : Type ℓ} → S → Disk S
calm s = record { rows = s; fault = λ _. false; count = 0 }

-- A world without faults, after some steps.
abbrev pub calm_at {ℓ} : {S : Type ℓ} → S → ℕ → Disk S
calm_at w n = record { rows = w; fault = λ _. false; count = n }

abbrev pub Exec {ℓ} : Type ℓ → Type ℓ → Type ℓ
Exec S A = Disk S → Result A × Disk S

abbrev pub tick {ℓ} : {S : Type ℓ} → Disk S → Disk S
tick d = record d { count = suc d.count }

module _ {ℓ} {S A : Type ℓ} where
  unfoldable pub pure : A → Exec S A
  pure a d = (ok a, d)

  unfoldable pub fail : Error → Exec S A
  fail e d = (err e, d)

  unfoldable pub from_result : Result A → Exec S A
  from_result r d = (r, d)

  -- A SELECT.
  unfoldable pub query : (S → A) → Exec S A
  query f d = if d.fault d.count then (err storage, tick d) else (ok (f d.rows), tick d)

  -- An INSERT, UPDATE or DELETE, which may also be refused by a constraint.
  unfoldable pub execute : (S → Result A × S) → Exec S A
  execute f d =
      if d.fault d.count
      then (err storage, tick d)
      else ((f d.rows).0, record d { rows = (f d.rows).1; count = suc d.count })

  -- `_ = f()`: the error is dropped.
  unfoldable pub ignore : Exec S A → Exec S (Unit {ℓ})
  ignore m d = (ok tt, (m d).1)

  -- `x, err := f()` where the error is looked at later.
  unfoldable pub attempt : Exec S A → Exec S (Result A)
  attempt m d = (ok (m d).0, (m d).1)

module _ {ℓ} {S : Type ℓ} where
  -- What the program reads and writes in its own memory: no fault, and no statement.
  unfoldable pub peek : {A : Type ℓ} → (S → A) → Exec S A
  peek f d = (ok (f d.rows), d)

  unfoldable pub assign : (S → S) → Exec S (Unit {ℓ})
  assign f d = (ok tt, record d { rows = f d.rows })

  -- A reading that changes what is read.
  unfoldable pub adjust : {A : Type ℓ} → (S → A × S) → Exec S A
  adjust f d = (ok (f d.rows).0, record d { rows = (f d.rows).1 })

-- An action on a part of the tables.
module _ {ℓ} {S T A : Type ℓ} where
  unfoldable pub within : (S → T) → (T → S → S) → Exec T A → Exec S A
  within get set m d =
      let (r, d') = m (record { rows = get d.rows; fault = d.fault; count = d.count }) in
      (r, record { rows = set d'.rows d.rows; fault = d'.fault; count = d'.count })

module _ {ℓ} {S A B : Type ℓ} where
  abbrev pub continue : Result A → (A → Exec S B) → Exec S B
  continue (ok a) f d = f a d
  continue (err e) f d = (err e, d)

  infixl 10 ◌>>=◌ ◌>>◌
  unfoldable pub ◌>>=◌ : Exec S A → (A → Exec S B) → Exec S B
  unfolding pure fail from_result query execute ignore attempt peek assign adjust within
  ◌>>=◌ m f d = let (r, d') = m d in continue r f d'

  abbrev pub ◌>>◌ : Exec S A → Exec S B → Exec S B
  m >> n = m >>= λ _. n

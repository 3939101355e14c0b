-- ===== src/Auth/Lockout.antt =====
-- The brute-force lock of internal/auth/auth.go and internal/store/users.go.
use frpilot.Prelude.{
  ℕ, ℤ, suc, ◌+◌, ◌≤◌, ◌<◌, ◌≡◌, refl, ap, String, str_eq, eq_iff, true, false, if◌then◌else◌, leb,
  none, some, List, [], ◌∷◌, ◌⊎◌, inl, inr, arith, length,
}
use text.Mathlib.TextPositions.{eq_refl}
use frpilot.Prelude.Text.{trim_space, ends_in_colon}
use frpilot.Platform.{Platform}
use frpilot.Exec.{storage, account_locked, Result, err, Disk, ◌>>=◌}
use frpilot.Store.Users.{LoginLimit, Accounts}
use frpilot.Store.Limits.{
  lookup, put, get_login_limit, locked_at, failed_once, at_least_one, row_or_zero,
  register_login_failure,
}
use frpilot.Auth.Login.{Limits, account_key, ip_key, is_login_limited, login_with_client}

lookup-put :
    (k j : String) (l : LoginLimit) (ls : List (String × LoginLimit))
    → lookup j (put k l ls) ≡ (if str_eq k j then some l else lookup j ls)
unfolding lookup put
lookup-put k j l [] = refl
lookup-put k j l ((i, m) ∷ ls) =
    ground (arith, eq_iff k j, eq_iff i k, eq_iff i j, lookup-put k j l ls)

-- No statement of the run faults.
abbrev pub NoFault : Disk Accounts → Type 0
NoFault d = (n : ℕ) → d.fault n ≡ false

module _ (k : String) (max_fails lock_for window : ℕ) where
  -- Failures of one key at the given times.
  unfoldable pub fail_at : List ℕ → Disk Accounts → Disk Accounts
  fail_at [] d = d
  fail_at (t ∷ ts) d = fail_at ts (register_login_failure k max_fails lock_for window t d).1

  -- The times do not fall, and no gap is longer than the window.
  abbrev pub Paced : ℕ → List ℕ → Type 0
  Paced t [] = Unit
  Paced t (u ∷ us) = (t ≤ u) × (u ≤ t + window) × Paced u us

  abbrev pub last : ℕ → List ℕ → ℕ
  last t [] = t
  last t (u ∷ us) = last u us

  -- The row after n failures in a row, the last one at t.
  abbrev pub row : ℕ → ℕ → LoginLimit
  row n t = record {
    failures = n;
    locked_until = if leb max_fails n then some (t + lock_for) else none;
    last_failed = some t;
  }

  next-row :
      (n t u : ℕ)
      → n < max_fails
      → t ≤ u
      → u ≤ t + window
      → failed_once (row n t) (at_least_one max_fails) lock_for window u ≡ row (suc n) u
  unfolding failed_once
  next-row n t u a b c = ground arith

  first-row :
      (u : ℕ)
      → 0 < max_fails
      → failed_once (row_or_zero none) (at_least_one max_fails) lock_for window u ≡ row 1 u
  unfolding failed_once
  first-row u a = ground arith

  -- One failure on a key that is not locked stores the next row and nothing else.
  register-rows :
      (t : ℕ) (d : Disk Accounts)
      → NoFault d
      → locked_at t (row_or_zero (lookup k d.rows.limits)).locked_until ≡ false
      → ((register_login_failure k max_fails lock_for window t d).1.rows ≡ record (d.rows) {
        limits =
            put k
              (failed_once
                (row_or_zero (lookup k d.rows.limits))
                (at_least_one max_fails)
                lock_for
                window
                t)
              d.rows.limits;
      })
        × ((register_login_failure k max_fails lock_for window t d).1.fault ≡ d.fault)
  unfolding register_login_failure ◌>>=◌
  register-rows t d nf h =
      ground
        (arith, nf d.count, nf (suc d.count), nf (suc (suc d.count)), nf (suc (suc (suc d.count))))

  fail_at-NoFault :
      (t : ℕ) (d : Disk Accounts)
      → NoFault d
      → (register_login_failure k max_fails lock_for window t d).1.fault ≡ d.fault
      → NoFault (register_login_failure k max_fails lock_for window t d).1
  fail_at-NoFault t d nf e n = rw e (nf n)

  row_unlocked : (n t u : ℕ) → n < max_fails → locked_at u (row n t).locked_until ≡ false
  row_unlocked n t u h = ground arith

  register-row :
      (n t u : ℕ) (d : Disk Accounts)
      → NoFault d
      → lookup k d.rows.limits ≡ some (row n t)
      → n < max_fails
      → t ≤ u
      → u ≤ t + window
      → lookup k (register_login_failure k max_fails lock_for window u d).1.rows.limits
        ≡ some (row (suc n) u)
  register-row n t u d nf e a b c =
      let r = register-rows u d nf (rw (e, row_or_zero) (row_unlocked n t u a)) in
      rw (r.0, lookup-put k k, eq_refl k, e, row_or_zero) (ap some (next-row n t u a b c))

  register-first :
      (u : ℕ) (d : Disk Accounts)
      → NoFault d
      → lookup k d.rows.limits ≡ none
      → 0 < max_fails
      → lookup k (register_login_failure k max_fails lock_for window u d).1.rows.limits
        ≡ some (row 1 u)
  register-first u d nf e a =
      let r = register-rows u d nf (rw (e, row_or_zero) refl) in
      rw (r.0, lookup-put k k, eq_refl k, e, row_or_zero) (ap some (first-row u a))

  streak :
      (ts : List ℕ) (n m t : ℕ) (d : Disk Accounts)
      → NoFault d
      → lookup k d.rows.limits ≡ some (row n t)
      → n + length ts ≡ m
      → m ≤ max_fails
      → Paced t ts
      → lookup k (fail_at ts d).rows.limits ≡ some (row m (last t ts))
  unfolding fail_at
  streak [] n m t d nf e q h p = ground arith
  streak (u ∷ us) n m t d nf e q h p =
      let lt : n < max_fails = omega arith in
      let r = register-rows u d nf (rw (e, row_or_zero) (row_unlocked n t u lt)) in
      streak us (suc n) m u (register_login_failure k max_fails lock_for window u d).1
        (fail_at-NoFault u d nf r.1) (register-row n t u d nf e lt p.0 p.1) (omega arith) h p.2

  -- On a database without faults, a key with no earlier failure, failing at times of which none lies more than the window after
  -- the one before: after every one of them up to the maximum the row counts them all, and it is
  -- locked, until `lock_for` after the last failure, exactly when the maximum is reached.
  pub lockout :
      (t : ℕ) (ts : List ℕ) (d : Disk Accounts)
      → NoFault d
      → lookup k d.rows.limits ≡ none
      → length (t ∷ ts) ≤ max_fails
      → Paced t ts
      → lookup k (fail_at (t ∷ ts) d).rows.limits ≡ some (row (length (t ∷ ts)) (last t ts))
  unfolding fail_at
  lockout t ts d nf e h p =
      let r = register-rows t d nf (rw (e, row_or_zero) refl) in
      streak ts 1 (length (t ∷ ts)) t (register_login_failure k max_fails lock_for window t d).1
        (fail_at-NoFault t d nf r.1) (register-first t d nf e (omega arith)) (omega arith) h p

-- While the key of the account or of the client is locked, and does not end in a colon, a login
-- changes nothing and is refused with the lock's error or with the engine's fault, whatever the
-- password.
pub login-locked :
    (p : Platform) (now : ℕ) (random : Result String) (username password : String) (days : ℤ)
    (l : Limits) (client key : String) (row : LoginLimit) (d : Disk Accounts)
    → (key ≡ account_key p (trim_space username)) ⊎ (key ≡ ip_key client)
    → ends_in_colon key ≡ false
    → lookup key d.rows.limits ≡ some row
    → locked_at now row.locked_until ≡ true
    → let r = login_with_client p now random username password days l client d in
      (r.1.rows ≡ d.rows) × ((r.0 ≡ err account_locked) ⊎ (r.0 ≡ err storage))
unfolding login_with_client is_login_limited get_login_limit ◌>>=◌
login-locked p now random username password days l client key row d (inl e) c f h = ground arith
login-locked p now random username password days l client key row d (inr e) c f h = ground arith

-- ===== src/Store/Limits.antt =====
-- internal/store/users.go: the operations on the table `login_limits`.
use frpilot.Prelude.{
  ℕ, suc, ◌+◌, ◌-◌, String, str_eq, Bool, true, false, if◌then◌else◌, ltb, leb, ◌&&◌, ◌||◌, not,
  Option, none, some, List, [], ◌∷◌, keep,
}
use frpilot.Exec.{Result, ok, Exec, pure, query, execute, ignore, ◌>>=◌}
use frpilot.Store.Users.{LoginLimit, Accounts}

-- SELECT … FROM login_limits WHERE key=?
unfoldable pub lookup : String → List (String × LoginLimit) → Option LoginLimit
lookup k [] = none
lookup k ((j, l) ∷ rest) = if str_eq j k then some l else lookup k rest

-- INSERT, or UPDATE … WHERE key=?
unfoldable pub put : String → LoginLimit → List (String × LoginLimit) → List (String × LoginLimit)
put k l [] = (k, l) ∷ []
put k l ((j, m) ∷ rest) = if str_eq j k then (k, l) ∷ rest else (j, m) ∷ put k l rest

-- DELETE … WHERE key=?
unfoldable pub remove : String → List (String × LoginLimit) → List (String × LoginLimit)
remove k [] = []
remove k ((j, m) ∷ rest) = let r = remove k rest in if str_eq j k then r else (j, m) ∷ r

unfoldable pub get_login_limit : String → Exec Accounts (Option LoginLimit)
get_login_limit k = query (λ a. lookup k a.limits)

-- The lock is set and lies in the future.
abbrev pub locked_at : ℕ → Option ℕ → Bool
locked_at now none = false
locked_at now (some until) = ltb now until

-- The lock has ended.
abbrev pub lock_over : ℕ → Option ℕ → Bool
lock_over now none = false
lock_over now (some until) = leb until now

-- The last failure lies more than the window back.
abbrev pub window_over : ℕ → ℕ → Option ℕ → Bool
window_over window now none = false
window_over window now (some last) = ltb 0 window && ltb window (now - last)

abbrev pub no_failures : LoginLimit
no_failures = record { failures = 0; locked_until = none; last_failed = none }

-- No row scans as zero failures and two NULLs.
abbrev pub row_or_zero : Option LoginLimit → LoginLimit
row_or_zero none = no_failures
row_or_zero (some l) = l

-- The failures that still count at `now`.
unfoldable pub counted_failures : LoginLimit → ℕ → ℕ → ℕ
counted_failures l window now =
    if lock_over now l.locked_until || window_over window now l.last_failed then 0 else l.failures

-- The row after one more failure.
unfoldable pub failed_once : LoginLimit → ℕ → ℕ → ℕ → ℕ → LoginLimit
unfolding counted_failures
failed_once l max_fails lock_for window now =
    let failures = suc (counted_failures l window now) in
    record {
      failures = failures;
      locked_until = if leb max_fails failures then some (now + lock_for) else none;
      last_failed = some now;
    }

unfoldable pub put_limit : String → LoginLimit → Accounts → Result (Unit {0}) × Accounts
put_limit k l a = (ok tt, record a { limits = put k l a.limits })

-- `if maxFails < 1 { maxFails = 1 }`
abbrev pub at_least_one : ℕ → ℕ
at_least_one n = if ltb n 1 then 1 else n

-- A transaction: what it writes takes effect at the commit, and a fault before that rolls back.
unfoldable pub register_login_failure : String → ℕ → ℕ → ℕ → ℕ → Exec Accounts Bool
unfolding failed_once put_limit
register_login_failure k max_fails lock_for window now = do
  begin ← query (λ a. tt)
  row ← query (λ a. row_or_zero (lookup k a.limits))
  if locked_at now row.locked_until then pure true else do
    let next = failed_once row (at_least_one max_fails) lock_for window now
    write ← query (λ a. tt)
    commit ← execute (put_limit k next)
    pure (leb (at_least_one max_fails) next.failures)

unfoldable pub drop_limit : String → Accounts → Result (Unit {0}) × Accounts
drop_limit k a = (ok tt, record a { limits = remove k a.limits })

unfoldable pub clear_login_limit : String → Exec Accounts (Unit {0})
unfolding drop_limit
clear_login_limit k = execute (drop_limit k)

-- `t IS NULL OR t < limit`
abbrev pub null_or_before : ℕ → Option ℕ → Bool
null_or_before limit none = true
null_or_before limit (some t) = ltb t limit

unfoldable pub expire_limits : ℕ → Accounts → Result (Unit {0}) × Accounts
expire_limits now a = (
  ok tt,
  record a {
    limits =
        keep
          (λ r.
            not
              (null_or_before now r.1.locked_until && null_or_before (now - 86400) r.1.last_failed))
          a.limits;
  },
)

unfoldable pub delete_expired_login_limits : ℕ → Exec Accounts (Unit {0})
unfolding expire_limits
delete_expired_login_limits now = ignore (execute (expire_limits now))

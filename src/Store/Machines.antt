-- ===== src/Store/Machines.antt =====
-- internal/store/machines.go: the table `machines`. The key-value settings of that file are in
-- Config/Secrets.
use frpilot.Prelude.{
  ℕ, suc, ℤ, String, str_eq, Bool, true, false, if◌then◌else◌, ◌==◌, ◌&&◌, Option, none, some, List,
  [], ◌∷◌, ◌++◌, find?, any, change,
}
use frpilot.Exec.{
  Result, ok, err, not_found, unique_violation, no_credentials, Exec, pure, fail, query, execute,
  ignore, attempt, ◌>>=◌, ◌>>◌,
}

abbrev pub machine_pending : String
machine_pending = "pending"

abbrev pub machine_configured : String
machine_configured = "configured"

abbrev pub machine_enabled : String
machine_enabled = "enabled"

abbrev pub machine_disabled : String
machine_disabled = "disabled"

pub record Machine : Type 0 where
  pub id : ℕ
  pub name : String
  pub tunnel_port : ℤ
  pub ssh_user : String
  pub sudo_pass_enc : String
  pub ssh_pass_enc : String
  pub status : String
  pub enabled : Bool
  pub notes : String
  pub created_at : ℕ
  pub updated_at : ℕ
  pub last_seen_at : Option ℕ
  pub last_success_at : Option ℕ

-- `next_machine` is the AUTOINCREMENT counter of `machines`.
pub record Fleet : Type 0 where
  pub machines : List Machine
  pub next_machine : ℕ

abbrev pub has_id : ℕ → Machine → Bool
has_id i m = m.id == i

abbrev pub has_name : String → Machine → Bool
has_name n m = str_eq m.name n

unfoldable pub scan_machine : Option Machine → Exec Fleet Machine
scan_machine none = fail not_found
scan_machine (some m) = pure m

unfoldable pub get_machine_by_id : ℕ → Exec Fleet Machine
unfolding scan_machine
get_machine_by_id i = do row ← query (λ f. find? (has_id i) f.machines); scan_machine row

unfoldable pub get_machine_by_name : String → Exec Fleet Machine
unfolding scan_machine
get_machine_by_name n = do row ← query (λ f. find? (has_name n) f.machines); scan_machine row

unfoldable pub list_machines : Exec Fleet (List Machine)
list_machines = query (λ f. f.machines)

abbrev pub new_machine : ℕ → String → ℤ → ℕ → Machine
new_machine i name port now = record {
  id = i;
  name = name;
  tunnel_port = port;
  ssh_user = "";
  sudo_pass_enc = "";
  ssh_pass_enc = "";
  status = machine_pending;
  enabled = false;
  notes = "";
  created_at = now;
  updated_at = now;
  last_seen_at = none;
  last_success_at = none;
}

unfoldable pub insert_machine : String → ℤ → ℕ → Fleet → Result Machine × Fleet
insert_machine name port now f =
    if any (has_name name) f.machines then (err unique_violation, f) else (
      ok (new_machine f.next_machine name port now),
      record f {
        machines = f.machines ++ new_machine f.next_machine name port now ∷ [];
        next_machine = suc f.next_machine;
      },
    )

-- The branches on the error of the lookup.
unfoldable pub insert_if_missing : String → ℤ → ℕ → Result Machine → Exec Fleet (Machine × Bool)
unfolding insert_machine
insert_if_missing name port now (ok m) = pure (m, false)
insert_if_missing name port now (err not_found) = do
  m ← execute (insert_machine name port now)
  pure (m, true)
insert_if_missing name port now (err e) = fail e

unfoldable pub upsert_machine_from_discovery : String → ℤ → ℕ → Exec Fleet (Machine × Bool)
unfolding insert_if_missing
upsert_machine_from_discovery name port now = do
  existing ← attempt (get_machine_by_name name)
  insert_if_missing name port now existing

unfoldable pub update_machine : ℕ → (Machine → Machine) → Fleet → Result Bool × Fleet
update_machine i g f =
    (ok (any (has_id i) f.machines), record f { machines = change (has_id i) g f.machines })

abbrev pub with_credentials : String → String → String → ℕ → Machine → Machine
with_credentials user ssh_enc sudo_enc now m = record m {
  ssh_user = user;
  ssh_pass_enc = ssh_enc;
  sudo_pass_enc = sudo_enc;
  status = machine_configured;
  updated_at = now;
}

unfoldable pub set_machine_credentials : ℕ → String → String → String → ℕ → Exec Fleet (Unit {0})
unfolding update_machine
set_machine_credentials i user ssh_enc sudo_enc now = do
  affected ← execute (update_machine i (with_credentials user ssh_enc sudo_enc now))
  if affected then pure tt else fail not_found

abbrev pub with_enabled : Bool → ℕ → Machine → Machine
with_enabled enabled now m = record m {
  enabled = enabled;
  status = if enabled then machine_enabled else machine_disabled;
  updated_at = now;
}

unfoldable pub set_machine_enabled : ℕ → Bool → ℕ → Exec Fleet Machine
unfolding update_machine
set_machine_enabled i enabled now = do
  m ← get_machine_by_id i
  if enabled && str_eq m.ssh_user ""
      then fail no_credentials
      else do affected ← execute (update_machine i (with_enabled enabled now)); get_machine_by_id i

-- `if b { _, _ = db.sql.Exec(…) }`
unfoldable pub touch_if : Bool → ℕ → (Machine → Machine) → Exec Fleet (Unit {0})
touch_if b i g = if b then ignore (execute (update_machine i g)) else pure tt

unfoldable pub touch_machine : ℕ → Bool → Bool → ℕ → Exec Fleet (Unit {0})
unfolding update_machine touch_if
touch_machine i seen success now = do
  touch_if seen i (λ m. record m { last_seen_at = some now })
  touch_if success i (λ m. record m { last_success_at = some now })

-- ===== src/Registry/Lifecycle.antt =====
-- The life cycle of a machine: what every operation of the registry keeps.
use frpilot.Prelude.{
  ℕ, ◌≡◌, refl, String, str_eq, Bool, false, Option, none, some, List, [], ◌∷◌, arith, ℤ,
}
use frpilot.Cipher.{Cipher}
use frpilot.Exec.{Result, err, not_found, Disk, execute}
use frpilot.Exec.Keeps.{Keeps, keeps_rules}
use frpilot.Store.Machines.{
  Machine, Fleet, scan_machine, get_machine_by_id, get_machine_by_name, insert_if_missing,
  upsert_machine_from_discovery, update_machine, with_credentials, set_machine_credentials,
  touch_if, touch_machine,
}
use frpilot.Registry.{
  Tunnel, DiscoveryResult, discover_loop, discover, update_credentials, set_enabled,
}
use frpilot.Registry.Sound.{
  FleetValid, insert_machine-FleetValid, update-Keeps, with_credentials-IsSound,
  set_machine_enabled-FleetValid,
}

set_enabled-Keeps : (i : ℕ) (b : Bool) (now : ℕ) → Keeps FleetValid (set_enabled i b now)
unfolding set_enabled
set_enabled-Keeps i b now = record { at = λ d v. set_machine_enabled-FleetValid i b now d v }

scan_machine-Keeps : (o : Option Machine) → Keeps FleetValid (scan_machine o)
unfolding scan_machine
scan_machine-Keeps none = search keeps_rules
scan_machine-Keeps (some m) = search keeps_rules

get_machine_by_id-Keeps : (i : ℕ) → Keeps FleetValid (get_machine_by_id i)
unfolding get_machine_by_id
get_machine_by_id-Keeps i = search (keeps_rules, scan_machine-Keeps)

get_machine_by_name-Keeps : (n : String) → Keeps FleetValid (get_machine_by_name n)
unfolding get_machine_by_name
get_machine_by_name-Keeps n = search (keeps_rules, scan_machine-Keeps)

insert_if_missing-Keeps :
    (name : String) (port : ℤ) (now : ℕ) (r : Result Machine)
    → Keeps FleetValid (insert_if_missing name port now r)
unfolding insert_if_missing
insert_if_missing-Keeps name port now (err not_found) =
    search (keeps_rules, insert_machine-FleetValid) depth 8
insert_if_missing-Keeps name port now _ = search keeps_rules

upsert-Keeps :
    (name : String) (port : ℤ) (now : ℕ)
    → Keeps FleetValid (upsert_machine_from_discovery name port now)
unfolding upsert_machine_from_discovery
upsert-Keeps name port now =
    search (keeps_rules, get_machine_by_name-Keeps, insert_if_missing-Keeps)

touch_if-Keeps :
    (b : Bool) (i : ℕ) (g : Machine → Machine)
    → Keeps FleetValid (execute (update_machine i g))
    → Keeps FleetValid (touch_if b i g)
unfolding touch_if
touch_if-Keeps b i g k = search keeps_rules

touch-Keeps : (i : ℕ) (a b : Bool) (now : ℕ) → Keeps FleetValid (touch_machine i a b now)
unfolding touch_machine
touch-Keeps i a b now = search (
  keeps_rules,
  touch_if-Keeps a i (λ m. record m { last_seen_at = some now })
      (update-Keeps i _ (λ m. refl) (λ m. refl) (λ m h. ground arith)),
  touch_if-Keeps b i (λ m. record m { last_success_at = some now })
      (update-Keeps i _ (λ m. refl) (λ m. refl) (λ m h. ground arith)),
)

discover_loop-Keeps :
    (now : ℕ) (ps : List Tunnel) (res : DiscoveryResult)
    → Keeps FleetValid (discover_loop now ps res)
unfolding discover_loop
discover_loop-Keeps now [] res = search keeps_rules
discover_loop-Keeps now (p ∷ ps) res =
    search (keeps_rules, upsert-Keeps, touch-Keeps, discover_loop-Keeps now ps) depth 8

discover-Keeps : (now : ℕ) (r : Result (List Tunnel)) → Keeps FleetValid (discover now r)
unfolding discover
discover-Keeps now r = search (keeps_rules, discover_loop-Keeps)

set_credentials-Keeps :
    (i : ℕ) (user a b : String) (now : ℕ)
    → str_eq user "" ≡ false
    → Keeps FleetValid (set_machine_credentials i user a b now)
unfolding set_machine_credentials
set_credentials-Keeps i user a b now h =
    search
      (
        keeps_rules,
        update-Keeps i (with_credentials user a b now) (λ m. refl) (λ m. refl)
            (with_credentials-IsSound user a b now h),
      )
      depth 8

update_credentials-Keeps :
    (k : Cipher) (n n' now i : ℕ) (user pass sudo : String)
    → Keeps FleetValid (update_credentials k n n' now i user pass sudo)
unfolding update_credentials
update_credentials-Keeps k n n' now i user pass sudo =
    search (keeps_rules, get_machine_by_id-Keeps, set_credentials-Keeps) depth 12

-- The requests that reach the machines, with the time and the nonces that they meet.
pub data MachineRequest : Type 0 where
  discovers : (now : ℕ) → Result (List Tunnel) → MachineRequest
  sets_credentials : (nonce nonce' now id : ℕ) (user pass sudo : String) → MachineRequest
  switches : (id : ℕ) → Bool → (now : ℕ) → MachineRequest
  touches : (id : ℕ) → (seen success : Bool) → (now : ℕ) → MachineRequest

pub serve : Cipher → MachineRequest → Disk Fleet → Disk Fleet
serve k (discovers now r) d = (discover now r d).1
serve k (sets_credentials n n' now i user pass sudo) d =
    (update_credentials k n n' now i user pass sudo d).1
serve k (switches i b now) d = (set_enabled i b now d).1
serve k (touches i a b now) d = (touch_machine i a b now d).1

pub serve_all : Cipher → List MachineRequest → Disk Fleet → Disk Fleet
serve_all k [] d = d
serve_all k (r ∷ rs) d = serve_all k rs (serve k r d)

serve-FleetValid :
    (k : Cipher) (r : MachineRequest) (d : Disk Fleet)
    → FleetValid d.rows
    → FleetValid (serve k r d).rows
unfolding serve
serve-FleetValid k (discovers now r) d v = (discover-Keeps now r).at d v
serve-FleetValid k (sets_credentials n n' now i user pass sudo) d v =
    (update_credentials-Keeps k n n' now i user pass sudo).at d v
serve-FleetValid k (switches i b now) d v = (set_enabled-Keeps i b now).at d v
serve-FleetValid k (touches i a b now) d v = (touch-Keeps i a b now).at d v

-- Every sequence of requests keeps, whichever statements fault: ids and names unique, and each
-- machine sound, so that monitoring is on only for a machine with an SSH user, the status is one
-- of the four, it reads "enabled" only while monitoring is on, and "pending" or "disabled" only
-- while it is off.
pub serve_all-FleetValid :
    (k : Cipher) (rs : List MachineRequest) (d : Disk Fleet)
    → FleetValid d.rows
    → FleetValid (serve_all k rs d).rows
unfolding serve_all
serve_all-FleetValid k [] d v = v
serve_all-FleetValid k (r ∷ rs) d v =
    serve_all-FleetValid k rs (serve k r d) (serve-FleetValid k r d v)

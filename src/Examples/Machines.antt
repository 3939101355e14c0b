-- ===== src/Examples/Machines.antt =====
-- Machines: discovery, credentials and the monitoring switch.
use frpilot.Prelude.{◌⊎◌, ◌≡◌, refl, str_eq, true, false, some, List, [], ◌∷◌, pos, find?}
use frpilot.Prelude.Text.{trim_space}
use frpilot.Exec.{Result, ok, err, Disk, calm}
use frpilot.Cipher.{encrypt_secret, decrypt_secret}
use frpilot.Store.Machines.{Machine, Fleet, has_id, new_machine, machine_configured}
use frpilot.Registry.{Tunnel, update_credentials}
use frpilot.Registry.Sound.{FleetValid}
use frpilot.Registry.Lifecycle.{
  MachineRequest, discovers, sets_credentials, switches, touches, serve_all, serve_all-FleetValid,
}
use frpilot.Registry.Credentials.{update_credentials-row}
use frpilot.Examples.{clear}

abbrev no_machines : Fleet
no_machines = record { machines = []; next_machine = 1 }

no_machines-FleetValid : FleetValid no_machines
no_machines-FleetValid = record { ids = tt; fresh = tt; names = tt; sound = tt }

abbrev tunnel : Tunnel
tunnel = record { name = "lab"; remote_port = pos 6001; status = "online" }

abbrev requests : List MachineRequest
requests =
    discovers 100 (ok (tunnel ∷ []))
    ∷ sets_credentials 1 2 150 1 "root" "pw" ""
    ∷ switches 1 true 200
    ∷ touches 1 true true 250
    ∷ []

serve_all-FleetValid_example : FleetValid (serve_all clear requests (calm no_machines)).rows
serve_all-FleetValid_example =
    serve_all-FleetValid clear requests (calm no_machines) no_machines-FleetValid

abbrev lab : Machine
lab = new_machine 1 "lab" (pos 6001) 100

abbrev fleet : Fleet
fleet = record { machines = lab ∷ []; next_machine = 2 }

saved : (update_credentials clear 1 2 300 1 " root " "pw" "" (calm fleet)).0 ≡ ok tt
unfolding update_credentials trim_space frpilot.Exec.◌>>=◌ frpilot.Store.Machines.get_machine_by_id
    encrypt_secret frpilot.Store.Machines.set_machine_credentials
saved = refl

update_credentials-row_example :
    let after =
      (update_credentials clear 1 2 300 1 " root " "pw" "" (calm fleet)).1.rows.machines in
    (m m' : Machine) × (find? (has_id 1) fleet.machines ≡ some m)
    × (find? (has_id 1) after ≡ some m')
    × (m'.ssh_user ≡ trim_space " root ")
    × (str_eq m'.ssh_user "" ≡ false)
    × (((str_eq "pw" "" ≡ false) × (decrypt_secret clear m'.ssh_pass_enc ≡ ok "pw"))
        ⊎ ((str_eq "pw" "" ≡ true) × (m'.ssh_pass_enc ≡ m.ssh_pass_enc)))
    × (str_eq m'.ssh_pass_enc "" ≡ false)
    × (m'.status ≡ machine_configured)
    × (m'.enabled ≡ m.enabled)
update_credentials-row_example =
    update_credentials-row clear 1 2 300 1 " root " "pw" "" (calm fleet) saved
